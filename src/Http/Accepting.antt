-- ===== src/Http/Accepting.antt =====
-- Which sessions AuthFilter accepts.
use passport.Base.{
  ℕ, ◌≡◌, ◌⊎◌, inl, inr, refl, sym, ap, ◌∙◌, true, false, Option, none, some, List, [], ◌==◌,
  if◌then◌else◌, if_true, Bool-cases,
}
use passport.Errors.{Error}
use passport.Protos.{User, Member, Organization, is_real_user_uid}
use passport.World.{World, gets, attempt}
use passport.Hoare.{
  Triple, returned, weaken-Outcome, Triple-bind, Triple-pure, Triple-raise, Triple-if, Triple-try,
  Triple-query,
}
use passport.Dao.User.{user_query_by_id, user_by_id}
use passport.Service.Org.Coherence.{shrink-IsCoherent}
use passport.Service.Org.Membership.{Reads, faults-Keeps}
use passport.Service.Login.{is_disabled}
use passport.Service.User.{get_user_info, user_info_of}
use passport.Http.{
  Session, of_user, broken, no_value, other_value, auth_filter, reload_user, see_user, loaded_user,
  fresh_user, login_entry,
}
use passport.Http.Granting.{both-Outcome}

-- The user as AuthFilter knows it: the cached one that is fresh, or else the one with the id that
-- is stored.
abbrev pub IsKnown : {P : Type 0} → World P → ℕ → User → Type 0
IsKnown w uid x =
    let fresh = fresh_user w.now (login_entry uid w.login_users) in
    (fresh ≡ some x) ⊎ ((fresh ≡ none) × (user_by_id uid w.users ≡ some x))

-- The session is of a user with a real id, whom AuthFilter knows, not disabled.
abbrev pub IsAccepted : {P : Type 0} → World P → Session → Type 0
IsAccepted w s =
    (u : User) × (s ≡ of_user u)
    × (is_real_user_uid u.uid ≡ true)
    × ((x : User) × IsKnown w u.uid x × (is_disabled x.ext ≡ false))

module _ {P : Type 0} (os : List Organization) (ms : List Member) (p : P) (w : World P) where
  abbrev Keeps : World P → Type 0
  Keeps = Reads os ms p

  -- The users, the cached ones and the time are those of the state at the start.
  abbrev pub Starts : World P → Type 0
  Starts v = Keeps v × ((v.users ≡ w.users) × ((v.login_users ≡ w.login_users) × (v.now ≡ w.now)))

  -- No state: what never comes about.
  abbrev Never : World P → Type 0
  Never v = ⊥

  -- A user that is loaded has the `ext` of the stored one.
  abbrev Stored : ℕ → User → Type 0
  Stored uid x = (y : User) × (user_by_id uid w.users ≡ some y) × (x.ext ≡ y.ext)

  user_info_of-Triple :
      (uid : ℕ) (found : Option User)
      → Triple
          (λ v. Keeps v × (found ≡ user_by_id uid w.users))
          (user_info_of found)
          (λ x v. Keeps v × Stored uid x)
          Keeps
  unfolding user_info_of
  user_info_of-Triple uid none = Triple-raise Error.user_not_found (λ v h. h.0)
  user_info_of-Triple uid (some u) =
      Triple-pure (record u { password = [] }) (λ v h. (h.0, (u, sym h.1, refl)))

  get_user_info-Triple :
      (uid : ℕ) → Triple Starts (get_user_info uid) (λ x v. Keeps v × Stored uid x) Keeps
  unfolding get_user_info user_query_by_id user_info_of
  get_user_info-Triple uid =
      Triple-if {Pre = Starts} (uid == 0) _ _ (λ _. Triple-raise Error.param (λ v h. h.0))
        (λ _.
          Triple-bind (λ found v. Keeps v × (found ≡ user_by_id uid w.users)) (user_query_by_id uid)
            _
            (Triple-query (λ v. user_by_id uid v.users) (λ v fs h. faults-Keeps os ms p v fs h.0)
              (λ v fs h. (faults-Keeps os ms p v fs h.0, h.1))
              (λ v h. (h.0, ap (user_by_id uid) h.1.0)))
            (λ found. user_info_of-Triple uid found))

  -- What is known of the user after the cache and the table were asked.
  abbrev Found : ℕ → Option User → Option User → Type 0
  Found uid fresh cached =
      (x : User)
      → cached ≡ some x
      → (y : User) × ((fresh ≡ some y) ⊎ ((fresh ≡ none) × (user_by_id uid w.users ≡ some y)))
        × (x.ext ≡ y.ext)

  reload_user-Triple :
      (uid : ℕ) (fresh : Option User)
      → Triple Starts (reload_user uid fresh) (λ cached v. Keeps v × Found uid fresh cached) Never
  unfolding reload_user loaded_user
  reload_user-Triple uid (some u) = Triple-pure (some u) (λ v h. (h.0, λ x e. (u, inl refl, cc e)))
  reload_user-Triple uid none =
      Triple-bind (λ r v. Keeps v × Found uid none (loaded_user r)) (attempt (get_user_info uid)) _
        (Triple-try (get_user_info uid) (record {
          at = λ v h.
              both-Outcome (λ x k l. (l.0, λ z e. (l.1.0, inr (refl, l.1.1), cc (e, l.1.2))))
                (λ k l e. (l, λ z t. absurd (cc t))) ((get_user_info-Triple uid).at v h);
        }))
        (λ r. Triple-pure (loaded_user r) (λ v h. h))

  see_user-Triple :
      (u : User) (fresh cached : Option User)
      → Triple
          (λ v. Keeps v × Found u.uid fresh cached)
          (see_user u cached)
          (λ found v.
            Keeps v
            × ((t : User)
                → found ≡ some t
                → (y : User) × ((fresh ≡ some y)
                    ⊎ ((fresh ≡ none) × (user_by_id u.uid w.users ≡ some y)))
                  × (is_disabled y.ext ≡ false)))
          Never
  unfolding see_user
  see_user-Triple u fresh none = record {
    at = λ v h. returned {a = none} (h.0, λ t e. absurd (cc e));
  }
  see_user-Triple u fresh (some cached) = record {
    at = λ v h. returned (
      record {
        coherent = shrink-IsCoherent v _ h.0.coherent refl refl (λ k e x. x);
        orgs = h.0.orgs;
        members = h.0.members;
        policy = h.0.policy;
      },
      λ t e.
          let (y, known, same) = h.1 cached refl in
          (y, known, ap is_disabled (sym same) ∙ enabled u cached t e),
    );
  }
    where
      enabled :
          (u cached t : User)
          → ◌≡◌ {A = Option User} (if is_disabled cached.ext then none else some u) (some t)
          → is_disabled cached.ext ≡ false
      enabled u cached t e = elim (Bool-cases (is_disabled cached.ext)) [
        | inl on ↦ absurd (cc (sym (if_true {A = Option User} none (some u) on) ∙ e))
        | inr off ↦ off
      ]

  pub auth_filter-Triple :
      (s : Session)
      → Triple Starts
          (auth_filter s)
          (λ found v. Keeps v × ((t : User) → found ≡ some t → IsAccepted w s))
          Never
  unfolding auth_filter
  auth_filter-Triple (of_user u) =
      Triple-if (is_real_user_uid u.uid) _ _
        (λ real.
          Triple-bind
            (λ fresh v. Starts v × (fresh ≡ fresh_user w.now (login_entry u.uid w.login_users)))
            (gets (λ v. fresh_user v.now (login_entry u.uid v.login_users))) _
            (record {
              at = λ v h. returned {a = fresh_user v.now (login_entry u.uid v.login_users)} (
                h,
                ap (λ n. fresh_user n (login_entry u.uid v.login_users)) h.1.1.1
                    ∙ ap (λ es. fresh_user w.now (login_entry u.uid es)) h.1.1.0,
              );
            })
            (λ fresh. record {
              at = λ v h.
                  weaken-Outcome
                    (λ found x k. (
                      k.0,
                      λ t e.
                          let (y, known, on) = k.1 t e in
                          (u, refl, real, (y, known_from u.uid h.1 known, on)),
                    ))
                    ((Triple-bind (λ cached v. Keeps v × Found u.uid fresh cached)
                        (reload_user u.uid fresh) _ (reload_user-Triple u.uid fresh)
                        (λ cached. see_user-Triple u fresh cached)).at
                      v h.0);
            }))
        (λ _. Triple-pure none (λ v h. (h.0, λ t e. absurd (cc e))))
    where
      known_from :
          {a b : Option User} {y : User} (uid : ℕ)
          → a ≡ b
          → (a ≡ some y) ⊎ ((a ≡ none) × (user_by_id uid w.users ≡ some y))
          → (b ≡ some y) ⊎ ((b ≡ none) × (user_by_id uid w.users ≡ some y))
      known_from uid e (inl k) = inl (sym e ∙ k)
      known_from uid e (inr (k, l)) = inr (sym e ∙ k, l)
  auth_filter-Triple broken = Triple-pure none (λ v h. (h.0, λ t e. absurd (cc e)))
  auth_filter-Triple no_value = Triple-pure none (λ v h. (h.0, λ t e. absurd (cc e)))
  auth_filter-Triple other_value = Triple-pure none (λ v h. (h.0, λ t e. absurd (cc e)))
