-- ===== src/Http/AdminTenant/Sessions.antt =====
-- What GetSessionUser writes, and whose session it reads.
use passport.Base.{
  ℕ, ◌≡◌, ◌⊎◌, inl, inr, refl, ap, Bool, true, false, Option, none, some, List, [], ◌==◌,
  if◌then◌else◌,
}
use passport.Errors.{Error}
use passport.Protos.{User, is_real_user_uid}
use passport.World.{World, gets, attempt}
use passport.Hoare.{
  Triple, returned, Triple-bind, Triple-pure, Triple-raise, Triple-if, Triple-attempt, Triple-query,
}
use passport.Dao.User.{user_query_by_id, user_by_id}
use passport.Service.Login.{is_disabled}
use passport.Service.User.{get_user_info, user_info_of}
use passport.Http.{
  Session, of_user, broken, no_value, other_value, auth_filter, reload_user, see_user, loaded_user,
  fresh_user, login_entry, get_session_user, user_or_zero,
}

module _ {P : Type 0} (w : World P) where
  -- Nothing has changed but the cached users, and the faults that statements have met.
  abbrev pub IsSame : World P → Type 0
  IsSame v = v ≡ record w { login_users = v.login_users; faults = v.faults }

  abbrev Never : World P → Type 0
  Never v = ⊥

  faults-IsSame : (v : World P) (fs : List Bool) → IsSame v → IsSame (record v { faults = fs })
  faults-IsSame v fs e = ap (λ (x : World P). record x { faults = fs }) e

  store-IsSame :
      (v : World P) (es : List (User × ℕ)) → IsSame v → IsSame (record v { login_users = es })
  store-IsSame v es e = ap (λ (x : World P). record x { login_users = es }) e

  user_info_of-IsSame :
      (found : Option User) → Triple IsSame (user_info_of found) (λ _. IsSame) IsSame
  unfolding user_info_of
  user_info_of-IsSame none = Triple-raise Error.user_not_found (λ v h. h)
  user_info_of-IsSame (some u) = Triple-pure (record u { password = [] }) (λ v h. h)

  get_user_info-IsSame : (uid : ℕ) → Triple IsSame (get_user_info uid) (λ _. IsSame) IsSame
  unfolding get_user_info user_query_by_id user_info_of
  get_user_info-IsSame uid =
      Triple-if (uid == 0) _ _ (λ _. Triple-raise Error.param (λ v h. h))
        (λ _.
          Triple-bind (λ _. IsSame) (user_query_by_id uid) _
            (Triple-query (λ v. user_by_id uid v.users) faults-IsSame faults-IsSame (λ v h. h))
            (λ found. user_info_of-IsSame found))

  reload_user-IsSame :
      (uid : ℕ) (fresh : Option User) → Triple IsSame (reload_user uid fresh) (λ _. IsSame) Never
  unfolding reload_user
  reload_user-IsSame uid (some u) = Triple-pure (some u) (λ v h. h)
  reload_user-IsSame uid none =
      Triple-bind (λ _. IsSame) (attempt (get_user_info uid)) _
        (Triple-attempt (get_user_info uid) (get_user_info-IsSame uid))
        (λ r. Triple-pure (loaded_user r) (λ v h. h))

  -- A user that AuthFilter accepts is the user of the session.
  abbrev Accepts : Session → Option User → World P → Type 0
  Accepts s found v = IsSame v × ((t : User) → found ≡ some t → s ≡ of_user t)

  see_user-Accepts :
      (u : User) (cached : Option User)
      → Triple IsSame (see_user u cached) (Accepts (of_user u)) Never
  unfolding see_user
  see_user-Accepts u none = record { at = λ v h. returned {a = none} (h, λ t e. absurd (cc e)) }
  see_user-Accepts u (some cached) = record {
    at = λ v h. returned (store-IsSame v _ h, same_user (is_disabled cached.ext));
  }
    where
      same_user :
          (b : Bool) (t : User)
          → ◌≡◌ {A = Option User} (if b then none else some u) (some t)
          → of_user u ≡ of_user t
      same_user true t e = absurd (cc e)
      same_user false t e = cc e

  auth_filter-Accepts : (s : Session) → Triple IsSame (auth_filter s) (Accepts s) Never
  unfolding auth_filter
  auth_filter-Accepts (of_user u) =
      Triple-if (is_real_user_uid u.uid) _ _
        (λ _.
          Triple-bind (λ _. IsSame) (gets (λ v. fresh_user v.now (login_entry u.uid v.login_users)))
            _
            (record {
              at = λ v h. returned {a = fresh_user v.now (login_entry u.uid v.login_users)} h;
            })
            (λ fresh.
              Triple-bind (λ _. IsSame) (reload_user u.uid fresh) _ (reload_user-IsSame u.uid fresh)
                (λ cached. see_user-Accepts u cached)))
        (λ _. Triple-pure none (λ v h. (h, λ t e. absurd (cc e))))
  auth_filter-Accepts broken = Triple-pure none (λ v h. (h, λ t e. absurd (cc e)))
  auth_filter-Accepts no_value = Triple-pure none (λ v h. (h, λ t e. absurd (cc e)))
  auth_filter-Accepts other_value = Triple-pure none (λ v h. (h, λ t e. absurd (cc e)))

  user_or_zero-of :
      (s : Session) (found : Option User)
      → ((t : User) → found ≡ some t → s ≡ of_user t)
      → ((user_or_zero found).uid ≡ 0) ⊎ (s ≡ of_user (user_or_zero found))
  unfolding user_or_zero
  user_or_zero-of s none h = inl refl
  user_or_zero-of s (some u) h = inr (h u refl)

  -- GetSessionUser gives a user without an id, or the user of the session.
  pub get_session_user-Triple :
      (s : Session)
      → Triple IsSame (get_session_user s) (λ u v. IsSame v × ((u.uid ≡ 0) ⊎ (s ≡ of_user u))) Never
  unfolding get_session_user
  get_session_user-Triple s =
      Triple-bind (Accepts s) (auth_filter s) _ (auth_filter-Accepts s)
        (λ found. Triple-pure (user_or_zero found) (λ v h. (h.0, user_or_zero-of s found h.1)))
