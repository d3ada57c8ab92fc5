-- ===== src/Http/Visits.antt =====
-- A user who keeps sending requests: the cached user is never read again.
use passport.Base.{
  ℕ, ◌+◌, ◌-◌, ◌≤◌, ◌≡◌, sym, ap, ◌∙◌, subst, true, false, Option, none, some, List, ==_iff, ltb,
  if◌then◌else◌, if_true, if_false, arith,
}
use passport.Errors.{Result, ok}
use passport.Protos.{User, is_real_user_uid}
use passport.World.{World, Exec, ◌>>=◌}
use passport.Service.Login.{is_disabled}
use passport.Http.{
  of_user, auth_filter, reload_user, see_user, fresh_user, login_entry, store_login,
}

login_entry-store_login :
    (u x : User) (t : ℕ) (es : List (User × ℕ))
    → x.uid ≡ u.uid
    → login_entry u.uid (store_login x t es) ≡ some (x, t)
unfolding login_entry store_login
login_entry-store_login u x t es e = if_true _ _ ((==_iff x.uid u.uid).1 e)

fresh_user-within : (x : User) (t now : ℕ) → t ≤ now + 600 → fresh_user t (some (x, now)) ≡ some x
unfolding fresh_user
fresh_user-within x t now le = if_false {b = ltb 600 (t - now)} _ _ (ground arith)

module _ {P : Type 0} where
  -- The state at a later time, with what others have made of the table of users.
  abbrev pub later : ℕ → List User → World P → World P
  later t us w = record w { now = t; users = us }

  -- Requests of a user, each at most 600 seconds after the one before.
  pub data Visits (u : User) : World P → World P → Type 0 where
    stop : (w : World P) → Visits u w w
    visit :
        (t : ℕ) (us : List User) (w v : World P)
        → w.now ≤ t
        → t ≤ w.now + 600
        → Visits u (auth_filter (of_user u) (later t us w)).1 v
        → Visits u w v

  -- The user has been seen just now, as `x`.
  pub record IsSeen (u x : User) (w : World P) : Type 0 where
    pub entry : login_entry u.uid w.login_users ≡ some (x, w.now)
    pub same : x.uid ≡ u.uid

  auth_filter-IsSeen :
      (u x : User) (t : ℕ) (us : List User) (w : World P)
      → is_real_user_uid u.uid ≡ true
      → is_disabled x.ext ≡ false
      → IsSeen u x w
      → t ≤ w.now + 600
      → auth_filter (of_user u) (later t us w)
        ≡ (ok (some u), record (later t us w) { login_users = store_login x t w.login_users })
  unfolding auth_filter reload_user see_user
  auth_filter-IsSeen u x t us w real enabled seen le =
      let v = later t us w in
      ap (λ (m : Exec P (Option User)). m v) (if_true _ _ real)
      ∙ ap (λ fresh. (reload_user u.uid fresh >>= see_user u) v)
          (ap (fresh_user t) seen.entry ∙ fresh_user-within x t w.now le)
      ∙ ap
          (λ b. (
            ok (if b then none else some u),
            record v { login_users = store_login x t w.login_users },
          ))
          enabled

  Visits-IsSeen :
      (u x : User) (w v : World P)
      → is_real_user_uid u.uid ≡ true
      → is_disabled x.ext ≡ false
      → IsSeen u x w
      → Visits u w v
      → IsSeen u x v
  Visits-IsSeen u x w v real enabled seen (stop _) = seen
  Visits-IsSeen u x w v real enabled seen (visit t us _ _ after within rest) =
      Visits-IsSeen u x _ v real enabled
        (subst (λ (r : Result (Option User) × World P). IsSeen u x r.1)
          (sym (auth_filter-IsSeen u x t us w real enabled seen within))
          (record {
            entry = login_entry-store_login u x t w.login_users seen.same;
            same = seen.same;
          }))
        rest

  -- Once a user with a real id has been seen, not disabled at that time, AuthFilter accepts every
  -- later session of the user for as long as requests come at most 600 seconds apart, whatever
  -- becomes of the table of users in between: also if the user is disabled or deleted there.
  pub auth_filter-Visits :
      (u x : User) (t : ℕ) (us : List User) (w v : World P)
      → is_real_user_uid u.uid ≡ true
      → is_disabled x.ext ≡ false
      → IsSeen u x w
      → Visits u w v
      → t ≤ v.now + 600
      → (auth_filter (of_user u) (later t us v)).0 ≡ ok (some u)
  auth_filter-Visits u x t us w v real enabled seen visits within =
      ap (λ (r : Result (Option User) × World P). r.0)
        (auth_filter-IsSeen u x t us v real enabled (Visits-IsSeen u x w v real enabled seen visits)
          within)
