-- ===== src/Service/Login/Registered.antt =====
-- A user who has registered can log in.
use passport.Base.{
  ℕ, ◌≡◌, ◌≢◌, refl, sym, ap, ◌∙◌, subst, Bool, true, false, Bool-cases, inl, inr, some, List, [],
  ◌∷◌, ◌++◌, ◌||◌, ◌==◌, arith, exists, keep_if, length,
}
use passport.Text.{
  Text, text_eq, text_eq_iff, text_eq_refl, trim_space, to_lower, trim_prefix, codes,
}
use passport.Errors.{ok}
use passport.Protos.{User}
use passport.Request.{UserReq, no_user_req, Checks, encry_pwd}
use passport.World.{World}
use passport.Live.{Returns, IsCalm}
use passport.Hoare.{Outcome-ok}
use passport.Dao.Account.{first_user, matches_user, matches_text, is_taken, clashes, inserted_user}
use passport.Service.User.{user_pre_treat, or_nickname, with_nickname, add_user_service}
use passport.Service.User.Registration.{registration, add_user_service-Outcome}
use passport.Service.Login.{
  is_disabled, is_wrong_password, find_account, has_no_secret, has_no_name,
}
use passport.Service.Login.Entering.{
  find_account-Returns, user_login-Returns, LogsIn, LogsIn-Returns,
}

-- A login by telephone number and password.
abbrev pub by_cellphone : Text → Text → UserReq
by_cellphone cellphone password = record no_user_req { cellphone = cellphone; password = password }

or_nickname-keeps :
    (s : Text) (p : UserReq)
    → ((or_nickname s p).cellphone ≡ p.cellphone)
      × ((or_nickname s p).password ≡ p.password)
      × ((or_nickname s p).ext ≡ p.ext)
unfolding or_nickname
or_nickname-keeps s p = elim (Bool-cases (text_eq p.nickname [])) [
  | inl e ↦ rw e (refl, refl, refl)
  | inr e ↦ rw e (refl, refl, refl)
]

registration-keeps :
    (c : Checks) (p : UserReq)
    → ((registration c p).cellphone ≡ (user_pre_treat p).cellphone)
      × ((registration c p).password ≡ encry_pwd c p.password)
      × ((registration c p).ext ≡ p.ext)
unfolding with_nickname user_pre_treat
registration-keeps c p =
    let q = user_pre_treat p in
    let (cell, pass, ext) = or_nickname-keeps q.cellphone q in
    let (cell', pass', ext') = or_nickname-keeps q.email (or_nickname q.cellphone q) in
    (cell' ∙ cell, ap (encry_pwd c) (pass' ∙ pass), ext' ∙ ext)

user_pre_treat-by_cellphone :
    (cellphone password : Text)
    → user_pre_treat (by_cellphone cellphone password)
      ≡ by_cellphone (trim_space (to_lower cellphone)) password
unfolding user_pre_treat trim_space to_lower trim_prefix codes
user_pre_treat-by_cellphone cellphone password = refl

matches_user-by_cellphone :
    (cellphone password : Text) (u : User)
    → cellphone ≢ []
    → matches_user (by_cellphone cellphone password) u ≡ text_eq u.cellphone cellphone
unfolding matches_user matches_text text_eq
matches_user-by_cellphone cellphone password u ne = ground (arith, text_eq_iff cellphone [])

-- A number that no row has, so that it clashes with none.
is_taken-cellphone :
    (q : UserReq) (u : User)
    → q.cellphone ≢ []
    → is_taken q u ≡ false
    → text_eq u.cellphone q.cellphone ≡ false
unfolding is_taken clashes
is_taken-cellphone q u ne e = ground (arith, text_eq_iff q.cellphone [])

first_user-append :
    (p : User → Bool) (us : List User) (u : User)
    → exists p us ≡ false
    → p u ≡ true
    → first_user p (us ++ u ∷ []) ≡ some u
unfolding first_user
first_user-append p [] u h k = rw k refl
first_user-append p (x ∷ us) u h k = ground (arith, first_user-append p us u)

-- The number of a row that clashes with none is new.
exists-by_cellphone :
    (q : UserReq) (password : Text) (us : List User)
    → q.cellphone ≢ []
    → exists (is_taken q) us ≡ false
    → exists (matches_user (by_cellphone q.cellphone password)) us ≡ false
exists-by_cellphone q password [] ne h = refl
exists-by_cellphone q password (u ∷ us) ne h = ground (
  arith,
  exists-by_cellphone q password us ne,
  is_taken-cellphone q u ne,
  matches_user-by_cellphone q.cellphone password u ne,
)

length-keep_if-append :
    (p : User → Bool) (us : List User) (u : User)
    → exists p us ≡ false
    → p u ≡ true
    → length (keep_if p (us ++ u ∷ [])) ≡ 1
length-keep_if-append p [] u h k = ground arith
length-keep_if-append p (x ∷ us) u h k = ground (arith, length-keep_if-append p us u)

login-is_given :
    (cellphone password : Text)
    → (user_pre_treat (by_cellphone cellphone password)).cellphone ≢ []
    → password ≢ []
    → (has_no_secret (by_cellphone cellphone password)
        || has_no_name (by_cellphone cellphone password))
      ≡ false
unfolding has_no_secret has_no_name text_eq user_pre_treat to_lower trim_space
login-is_given [] password ne ne' = absurd (ne refl)
login-is_given (c ∷ s) [] ne ne' = absurd (ne' refl)
login-is_given (c ∷ s) (d ∷ t) ne ne' = refl

-- What has been added matches the login.
first_user-registration :
    (q : UserReq) (password : Text) (uid : ℕ) (us : List User)
    → q.cellphone ≢ []
    → exists (is_taken q) us ≡ false
    → first_user (matches_user (by_cellphone q.cellphone password)) (us ++ inserted_user uid q ∷ [])
      ≡ some (inserted_user uid q)
unfolding inserted_user
first_user-registration q password uid us ne free =
    first_user-append (matches_user (by_cellphone q.cellphone password)) us (inserted_user uid q)
      (exists-by_cellphone q password us ne free)
      (matches_user-by_cellphone q.cellphone password (inserted_user uid q) ne
        ∙ text_eq_refl q.cellphone)

is_wrong_password-registration :
    (c : Checks) (q : UserReq) (cellphone password : Text) (uid : ℕ)
    → q.password ≡ encry_pwd c password
    → is_wrong_password c (by_cellphone cellphone password) (inserted_user uid q) ≡ false
unfolding is_wrong_password inserted_user
is_wrong_password-registration c q cellphone password uid e =
    rw e (ground (arith, text_eq_refl (encry_pwd c password)))

module _ {P : Type 0} where
  find_account-by_cellphone :
      (cellphone password : Text) (v : World P) (u : User)
      → IsCalm v
      → cellphone ≢ []
      → first_user (matches_user (by_cellphone cellphone password)) v.users ≡ some u
      → Returns
          (find_account (by_cellphone cellphone password))
          v
          (λ r x. (r ≡ (some u, false)) × (x ≡ v))
  unfolding text_eq
  find_account-by_cellphone [] password v u calm ne e = absurd (ne refl)
  find_account-by_cellphone (c ∷ s) password v u calm ne e =
      find_account-Returns (by_cellphone (c ∷ s) password) v u calm refl refl e

  -- Once AddUserService has returned an id, for a request with a telephone number that is not blank,
  -- a password, and no status of being disabled, UserLogin with that number and password, from any
  -- state that has the same users and in which no statement fails, lets in the user with that id; if no
  -- user had the id before, and the validation accepts the request to log in.
  pub user_login-add_user_service :
      (c : Checks) (p : UserReq) (uid : ℕ) (w v : World P)
      → (add_user_service c p w).0 ≡ ok uid
      → v.users ≡ (add_user_service c p w).1.users
      → IsCalm v
      → exists (λ u. u.uid == w.next_uid) w.users ≡ false
      → (user_pre_treat p).cellphone ≢ []
      → p.password ≢ []
      → is_disabled p.ext ≡ false
      → c.is_valid (user_pre_treat (by_cellphone p.cellphone p.password)) ≡ true
      → LogsIn c (by_cellphone p.cellphone p.password) v uid
  unfolding user_pre_treat inserted_user
  user_login-add_user_service c p uid w v added same calm new phone password enabled valid =
      let q = registration c p in
      let row = inserted_user uid q in
      let (cell, pass, ext) = registration-keeps c p in
      let a = Outcome-ok uid (add_user_service-Outcome c p w) added in
      let users : v.users ≡ w.users ++ row ∷ [] = same ∙ a.added in
      let treated : user_pre_treat (by_cellphone p.cellphone p.password)
          ≡ by_cellphone q.cellphone p.password =
        user_pre_treat-by_cellphone p.cellphone p.password
        ∙ ap (λ s. by_cellphone s p.password) (sym cell) in
      LogsIn-Returns c (by_cellphone p.cellphone p.password) v uid (
        user_login-Returns c (by_cellphone p.cellphone p.password) v row
          (login-is_given p.cellphone p.password phone password) valid
          (subst (λ r. Returns (find_account r) v (λ r x. (r ≡ (some row, false)) × (x ≡ v)))
            (sym treated)
            (find_account-by_cellphone q.cellphone p.password v row calm (λ e. phone (sym cell ∙ e))
              (ap (first_user (matches_user (by_cellphone q.cellphone p.password))) users
                ∙ first_user-registration q p.password uid w.users (λ e. phone (sym cell ∙ e))
                    a.is_free)))
          (record {
            calm = calm;
            unique =
                ap (λ us. length (keep_if (λ u. u.uid == uid) us)) users
                ∙ length-keep_if-append (λ u. u.uid == uid) w.users row
                    (subst (λ n. exists (λ u. u.uid == n) w.users ≡ false) (sym a.id) new)
                    (ground arith);
            enabled = ap is_disabled ext ∙ enabled;
            right =
                ap (λ r. is_wrong_password c r row) treated
                ∙ is_wrong_password-registration c q q.cellphone p.password uid pass;
          }))
