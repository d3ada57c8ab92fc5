-- ===== src/Service/User/Passwords.antt =====
-- Who may change a password, and what else changes with an account.
use passport.Base.{
  ℕ, ◌≡◌, refl, sym, ap, ◌∙◌, subst, Bool, true, false, List, [], ◌∷◌, ◌&&◌, ◌||◌, ltb, ◌==◌, arith,
  exists, keep_if, length, some,
}
use passport.Text.{Text, text_eq}
use passport.Errors.{Error, Result, ok, err, panic}
use passport.Protos.{User}
use passport.Request.{Checks, encry_pwd}
use passport.World.{World, ◌>>=◌, attempt, statement}
use passport.Cache.{get}
use passport.Hoare.{
  Outcome, Triple, returned, failed, Triple-bind, Triple-pure, Triple-raise, Triple-if, Triple-try,
  Triple-statement, weaken-Outcome,
}
use passport.Sms.{check_sms_code}
use passport.Sms.Answers.{Checked, not_init, accepted, refused, check_sms_code-Checked}
use passport.Dao.Account.{user_update_pwd, user_update_pwd_by_cellphone, update_users, change_users}
use passport.Service.User.{rows_or_modify, update_user_pwd, update_user_pwd_by_sms}

exists-length :
    {A : Type 0} (p : A → Bool) (xs : List A)
    → ltb (length (keep_if p xs)) 1 ≡ false
    → exists p xs ≡ true
exists-length p [] h = absurd (cc h)
exists-length p (x ∷ xs) h = ground (arith, exists-length p xs)

module _ {P : Type 0} where
  -- The rows that pass a test have been changed, and there was one.
  abbrev pub HasChanged : (User → Bool) → (User → User) → World P → World P → Type 0
  HasChanged p f w v = (exists p w.users ≡ true) × (v.users ≡ change_users p f w.users)

  abbrev Rows : (User → Bool) → (User → User) → World P → Result ℕ → World P → Type 0
  Rows p f w (ok n) v =
      (ltb n 1 ≡ false → exists p w.users ≡ true) × (v.users ≡ change_users p f w.users)
  Rows p f w (err e) v = v.users ≡ w.users
  Rows p f w panic v = ⊥

  abbrev SameUsers : World P → World P → Type 0
  SameUsers w v = v.users ≡ w.users

  -- If nothing has changed, the users are as before.
  abbrev Anything : World P → Type 0
  Anything v = Unit

  rows_or_modify-Triple :
      (p : User → Bool) (f : User → User) (w : World P) (r : Result ℕ)
      → Triple (Rows p f w r) (rows_or_modify r) (λ _. HasChanged p f w) Anything
  unfolding rows_or_modify
  rows_or_modify-Triple p f w (ok n) =
      Triple-if (ltb n 1) _ _ (λ _. Triple-raise Error.modify (λ v h. tt))
        (λ some_row. Triple-pure n (λ v h. (h.0 some_row, h.1)))
  rows_or_modify-Triple p f w (err e) = Triple-raise Error.modify (λ v h. tt)
  rows_or_modify-Triple p f w panic = record { at = λ v h. absurd h }

  update_users-Triple :
      (p : User → Bool) (f : User → User) (w : World P)
      → Triple (SameUsers w) (attempt (statement (update_users p f))) (Rows p f w) Anything
  unfolding update_users
  update_users-Triple p f w = Triple-try (statement (update_users p f)) (
      Triple-statement (update_users p f) (λ v fs h e. h) (λ v fs h. h)
        (record {
          at = λ v h.
              returned {a = length (keep_if p v.users)}
                {w = record v { users = change_users p f v.users }}
                (λ k. ap (exists p) (sym h) ∙ exists-length p v.users k, ap (change_users p f) h);
        }))

  -- The rows that a password is changed in.
  change-Triple :
      (p : User → Bool) (f : User → User) (w : World P)
      → Triple
          (SameUsers w)
          (attempt (statement (update_users p f)) >>= rows_or_modify)
          (λ _. HasChanged p f w)
          Anything
  change-Triple p f w =
      Triple-bind (Rows p f w) (attempt (statement (update_users p f))) rows_or_modify
        (update_users-Triple p f w) (rows_or_modify-Triple p f w)

  -- From any state, and whatever statements fail, UpdateUserPWD does not panic. If it returns no
  -- error, some row has the id and the hash of the old password, and exactly the rows that do have
  -- got the hash of the new one, with nothing else in `users` changed.
  pub update_user_pwd-Outcome :
      (c : Checks) (uid : ℕ) (old_pwd new_pwd : Text) (w : World P)
      → Outcome
          (λ _.
            HasChanged
              (λ u. u.uid == uid && text_eq u.password (encry_pwd c old_pwd))
              (λ u. record u { password = encry_pwd c new_pwd })
              w)
          Anything
          (update_user_pwd c uid old_pwd new_pwd w).0
          (update_user_pwd c uid old_pwd new_pwd w).1
  unfolding update_user_pwd user_update_pwd
  update_user_pwd-Outcome c uid old_pwd new_pwd w =
      (Triple-if {Pre = SameUsers w} (uid == 0) _ _ (λ _. Triple-raise Error.session (λ v h. tt))
          (λ _.
            Triple-if (text_eq old_pwd [] || text_eq new_pwd []) _ _
              (λ _. Triple-raise Error.param (λ v h. tt))
              (λ _.
                change-Triple (λ u. u.uid == uid && text_eq u.password (encry_pwd c old_pwd))
                  (λ u. record u { password = encry_pwd c new_pwd }) w))).at
        w refl

  code-Outcome :
      (phone code : Text) (w : World P) (x : Result (Unit {0}) × World P)
      → Checked phone code w x
      → Outcome (λ _ v. SameUsers w v × ((get w.now phone w.codes).0 ≡ some code)) Anything x.0 x.1
  code-Outcome phone code w x (not_init off) = failed tt
  code-Outcome phone code w x (accepted m found) = returned (refl, found)
  code-Outcome phone code w x (refused m) = failed tt

  -- From any state, and whatever statements fail, UpdateUserPWDBySms does not panic. If it returns no
  -- error, the code is the one kept for the telephone number, some row has the number, and exactly
  -- the rows that do have got the hash of the new password, with nothing else in `users` changed.
  pub update_user_pwd_by_sms-Outcome :
      (c : Checks) (cellphone sms_code new_pwd : Text) (w : World P)
      → Outcome
          (λ _ v.
            HasChanged
              (λ u. text_eq u.cellphone cellphone)
              (λ u. record u { password = encry_pwd c new_pwd })
              w
              v
            × ((get w.now cellphone w.codes).0 ≡ some sms_code))
          Anything
          (update_user_pwd_by_sms c cellphone sms_code new_pwd w).0
          (update_user_pwd_by_sms c cellphone sms_code new_pwd w).1
  unfolding update_user_pwd_by_sms user_update_pwd_by_cellphone
  update_user_pwd_by_sms-Outcome c cellphone sms_code new_pwd w =
      (Triple-if {Pre = λ v. v ≡ w}
          (text_eq cellphone [] || text_eq sms_code [] || text_eq new_pwd []) _ _
          (λ _. Triple-raise Error.param (λ v h. tt))
          (λ _.
            Triple-bind (λ _ v. SameUsers w v × ((get w.now cellphone w.codes).0 ≡ some sms_code))
              (check_sms_code cellphone sms_code) _
              (record {
                at = λ v h.
                    subst
                      (λ x.
                        Outcome
                          (λ _ v. SameUsers w v × ((get w.now cellphone w.codes).0 ≡ some sms_code))
                          Anything (check_sms_code cellphone sms_code x).0
                          (check_sms_code cellphone sms_code x).1)
                      (sym h)
                      (code-Outcome cellphone sms_code w (check_sms_code cellphone sms_code w)
                        (check_sms_code-Checked cellphone sms_code w));
              })
              (λ _. record {
                at = λ v h.
                    weaken-Outcome (λ n x k. (k, h.1))
                      ((change-Triple (λ u. text_eq u.cellphone cellphone)
                          (λ u. record u { password = encry_pwd c new_pwd }) w).at
                        v h.0);
              }))).at
        w refl
