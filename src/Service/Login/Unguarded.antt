-- ===== src/Service/Login/Unguarded.antt =====
-- Logins that need no secret of the account.
use passport.Base.{
  ◌≡◌, ◌≢◌, refl, sym, ap, ◌∙◌, subst, true, false, some, [], not, ◌&&◌, ◌||◌, if_false, arith,
}
use passport.Text.{Text, text_eq, text_eq_iff}
use passport.Errors.{Error, Result, err}
use passport.Protos.{User}
use passport.Request.{UserReq, Checks}
use passport.World.{World, ◌>>=◌, attempt, as_value}
use passport.Live.{Returns, IsCalm, Returns-pure, Returns-true, Returns-false, Returns-bind}
use passport.Sms.{check_sms_code}
use passport.Dao.Account.{first_user, matches_user}
use passport.Service.User.{user_pre_treat}
use passport.Service.Login.{
  is_disabled, is_wrong_password, has_no_secret, has_no_name, find_account, login_by_sms_code,
  look_up, or_register, is_refused,
}
use passport.Service.Login.Entering.{
  IsUnique, look_up-Returns, find_account-Returns, user_login-Returns, LogsIn, LogsIn-Returns,
}

-- Without a password there is none to be wrong.
is_wrong_password-none :
    (c : Checks) (p : UserReq) (u : User) → p.password ≡ [] → is_wrong_password c p u ≡ false
unfolding is_wrong_password text_eq
is_wrong_password-none c p u e = rw e refl

is_given :
    (p : UserReq)
    → p.sms_code ≢ []
    → has_no_name p ≡ false
    → (has_no_secret p || has_no_name p) ≡ false
unfolding has_no_secret
is_given p code named = ground (arith, text_eq_iff p.sms_code [])

password-user_pre_treat : (p : UserReq) → (user_pre_treat p).password ≡ p.password
unfolding user_pre_treat
password-user_pre_treat p = refl

module _ {P : Type 0} where
  -- With no password, no telephone number, any code and a nickname, all after normalisation, UserLogin
  -- lets in the user that has the nickname (and the email, if one is given), if that account is
  -- enabled and its id is unique, the validation accepts the request, and no statement fails. The
  -- code is checked by nothing.
  pub user_login_without_secret :
      (c : Checks) (p : UserReq) (w : World P) (u : User)
      → p.password ≡ []
      → p.sms_code ≢ []
      → p.nickname ≢ []
      → (user_pre_treat p).cellphone ≡ []
      → (user_pre_treat p).nickname ≢ []
      → c.is_valid (user_pre_treat p) ≡ true
      → first_user (matches_user (user_pre_treat p)) w.users ≡ some u
      → is_disabled u.ext ≡ false
      → IsUnique u.uid w
      → IsCalm w
      → LogsIn c p w u.uid
  unfolding has_no_name
  user_login_without_secret c p w u no_password code name no_phone nickname valid e enabled unique
        calm =
      let q = user_pre_treat p in
      LogsIn-Returns c p w u.uid (
        user_login-Returns c p w u (is_given p code (ground (arith, text_eq_iff p.nickname [])))
          valid
          (find_account-Returns q w u calm (ground (arith, text_eq_iff q.cellphone []))
            (ground (arith, text_eq_iff q.nickname [])) e)
          (record {
            calm = calm;
            unique = unique;
            enabled = enabled;
            right = is_wrong_password-none c q u (password-user_pre_treat p ∙ no_password);
          }))

  checked-off :
      (phone code : Text) (w : World P)
      → w.has_sms ≡ false
      → Returns (attempt (check_sms_code phone code)) w (λ r v. (is_refused r ≡ false) × (v ≡ w))
  unfolding check_sms_code is_refused
  checked-off phone code w off = record {
    value = err Error.sms_not_init;
    state = w;
    runs = ap (λ (x : Result (Unit {0}) × World P). (as_value x.0, x.1)) (if_false _ _ off);
    holds = (refl, refl);
  }

  login_by_sms_code-off :
      (p : UserReq) (w : World P) (u : User)
      → w.has_sms ≡ false
      → IsCalm w
      → (text_eq p.cellphone [] || text_eq p.sms_code []) ≡ false
      → first_user (matches_user p) w.users ≡ some u
      → Returns (login_by_sms_code p) w (λ r v. (r ≡ (some u, false)) × (v ≡ w))
  unfolding login_by_sms_code or_register
  login_by_sms_code-off p w u off calm given e = Returns-false _ _ w given (
      Returns-bind {Q = λ r v. (is_refused r ≡ false) × (v ≡ w)}
        (attempt (check_sms_code p.cellphone p.sms_code)) _ w
        (checked-off p.cellphone p.sms_code w off)
        (λ r v h. Returns-false _ _ v h.0 (
          subst
            (λ x. Returns (look_up p >>= or_register p) x (λ r v. (r ≡ (some u, false)) × (v ≡ w)))
            (sym h.1)
            (Returns-bind (look_up p) (or_register p) w (look_up-Returns p w u calm e) (λ found v k.
              subst (λ x. Returns (or_register p x) v (λ r v. (r ≡ (some u, false)) × (v ≡ w)))
                (sym k.0) (Returns-pure (some u, false) v (refl, k.1)))))))

  -- While there is no driver for messages, UserLogin lets in, with no password and any code, the
  -- user with the telephone number that is given (and the other names that are), if that account is
  -- enabled and its id is unique, the number and the code are not blank, the validation accepts the
  -- request, and no statement fails.
  pub user_login_without_driver :
      (c : Checks) (p : UserReq) (w : World P) (u : User)
      → w.has_sms ≡ false
      → p.password ≡ []
      → p.sms_code ≢ []
      → p.cellphone ≢ []
      → (user_pre_treat p).cellphone ≢ []
      → (user_pre_treat p).sms_code ≢ []
      → c.is_valid (user_pre_treat p) ≡ true
      → first_user (matches_user (user_pre_treat p)) w.users ≡ some u
      → is_disabled u.ext ≡ false
      → IsUnique u.uid w
      → IsCalm w
      → LogsIn c p w u.uid
  unfolding has_no_name find_account
  user_login_without_driver c p w u off no_password code phone phone' code' valid e enabled unique
        calm =
      let q = user_pre_treat p in
      LogsIn-Returns c p w u.uid (
        user_login-Returns c p w u (is_given p code (ground (arith, text_eq_iff p.cellphone [])))
          valid
          (Returns-true {b = not (text_eq q.cellphone []) && not (text_eq q.sms_code [])} _ _ w
            (ground (arith, text_eq_iff q.cellphone [], text_eq_iff q.sms_code []))
            (login_by_sms_code-off q w u off calm
              (ground (arith, text_eq_iff q.cellphone [], text_eq_iff q.sms_code [])) e))
          (record {
            calm = calm;
            unique = unique;
            enabled = enabled;
            right = is_wrong_password-none c q u (password-user_pre_treat p ∙ no_password);
          }))
