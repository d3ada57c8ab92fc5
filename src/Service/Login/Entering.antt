-- ===== src/Service/Login/Entering.antt =====
-- That UserLogin lets a user in whom nothing forbids.
use passport.Base.{
  ℕ, ◌≡◌, inl, inr, refl, sym, ap, subst, true, false, Bool-cases, none, some, [], not, ◌&&◌, ◌||◌,
  ltb, ◌==◌, keep_if, length, ==_iff,
}
use passport.Text.{text_eq}
use passport.Errors.{Error, ok}
use passport.Protos.{User}
use passport.Request.{UserReq, Checks}
use passport.World.{World, gets, attempt, require}
use passport.Live.{
  Returns, IsCalm, Returns-pure, Returns-gets, Returns-true, Returns-false, Returns-attempt,
  Returns-bind, Returns-statement, Returns-query, Returns-require,
}
use passport.Dao.Account.{
  user_query_one, first_user, matches_user, user_update_login_time, update_users, change_users,
}
use passport.Dao.Tenant.{tenant_get_by_id, tenant_by_id}
use passport.Service.User.{user_pre_treat}
use passport.Service.Login.{
  LoggedIn, is_disabled, looked_up, look_up, find_account, load_tenant, enter, is_wrong_password,
  admit, has_no_secret, has_no_name, user_login, tenant_loaded, is_one_row,
}

module _ {P : Type 0} where
  -- One row of the table has the id.
  abbrev pub IsUnique : ℕ → World P → Type 0
  IsUnique uid w = length (keep_if (λ u. u.uid == uid) w.users) ≡ 1

  abbrev Is : ℕ → LoggedIn → World P → Type 0
  Is uid l w = l.user.uid ≡ uid

  pub look_up-Returns :
      (p : UserReq) (w : World P) (u : User)
      → IsCalm w
      → first_user (matches_user p) w.users ≡ some u
      → Returns (look_up p) w (λ r v. (r ≡ (some u, false)) × (v ≡ w))
  unfolding look_up user_query_one looked_up
  look_up-Returns p w u calm e =
      Returns-bind {Q = λ r v. (looked_up r ≡ (some u, false)) × (v ≡ w)}
        (attempt (user_query_one p)) _ w
        (Returns-attempt (user_query_one p) w (
          Returns-query (λ v. first_user (matches_user p) v.users) w calm
            (ap (λ x. (x, false)) e, refl)))
        (λ r v h. Returns-pure (looked_up r) v h)

  load_tenant-Returns :
      (u : User) (w : World P) → IsCalm w → Returns (load_tenant false u) w (Is u.uid)
  unfolding load_tenant tenant_get_by_id tenant_loaded
  load_tenant-Returns u w calm = elim (Bool-cases (ltb 0 u.tenant_id)) [
    | inl e ↦ Returns-true _ _ w e (
        Returns-bind {Q = λ r v. (tenant_loaded u r).user.uid ≡ u.uid}
          (attempt (tenant_get_by_id u.tenant_id)) _ w
          (Returns-attempt (tenant_get_by_id u.tenant_id) w
            (Returns-query (λ v. tenant_by_id u.tenant_id v.tenants) w calm refl))
          (λ r v h. Returns-pure (tenant_loaded u r) v h))
    | inr e ↦ Returns-false _ _ w e (Returns-pure (record { user = u; tenant = none }) w refl)
  ]

  -- A login that is only written down leaves the statements that follow as calm as it was.
  login_time-Returns :
      (uid t : ℕ) (w : World P)
      → IsCalm w
      → IsUnique uid w
      → Returns (attempt (user_update_login_time uid t)) w (λ r v. (is_one_row r ≡ true) × IsCalm v)
  unfolding user_update_login_time update_users is_one_row
  login_time-Returns uid t w calm one = Returns-attempt (user_update_login_time uid t) w (
      Returns-statement (update_users (λ u. u.uid == uid) (λ u. record u { login_time = some t })) w
        calm
        (record {
          value = length (keep_if (λ u. u.uid == uid) w.users);
          state = record w {
            users =
                change_users (λ u. u.uid == uid) (λ u. record u { login_time = some t }) w.users;
          };
          runs = refl;
          holds = ((==_iff _ 1).1 one, calm);
        }))

  enter-Returns :
      (u : User) (w : World P) → IsCalm w → IsUnique u.uid w → Returns (enter false u) w (Is u.uid)
  unfolding enter
  enter-Returns u w calm one =
      Returns-bind {Q = λ now v. v ≡ w} (gets (λ v. v.now)) _ w (Returns-gets (λ v. v.now) w refl)
        (λ now v same.
          Returns-bind {Q = λ r x. (is_one_row r ≡ true) × IsCalm x}
            (attempt (user_update_login_time u.uid now)) _ v
            (login_time-Returns u.uid now v (subst IsCalm (sym same) calm)
              (subst (IsUnique u.uid) (sym same) one))
            (λ rows x h.
              Returns-bind {Q = λ _ y. IsCalm y} (require (is_one_row rows) Error.service) _ x
                (Returns-require (is_one_row rows) Error.service x h.0 h.1)
                (λ _ y still.
                  load_tenant-Returns (record u { login_time = some now; password = [] }) y still)))

  -- What keeps UserLogin from refusing an account that it has found.
  pub record IsWelcome (c : Checks) (p : UserReq) (w : World P) (u : User) : Type 0 where
    pub calm : IsCalm w
    pub unique : IsUnique u.uid w
    pub enabled : is_disabled u.ext ≡ false
    pub right : is_wrong_password c p u ≡ false

  admit-Returns :
      (c : Checks) (p : UserReq) (w : World P) (u : User)
      → IsWelcome c p w u
      → Returns (admit c p (some u, false)) w (Is u.uid)
  unfolding admit
  admit-Returns c p w u h =
      Returns-false _ _ w h.enabled
        (Returns-false _ _ w h.right (enter-Returns (record u { ext = [] }) w h.calm h.unique))

  -- A request without a code, or without a telephone number, is looked up by its names.
  pub find_account-Returns :
      (p : UserReq) (w : World P) (u : User)
      → IsCalm w
      → (not (text_eq p.cellphone []) && not (text_eq p.sms_code [])) ≡ false
      → (not (text_eq p.cellphone []) || not (text_eq p.nickname []) || not (text_eq p.email []))
        ≡ true
      → first_user (matches_user p) w.users ≡ some u
      → Returns (find_account p) w (λ r v. (r ≡ (some u, false)) × (v ≡ w))
  unfolding find_account
  find_account-Returns p w u calm no_code named e =
      Returns-false _ _ w no_code (Returns-true _ _ w named (look_up-Returns p w u calm e))

  pub user_login-Returns :
      (c : Checks) (p : UserReq) (w : World P) (u : User)
      → (has_no_secret p || has_no_name p) ≡ false
      → c.is_valid (user_pre_treat p) ≡ true
      → Returns (find_account (user_pre_treat p)) w (λ r v. (r ≡ (some u, false)) × (v ≡ w))
      → IsWelcome c (user_pre_treat p) w u
      → Returns (user_login c p) w (λ l _. l.user.uid ≡ u.uid)
  unfolding user_login
  user_login-Returns c p w u given valid found welcome = Returns-false _ _ w given (
      Returns-bind {Q = λ _ v. v ≡ w} (require (c.is_valid (user_pre_treat p)) Error.other) _ w
        (Returns-require (c.is_valid (user_pre_treat p)) Error.other w valid refl)
        (λ _ v same.
          Returns-bind (find_account (user_pre_treat p)) (admit c (user_pre_treat p)) v
            (subst
              (λ x.
                Returns (find_account (user_pre_treat p)) x
                  (λ r v. (r ≡ (some u, false)) × (v ≡ w)))
              (sym same) found)
            (λ r x h.
              subst (λ y. Returns (admit c (user_pre_treat p) y) x (λ l _. l.user.uid ≡ u.uid))
                (sym h.0)
                (subst
                  (λ y.
                    Returns (admit c (user_pre_treat p) (some u, false)) y
                      (λ l _. l.user.uid ≡ u.uid))
                  (sym h.1) (admit-Returns c (user_pre_treat p) w u welcome)))))

  -- UserLogin lets in the user with an id.
  abbrev pub LogsIn : Checks → UserReq → World P → ℕ → Type 0
  LogsIn c p w uid = (l : LoggedIn) × ((user_login c p w).0 ≡ ok l) × (l.user.uid ≡ uid)

  pub LogsIn-Returns :
      (c : Checks) (p : UserReq) (w : World P) (uid : ℕ)
      → Returns (user_login c p) w (λ l _. l.user.uid ≡ uid)
      → LogsIn c p w uid
  LogsIn-Returns c p w uid h = (h.value, ap (λ x. x.0) h.runs, h.holds)
