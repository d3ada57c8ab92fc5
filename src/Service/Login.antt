-- ===== src/Service/Login.antt =====
-- service/user.login.service.go: login by password, by a code, and through WeChat.
pub mod Accounts
pub mod Admission
pub mod Unguarded
pub mod Registered
pub mod Entering
use passport.Base.{
  ℕ, ◌-◌, Bool, true, false, Option, none, some, List, [], ◌∷◌, ◌++◌, not, ◌&&◌, ◌||◌, ltb, ◌==◌,
  if◌then◌else◌, length, drop,
}
use passport.Text.{Text, text_eq, codes}
use passport.Errors.{Error, Result, ok, err, panic}
use passport.Protos.{User, Tenant, Value, MapStruct, user_disabled}
use passport.Request.{UserReq, no_user_req, Checks, encry_pwd}
use passport.World.{World, Exec, pure, raise, gets, ◌>>=◌, ◌>>◌, or_error, attempt, require}
use passport.Sms.{check_sms_code}
use passport.Dao.User.{user_query_by_id}
use passport.Dao.Account.{user_insert, user_update_login_time, user_query_one}
use passport.Dao.Tenant.{tenant_get_by_id}
use passport.Service.UserExt.{value_of}
use passport.Service.User.{user_pre_treat}

-- What a login returns: the user, and the tenant that has been loaded.
pub record LoggedIn : Type 0 where
  pub user : User
  pub tenant : Option Tenant

-- `v.(float64)` and then `int8(v) == UserDisabled`, for a number that an int8 holds
unfoldable pub is_disabled_value : Value → Bool
is_disabled_value (Value.float64 negative whole has_rest) = not negative && whole == user_disabled
is_disabled_value _ = false

unfoldable pub is_disabled : MapStruct → Bool
unfolding value_of is_disabled_value
is_disabled ext = is_disabled_value (value_of (codes "disabled") ext)

-- The user that a login by a code has just registered, as the source makes it up.
unfoldable pub registered_user : ℕ → Text → User
registered_user uid cellphone = record {
  uid = uid;
  tenant_id = 0;
  password = [];
  cellphone = cellphone;
  email = [];
  nickname = [];
  wx_openid = [];
  avatar_url = [];
  addr = [];
  gender = 0;
  login_time = none;
  ext = [];
}

-- The fields of the tenant that are sent to the user.
shown_tenant : Option Tenant → Option Tenant
shown_tenant none = none
shown_tenant (some t) = some (record t { configuration = none; update_time = 0 })

-- An error other than ErrSmsNotInit.
unfoldable pub is_refused : Result (Unit {0}) → Bool
is_refused (err Error.sms_not_init) = false
is_refused (err _) = true
is_refused (ok u) = false
is_refused panic = true

is_one_row : Result ℕ → Bool
is_one_row (ok n) = n == 1
is_one_row _ = false

-- The user that a lookup has found, and whether it has failed.
unfoldable pub looked_up : Result (Option User) → Option User × Bool
looked_up (ok found) = (found, false)
looked_up (err e) = (none, true)
looked_up panic = (none, true)

-- After the registration of a user; `failed` is an earlier error that is still to be reported.
unfoldable pub registered : Text → Bool → Result ℕ → Option User × Bool
unfolding registered_user
registered cellphone failed (ok uid) = (some (registered_user uid cellphone), failed)
registered cellphone failed (err e) = (none, true)
registered cellphone failed panic = (none, true)

-- The tenant of a user; without it the user has none. The error of the lookup replaces an earlier
-- one, and is dropped.
tenant_loaded : User → Result (Option Tenant) → LoggedIn
unfolding shown_tenant
tenant_loaded u (ok t) = record { user = u; tenant = shown_tenant t }
tenant_loaded u (err e) = record { user = record u { tenant_id = 0 }; tenant = none }
tenant_loaded u panic = record { user = u; tenant = none }

unfoldable pub is_wrong_password : Checks → UserReq → User → Bool
unfolding encry_pwd
is_wrong_password c p u =
    not (text_eq p.password []) && not (text_eq (encry_pwd c p.password) u.password)

unfoldable pub has_no_secret : UserReq → Bool
has_no_secret p = text_eq p.password [] && text_eq p.sms_code []

unfoldable pub has_no_name : UserReq → Bool
has_no_name p = text_eq p.cellphone [] && text_eq p.nickname [] && text_eq p.email []

-- The nickname of a user registered through WeChat: the given one, or the last bytes of the id.
wx_nickname : UserReq → Text
wx_nickname p =
    if text_eq p.nickname []
    then 231 ∷ 148 ∷ 168 ∷ 230 ∷ 136 ∷ 183 ∷ drop (length p.wx_openid - 8) p.wx_openid
    else p.nickname

wx_registration : Checks → UserReq → UserReq
unfolding wx_nickname encry_pwd
wx_registration c p = record no_user_req {
  wx_openid = p.wx_openid;
  nickname = wx_nickname p;
  password = encry_pwd c p.wx_openid;
  avatar_url = p.avatar_url;
  gender = p.gender;
  ext = p.ext;
}

module _ {P : Type 0} where
  unfoldable pub or_register : UserReq → Option User × Bool → Exec P (Option User × Bool)
  unfolding user_insert registered
  or_register p (some u, failed) = pure (some u, failed)
  or_register p (none, failed) = do
    row ← attempt (user_insert p)
    pure (registered p.cellphone failed row)

  unfoldable pub look_up : UserReq → Exec P (Option User × Bool)
  unfolding user_query_one looked_up
  look_up p = do r ← attempt (user_query_one p); pure (looked_up r)

  -- loginBySmsCode
  unfoldable pub login_by_sms_code : UserReq → Exec P (Option User × Bool)
  unfolding check_sms_code is_refused look_up or_register
  login_by_sms_code p =
      if text_eq p.cellphone [] || text_eq p.sms_code [] then pure (none, true) else do
        checked ← attempt (check_sms_code p.cellphone p.sms_code)
        if is_refused checked then pure (none, true) else do found ← look_up p; or_register p found

  -- Which login UserLogin chooses; those by cellphone, nickname and email are one query.
  unfoldable pub find_account : UserReq → Exec P (Option User × Bool)
  unfolding login_by_sms_code look_up
  find_account p =
      if not (text_eq p.cellphone []) && not (text_eq p.sms_code [])
      then login_by_sms_code p
      else if not (text_eq p.cellphone [])
          || not (text_eq p.nickname [])
          || not (text_eq p.email [])
      then look_up p
      else pure (none, false)

  load_tenant : Bool → User → Exec P LoggedIn
  unfolding tenant_get_by_id tenant_loaded
  load_tenant failed u =
      if ltb 0 u.tenant_id
      then (do r ← attempt (tenant_get_by_id u.tenant_id); pure (tenant_loaded u r))
      else if failed
      then raise Error.service
      else pure (record { user = u; tenant = none })

  -- The time of the login, and what the user is sent.
  unfoldable pub enter : Bool → User → Exec P LoggedIn
  unfolding user_update_login_time is_one_row load_tenant
  enter failed u = do
    now ← gets (λ w. w.now)
    rows ← attempt (user_update_login_time u.uid now)
    require (is_one_row rows) Error.service
    load_tenant failed (record u { login_time = some now; password = [] })

  module _ (c : Checks) where
    -- What UserLogin does with the account.
    unfoldable pub admit : UserReq → Option User × Bool → Exec P LoggedIn
    unfolding is_disabled is_wrong_password enter
    admit p (none, failed) = raise Error.login
    admit p (some u, failed) =
        if is_disabled u.ext
        then raise Error.disable
        else if is_wrong_password c p u
        then raise Error.pwd
        else enter failed (record u { ext = [] })

    -- UserLogin
    unfoldable pub user_login : UserReq → Exec P LoggedIn
    unfolding has_no_secret has_no_name user_pre_treat find_account admit
    user_login p = if has_no_secret p || has_no_name p then raise Error.param else do
      require (c.is_valid (user_pre_treat p)) Error.other
      found ← find_account (user_pre_treat p)
      admit (user_pre_treat p) found

    required_user : Option User → Exec P User
    required_user none = raise Error.service
    required_user (some u) = pure u

    wx_account : UserReq → Option User → Exec P User
    unfolding wx_registration user_insert user_query_by_id required_user
    wx_account p (some u) = pure u
    wx_account p none = do
      uid ← or_error (user_insert (wx_registration c p)) Error.service
      found ← or_error (user_query_by_id uid) Error.service
      required_user found

    -- UserLoginByWeixin
    unfoldable pub user_login_by_weixin : UserReq → Exec P LoggedIn
    unfolding user_pre_treat user_query_one wx_account is_disabled enter
    user_login_by_weixin p = if text_eq p.wx_openid [] then raise Error.param else do
      found ← or_error (user_query_one (user_pre_treat p)) Error.service
      u ← wx_account (user_pre_treat p) found
      if is_disabled u.ext then raise Error.disable else enter false u
