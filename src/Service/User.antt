-- ===== src/Service/User.antt =====
-- service/user.service.go and service/authPWD.service.go: registration and changes of accounts.
pub mod Renaming
pub mod Passwords
pub mod Registration
use passport.Base.{
  ℕ, Bool, true, false, Option, none, some, List, [], ◌∷◌, not, ◌&&◌, ◌||◌, ltb, ◌==◌,
  if◌then◌else◌,
}
use passport.Text.{Text, text_eq, codes, trim_space, to_lower, trim_prefix}
use passport.Errors.{Error, Result, ok, err, panic}
use passport.Protos.{User}
use passport.Request.{UserReq, no_user_req, Checks, encry_pwd}
use passport.World.{Exec, pure, raise, ◌>>=◌, ◌>>◌, attempt, require}
use passport.Sms.{check_sms_code}
use passport.Dao.User.{user_query_by_id}
use passport.Dao.Account.{
  user_insert, user_update, user_update_pwd, user_update_pwd_by_cellphone,
  user_update_wx_open_id_by_cellphone, set_user_pwd, user_query, user_query_one,
}

-- userPreTreat without its validation
unfoldable pub user_pre_treat : UserReq → UserReq
unfolding trim_space to_lower trim_prefix
user_pre_treat p = record p {
  cellphone = trim_space (to_lower p.cellphone);
  email = trim_space (to_lower p.email);
  nickname = trim_space p.nickname;
  avatar_url = trim_prefix (trim_prefix (trim_space p.avatar_url) (codes "./")) (codes "/");
  sms_code = trim_space p.sms_code;
}

-- `if p.Nickname == "" { p.Nickname = s }`
unfoldable pub or_nickname : Text → UserReq → UserReq
or_nickname s p = if text_eq p.nickname [] then record p { nickname = s } else p

-- Whether a query has found a row of a user; an error counts as none.
unfoldable pub has_uid : Result (List User) → Bool
has_uid (ok []) = false
has_uid (ok (u ∷ us)) = ltb 0 u.uid
has_uid (err e) = false
has_uid panic = false

-- What AuthPWDService makes of the rows.
is_password : Text → List User → Bool
is_password hash [] = false
is_password hash (u ∷ []) = text_eq u.password hash
is_password hash (u ∷ v ∷ us) = false

-- `pgErr.Code == "23505"`
unfoldable pub is_duplicate_key : Error → Bool
is_duplicate_key Error.duplicate = true
is_duplicate_key _ = false

-- The nickname that userCheckDuplicates gives a request without one.
unfoldable pub with_nickname : UserReq → UserReq
unfolding or_nickname
with_nickname p = or_nickname p.email (or_nickname p.cellphone p)

module _ {P : Type 0} where
  -- Rows that have been changed, or ErrModify.
  unfoldable pub rows_or_modify : Result ℕ → Exec P ℕ
  rows_or_modify (ok n) = if ltb n 1 then raise Error.modify else pure n
  rows_or_modify (err e) = raise Error.modify
  rows_or_modify panic = λ w. (panic, w)

  duplicate : UserReq → ℕ → Exec P Bool
  unfolding has_uid user_query
  duplicate p page_size = do rows ← attempt (user_query p 1 page_size); pure (has_uid rows)

  -- duplicatePhone
  unfoldable pub duplicate_phone : Text → Exec P Bool
  unfolding duplicate
  duplicate_phone phone = duplicate (record no_user_req { cellphone = phone }) 1

  -- duplicateEmail
  unfoldable pub duplicate_email : Text → Exec P Bool
  unfolding duplicate
  duplicate_email email = duplicate (record no_user_req { email = email }) 1

  -- duplicateNickname
  unfoldable pub duplicate_nickname : Text → Exec P Bool
  unfolding duplicate
  duplicate_nickname nickname = duplicate (record no_user_req { nickname = nickname }) 100

  -- duplicateWxOpenid
  unfoldable pub duplicate_wx_openid : Text → Exec P Bool
  unfolding duplicate
  duplicate_wx_openid openid = duplicate (record no_user_req { wx_openid = openid }) 100

  -- A check of one column, unless the request leaves it empty.
  unfoldable pub refuse_duplicate : Text → (Text → Exec P Bool) → Error → Exec P (Unit {0})
  refuse_duplicate s is_duplicate e =
      if text_eq s [] then pure tt else do has ← is_duplicate s; require (not has) e

  -- userCheckDuplicates, and the same steps in AddUserService: the request is left with a nickname
  unfoldable pub user_check_duplicates : UserReq → Exec P UserReq
  unfolding refuse_duplicate duplicate_phone duplicate_email duplicate_nickname duplicate_wx_openid
      with_nickname
  user_check_duplicates p = do
    refuse_duplicate p.cellphone duplicate_phone Error.phone_dup
    refuse_duplicate p.email duplicate_email Error.email_dup
    refuse_duplicate (with_nickname p).nickname duplicate_nickname Error.nick_dup
    refuse_duplicate p.wx_openid duplicate_wx_openid Error.wx_openid_dup
    pure (with_nickname p)

  -- What AddUserService makes of the INSERT.
  unfoldable pub user_inserted : Result ℕ → Exec P ℕ
  unfolding is_duplicate_key
  user_inserted (ok uid) = pure uid
  user_inserted (err e) = raise (if is_duplicate_key e then Error.pg_dup_key else Error.service)
  user_inserted panic = λ w. (panic, w)

  unfoldable pub user_info_of : Option User → Exec P User
  user_info_of none = raise Error.user_not_found
  user_info_of (some u) = pure (record u { password = [] })

  -- GetUserInfo
  unfoldable pub get_user_info : ℕ → Exec P User
  unfolding user_query_by_id user_info_of
  get_user_info uid =
      if uid == 0 then raise Error.param else do found ← user_query_by_id uid; user_info_of found

  module _ (c : Checks) where
    -- AddUserService
    unfoldable pub add_user_service : UserReq → Exec P ℕ
    unfolding user_pre_treat user_check_duplicates encry_pwd user_insert user_inserted
    add_user_service p =
        if text_eq p.cellphone [] && text_eq p.email [] && text_eq p.nickname []
        then raise Error.user_name
        else if text_eq p.password []
        then raise Error.pwd_nil
        else do
          require (c.is_valid (user_pre_treat p)) Error.param
          q ← user_check_duplicates (user_pre_treat p)
          row ← attempt (user_insert (record q { password = encry_pwd c q.password }))
          user_inserted row

    -- UpdateUserService. Its second validation is of the same request.
    unfoldable pub update_user_service : UserReq → Exec P ℕ
    unfolding user_pre_treat user_check_duplicates user_update
    update_user_service p = if p.uid == 0 then raise Error.other else do
      require (c.is_valid (user_pre_treat p)) Error.other
      q ← user_check_duplicates (user_pre_treat p)
      user_update q

    -- UpdateUserPWD
    unfoldable pub update_user_pwd : ℕ → Text → Text → Exec P ℕ
    unfolding encry_pwd user_update_pwd rows_or_modify
    update_user_pwd uid old_pwd new_pwd =
        if uid == 0
        then raise Error.session
        else if text_eq old_pwd [] || text_eq new_pwd []
        then raise Error.param
        else do
          rows ← attempt (user_update_pwd uid (encry_pwd c old_pwd) (encry_pwd c new_pwd))
          rows_or_modify rows

    -- UpdateUserPWDBySms
    unfoldable pub update_user_pwd_by_sms : Text → Text → Text → Exec P ℕ
    unfolding check_sms_code encry_pwd user_update_pwd_by_cellphone rows_or_modify
    update_user_pwd_by_sms cellphone sms_code new_pwd =
        if text_eq cellphone [] || text_eq sms_code [] || text_eq new_pwd []
        then raise Error.param
        else do
          check_sms_code cellphone sms_code
          rows ← attempt (user_update_pwd_by_cellphone cellphone (encry_pwd c new_pwd))
          rows_or_modify rows

    -- SetUserPWD
    unfoldable pub set_user_pwd_service : ℕ → ℕ → Text → Exec P ℕ
    unfolding encry_pwd set_user_pwd rows_or_modify
    set_user_pwd_service uid tenant_id pwd =
        if uid == 0
        then raise Error.param
        else if text_eq pwd []
        then raise Error.pwd
        else do rows ← attempt (set_user_pwd uid tenant_id (encry_pwd c pwd)); rows_or_modify rows

    -- AuthPWDService
    unfoldable pub auth_pwd_service : ℕ → Text → Exec P Bool
    unfolding encry_pwd user_query is_password
    auth_pwd_service uid pwd = if uid == 0 || text_eq pwd [] then raise Error.other else do
      rows ← user_query (record no_user_req { uid = uid }) 1 1
      pure (is_password (encry_pwd c pwd) rows)

  -- UpdateUserWxOpenIdByCellphone
  unfoldable pub update_user_wx_open_id_by_cellphone : Text → Text → Text → Exec P ℕ
  unfolding check_sms_code user_update_wx_open_id_by_cellphone rows_or_modify
  update_user_wx_open_id_by_cellphone cellphone wx_openid sms_code =
      if text_eq cellphone [] || text_eq wx_openid [] then raise Error.param else do
        check_sms_code cellphone sms_code
        rows ← attempt (user_update_wx_open_id_by_cellphone cellphone wx_openid)
        rows_or_modify rows
