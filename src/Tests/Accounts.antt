-- ===== src/Tests/Accounts.antt =====
-- Codes, registration and login on a small state.
use passport.Base.{
  ℕ, ◌+◌, ◌≡◌, ◌≢◌, refl, true, false, none, some, [], ◌∷◌, ◌&&◌, ltb, arith, ◌==◌, ◌≤◌,
}
use passport.Text.{Text, codes, text_eq, trim_space, to_lower, is_space}
use passport.Errors.{Error, ok, err}
use passport.Protos.{User}
use passport.Request.{UserReq, no_user_req, Checks, encry_pwd}
use passport.World.{World}
use passport.Hoare.{Outcome}
use passport.Cache.{lookup, get, ttl}
use passport.Sms.{
  SmsDriver, login, get_back_pwd, alive_or_default, check_sms_code, send_sms, send_get_back_pwd_sms,
  send_by, deliver_unless_left, deliver,
}
use passport.Sms.Codes.{verdict, check_sms_code-send_sms, send_sms-send_sms}
use passport.Dao.User.{user_by_id}
use passport.Dao.Account.{first_user, matches_user, matches_text}
use passport.Service.User.{
  user_pre_treat, add_user_service, update_user_service, update_user_pwd, update_user_pwd_by_sms,
}
use passport.Service.User.Registration.{registration, HasAdded, add_user_service-Outcome}
use passport.Service.User.Passwords.{
  HasChanged, update_user_pwd-Outcome, update_user_pwd_by_sms-Outcome,
}
use passport.Service.User.Renaming.{nickname-update_user_service}
use passport.Service.Login.{is_disabled}
use passport.Service.Login.Entering.{LogsIn}
use passport.Service.Login.Registered.{by_cellphone, user_login-add_user_service}
use passport.Service.Login.Unguarded.{user_login_without_secret, user_login_without_driver}
use passport.Tests.Services.{small_world}

-- It counts the messages, and fails for new users.
abbrev counting_driver : SmsDriver ℕ
counting_driver = record {
  send_user_add_sms = λ phone alive n. ((codes "123456", true), n + 1);
  send_user_login_sms = λ phone alive n. ((codes "123456", false), n + 1);
  send_get_back_pwd_sms = λ phone alive n. ((codes "123456", false), n + 1);
  send_wx_bind_sms = λ phone alive n. ((codes "123456", false), n + 1);
}

abbrev pub phone : Text
phone = codes "13800000000"

send_example : (send_sms counting_driver get_back_pwd phone 30 small_world).0 ≡ ok (codes "123456")
unfolding send_sms send_get_back_pwd_sms send_by deliver_unless_left deliver ttl lookup
send_example = refl

check_sms_code-send_sms_example :
    (check_sms_code phone
      (codes "123456")
      (record (send_sms counting_driver get_back_pwd phone 30 small_world).1 { now = 129 })).0
    ≡ verdict (text_eq (codes "123456") (codes "123456") && ltb 129 (100 + alive_or_default 30))
check_sms_code-send_sms_example =
    check_sms_code-send_sms counting_driver get_back_pwd phone (codes "123456") (codes "123456") 30
      129 small_world send_example

still_kept : 130 ≤ 100 + alive_or_default 30
unfolding alive_or_default
still_kept = omega arith

no_code : lookup phone small_world.codes ≡ none
unfolding lookup
no_code = refl

send_sms-send_sms_example :
    send_sms counting_driver login phone 30
      (record (send_sms counting_driver get_back_pwd phone 30 small_world).1 { now = 130 })
    ≡ (
      err Error.sms_exist,
      record (send_sms counting_driver get_back_pwd phone 30 small_world).1 { now = 130 },
    )
send_sms-send_sms_example =
    send_sms-send_sms counting_driver get_back_pwd login phone (codes "123456") 30 30 130
      small_world send_example still_kept

-- The identity stands for the hash.
abbrev pub no_checks : Checks
no_checks = record { is_valid = λ p. true; sha256 = λ s. s; salt = codes "salt" }

abbrev pub ann : User
ann = record {
  uid = 10001;
  tenant_id = 2;
  password = codes "saltsecret7salt";
  cellphone = phone;
  email = [];
  nickname = codes "ann";
  wx_openid = [];
  avatar_url = [];
  addr = [];
  gender = 0;
  login_time = none;
  ext = [];
}

abbrev pub with_ann : World ℕ
with_ann = record small_world { users = ann ∷ [] }

-- A nickname and some code.
abbrev by_nickname : UserReq
by_nickname = record no_user_req { nickname = codes "ann"; sms_code = codes "0" }

abbrev by_code : UserReq
by_code = record no_user_req { cellphone = phone; sms_code = codes "0" }

some_code : codes "0" ≢ []
unfolding codes
some_code e = cc e

some_name : codes "ann" ≢ []
unfolding codes
some_name e = cc e

some_phone : phone ≢ []
unfolding codes
some_phone e = cc e

some_password : codes "secret7" ≢ []
unfolding codes
some_password e = cc e

treated_phone : (user_pre_treat by_code).cellphone ≢ []
unfolding user_pre_treat trim_space to_lower codes is_space
treated_phone e = cc e

treated_code : (user_pre_treat by_code).sms_code ≢ []
unfolding user_pre_treat trim_space to_lower codes is_space
treated_code e = cc e

treated_name : (user_pre_treat by_nickname).nickname ≢ []
unfolding user_pre_treat trim_space to_lower codes is_space
treated_name e = cc e

treated_cellphone : (user_pre_treat by_nickname).cellphone ≡ []
unfolding user_pre_treat trim_space to_lower
treated_cellphone = refl

ann-by_nickname : first_user (matches_user (user_pre_treat by_nickname)) with_ann.users ≡ some ann
unfolding user_pre_treat trim_space to_lower first_user matches_user matches_text text_eq codes
    is_space
ann-by_nickname = refl

ann-by_cellphone : first_user (matches_user (user_pre_treat by_code)) with_ann.users ≡ some ann
unfolding user_pre_treat trim_space to_lower first_user matches_user matches_text text_eq codes
    is_space
ann-by_cellphone = refl

pub ann_enabled : is_disabled ann.ext ≡ false
unfolding is_disabled
ann_enabled = refl

user_login_without_secret_example : LogsIn no_checks by_nickname with_ann 10001
user_login_without_secret_example =
    user_login_without_secret no_checks by_nickname with_ann ann refl some_code some_name
      treated_cellphone treated_name refl ann-by_nickname ann_enabled refl refl

user_login_without_driver_example :
    LogsIn no_checks by_code (record with_ann { has_sms = false }) 10001
user_login_without_driver_example =
    user_login_without_driver no_checks by_code (record with_ann { has_sms = false }) ann refl refl
      some_code some_phone treated_phone treated_code refl ann-by_cellphone ann_enabled refl refl

-- A registration with the telephone number and a password.
abbrev newcomer : UserReq
newcomer = record no_user_req { cellphone = phone; password = codes "secret7" }

add_user_service-Outcome_example :
    Outcome
      (HasAdded (registration no_checks newcomer) small_world)
      (λ v. v.users ≡ small_world.users)
      (add_user_service no_checks newcomer small_world).0
      (add_user_service no_checks newcomer small_world).1
add_user_service-Outcome_example = add_user_service-Outcome no_checks newcomer small_world

newcomer_added : (add_user_service no_checks newcomer small_world).0 ≡ ok 10002
unfolding add_user_service user_pre_treat trim_space to_lower codes is_space text_eq
newcomer_added = refl

treated_newcomer : (user_pre_treat newcomer).cellphone ≢ []
unfolding user_pre_treat trim_space to_lower codes is_space
treated_newcomer e = cc e

user_login-add_user_service_example :
    LogsIn no_checks
      (by_cellphone phone (codes "secret7"))
      (record small_world { users = (add_user_service no_checks newcomer small_world).1.users })
      10002
user_login-add_user_service_example =
    user_login-add_user_service no_checks newcomer 10002 small_world
      (record small_world { users = (add_user_service no_checks newcomer small_world).1.users })
      newcomer_added refl refl refl treated_newcomer some_password ann_enabled refl

update_user_pwd-Outcome_example :
    Outcome
      (λ _.
        HasChanged
          (λ u. u.uid == 10001 && text_eq u.password (encry_pwd no_checks (codes "secret7")))
          (λ u. record u { password = encry_pwd no_checks (codes "secret8") })
          with_ann)
      (λ _. Unit)
      (update_user_pwd no_checks 10001 (codes "secret7") (codes "secret8") with_ann).0
      (update_user_pwd no_checks 10001 (codes "secret7") (codes "secret8") with_ann).1
update_user_pwd-Outcome_example =
    update_user_pwd-Outcome no_checks 10001 (codes "secret7") (codes "secret8") with_ann

update_user_pwd_by_sms-Outcome_example :
    Outcome
      (λ _ v.
        HasChanged
          (λ u. text_eq u.cellphone phone)
          (λ u. record u { password = encry_pwd no_checks (codes "secret8") })
          with_ann
          v
        × ((get 100 phone with_ann.codes).0 ≡ some (codes "123456")))
      (λ _. Unit)
      (update_user_pwd_by_sms no_checks phone (codes "123456") (codes "secret8") with_ann).0
      (update_user_pwd_by_sms no_checks phone (codes "123456") (codes "secret8") with_ann).1
update_user_pwd_by_sms-Outcome_example =
    update_user_pwd_by_sms-Outcome no_checks phone (codes "123456") (codes "secret8") with_ann

-- A change of the telephone number alone.
abbrev new_phone : UserReq
new_phone = record no_user_req { uid = 10001; cellphone = codes "13900000000" }

phone_changed : (update_user_service no_checks new_phone with_ann).0 ≡ ok 1
unfolding update_user_service user_pre_treat trim_space to_lower codes is_space text_eq
phone_changed = refl

treated_new_phone : (user_pre_treat new_phone).cellphone ≢ []
unfolding user_pre_treat trim_space to_lower codes is_space
treated_new_phone e = cc e

treated_no_name : (user_pre_treat new_phone).nickname ≡ []
unfolding user_pre_treat trim_space
treated_no_name = refl

abbrev renamed : User
renamed = record ann { cellphone = codes "13900000000"; nickname = codes "13900000000" }

renamed_found :
    user_by_id 10001 (update_user_service no_checks new_phone with_ann).1.users ≡ some renamed
unfolding update_user_service user_pre_treat trim_space to_lower codes is_space user_by_id text_eq
renamed_found = refl

nickname-update_user_service_example : codes "13900000000" ≡ (user_pre_treat new_phone).cellphone
nickname-update_user_service_example =
    nickname-update_user_service no_checks new_phone 1 with_ann renamed phone_changed
      treated_no_name treated_new_phone renamed_found
