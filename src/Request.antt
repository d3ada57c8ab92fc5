-- ===== src/Request.antt =====
-- protos/request.go: the requests that the services take, with what a caller's validation and the
-- hash of a password are left to.
use passport.Base.{Option, ℕ, [], ◌++◌, Bool, if◌then◌else◌}
use passport.Text.{Text, text_eq}
use passport.Protos.{MapStruct, TenantConfiguration}

-- Roles and departments of a request are arguments of the services that read them.
pub record UserReq : Type 0 where
  pub uid : ℕ
  pub tenant_id : ℕ
  pub cellphone : Text
  pub email : Text
  pub nickname : Text
  pub password : Text
  pub avatar_url : Text
  pub addr : Text
  pub gender : ℕ
  pub sms_code : Text
  pub wx_openid : Text
  pub ext : MapStruct

-- UserReq{}
abbrev pub no_user_req : UserReq
no_user_req = record {
  uid = 0;
  tenant_id = 0;
  cellphone = [];
  email = [];
  nickname = [];
  password = [];
  avatar_url = [];
  addr = [];
  gender = 0;
  sms_code = [];
  wx_openid = [];
  ext = [];
}

-- The libraries for accounts: the test of common.Validate on the tags of UserReq, and SHA-256 as a
-- hexadecimal text.
pub record Checks : Type 0 where
  pub is_valid : UserReq → Bool
  pub sha256 : Text → Text
  -- SYS_PWD
  pub salt : Text

-- EncryPWD
unfoldable pub encry_pwd : Checks → Text → Text
encry_pwd c pwd = if text_eq pwd [] then [] else c.sha256 (c.salt ++ (pwd ++ c.salt))

pub record NewTenantReq : Type 0 where
  pub parent_id : ℕ
  pub tenant_name : Text
  pub tenant_type : Text
  pub cellphone : Text
  pub nickname : Text
  pub password : Text
  pub info : MapStruct
  -- nil if the request has none
  pub configuration : Option TenantConfiguration

pub record UpdateTenantReq : Type 0 where
  pub tenant_id : ℕ
  pub tenant_name : Text
  pub tenant_type : Text
  pub info : Option MapStruct

pub record UpdateTenantConfigReq : Type 0 where
  pub tenant_id : ℕ
  pub last_update_time : Text
  pub configuration : Option TenantConfiguration
