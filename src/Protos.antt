-- ===== src/Protos.antt =====
-- The records of protos/models.go, with the fields that the modelled code reads or writes.
-- Of the timestamps, only the one that guards an update and the time of the last login are kept.
use passport.Base.{ℕ, Bool, Option, List, [], ◌∷◌, leb, ◌||◌, ◌==◌, if◌then◌else◌}
use passport.Text.{Text, text_eq}

-- A dynamic Go value (interface{}), as the code takes it apart.
-- A float64 is read as whether it is negative, its whole part, and whether a fraction is left.
mutual
  pub data Value : Type 0 where
    nil : Value
    bool : Bool → Value
    uint64 : ℕ → Value
    -- an `int` or `int64`: whether it is negative, and its magnitude
    int64 : Bool → ℕ → Value
    float64 : Bool → ℕ → Bool → Value
    text : Text → Value
    uint64s : List ℕ → Value
    values : Values → Value

  pub data Values : Type 0 where
    none : Values
    more : Value → Values → Values

abbrev pub MapStruct : Type 0
MapStruct = List (Text × Value)

-- `m[k]`; a missing key reads as nil
unfoldable pub value_of : Text → MapStruct → Value
unfolding text_eq
value_of k [] = Value.nil
value_of k ((j, v) ∷ m) = if text_eq j k then v else value_of k m

pub record RoleStruct : Type 0 where
  pub role_title : Text
  pub role_value : Text

pub record TenantConfiguration : Type 0 where
  pub roles : List RoleStruct
  pub more : MapStruct

pub record Tenant : Type 0 where
  pub id : ℕ
  pub uid : ℕ
  pub tenant_name : Text
  pub tenant_type : Text
  pub info : MapStruct
  pub update_time : ℕ
  -- nil if the column is NULL
  pub configuration : Option TenantConfiguration

pub record Organization : Type 0 where
  pub id : ℕ
  pub tenant_id : ℕ
  pub name : Text

-- A row of org_members.
pub record Member : Type 0 where
  pub org_id : ℕ
  pub uid : ℕ
  pub tenant_id : ℕ

pub record Department : Type 0 where
  pub id : ℕ
  pub parent_id : ℕ
  pub user_id : ℕ
  pub tenant_id : ℕ
  pub org_id : ℕ
  pub name : Text
  pub config : MapStruct

-- A NULL column is an empty text.
pub record User : Type 0 where
  pub uid : ℕ
  pub tenant_id : ℕ
  pub password : Text
  pub cellphone : Text
  pub email : Text
  pub nickname : Text
  pub wx_openid : Text
  pub avatar_url : Text
  pub addr : Text
  pub gender : ℕ
  pub login_time : Option ℕ
  pub ext : MapStruct

pub record PermissionStruct : Type 0 where
  pub id : ℕ
  pub tenant_id : ℕ
  pub domain : Text
  pub title : Text
  pub value : Text

abbrev pub real_user_min_uid : ℕ
real_user_min_uid = 10000

-- IsRealUserUID
unfoldable pub is_real_user_uid : ℕ → Bool
is_real_user_uid uid = leb real_user_min_uid uid

-- UserDisableStatus, an int8: 1 is enabled and 2 is disabled.
abbrev pub user_enabled : ℕ
user_enabled = 1

abbrev pub user_disabled : ℕ
user_disabled = 2

-- UserDisableStatus.IsValid
unfoldable pub is_valid_status : ℕ → Bool
is_valid_status s = s == user_enabled || s == user_disabled
