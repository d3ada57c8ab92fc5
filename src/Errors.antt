-- ===== src/Errors.antt =====
-- The error values of common/errors.go and sms/sms.go with those of the layers below, and what a Go
-- function that returns a value and an error yields.
pub data Error : Type 0 where
  null param service pg_dup_key session no_login no_auth : Error
  login pwd disable user_name pwd_nil phone_dup email_dup nick_dup wx_openid_dup : Error
  modify user_not_found : Error
  tenant_not_found tenant_name_null tenant_type_null tenant_limit tenant_add : Error
  tenant_name_dup tenant_circular_ref tenant_root tenant_same : Error
  org_not_found org_required org_name_dup : Error
  -- dao.CircularReferenceError, and an error made by fmt.Errorf
  circular_reference other : Error
  -- sms/sms.go
  sms_driver sms_not_init sms_exist sms_check : Error
  -- an error of the database driver or the enforcer, and a violated unique constraint
  db duplicate : Error

pub data Result {ℓ} (A : Type ℓ) : Type ℓ where
  ok : A → Result A
  err : Error → Result A
  -- a run-time panic
  panic : Result A
