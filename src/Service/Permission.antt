-- ===== src/Service/Permission.antt =====
-- service/permission.service.go
use passport.Base.{ℕ, List, ◌==◌, if◌then◌else◌}
use passport.Text.{Text}
use passport.Errors.{Error}
use passport.Protos.{PermissionStruct}
use passport.World.{Exec, pure, raise, ◌>>=◌, or_error}
use passport.Dao.Permission.{permission_create, permission_delete, permission_list}

module _ {P : Type 0} where
  -- PermissionCreate
  unfoldable pub permission_create_service : PermissionStruct → Exec P ℕ
  unfolding permission_create
  permission_create_service model = permission_create model

  -- PermissionDelete
  unfoldable pub permission_delete_service : ℕ → ℕ → Exec P (Unit {0})
  unfolding permission_delete
  permission_delete_service id tenant_id =
      if id == 0
      then raise Error.param
      else do row ← or_error (permission_delete id tenant_id) Error.service; pure tt

  -- PermissionList
  unfoldable pub permission_list_service : ℕ → Text → Exec P (List PermissionStruct)
  unfolding permission_list
  permission_list_service tenant_id domain =
      or_error (permission_list tenant_id domain) Error.service
