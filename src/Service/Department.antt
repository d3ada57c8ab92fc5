-- ===== src/Service/Department.antt =====
-- service/department.service.go: the departments of a tenant. The cache of departments that it fills
-- is never read.
pub mod Rows
pub mod Tenants
use passport.Base.{ℕ, Bool, List, [], ◌∷◌, ◌++◌, ◌&&◌, ◌||◌, ltb, ◌==◌, if◌then◌else◌}
use passport.Text.{Text, text_eq, codes}
use passport.Text.Decimal.{decimal}
use passport.Errors.{Error, Result, ok, err, panic}
use passport.Protos.{Department, Value}
use passport.Cache.{set, delete}
use passport.World.{Exec, pure, raise, ◌>>=◌, ◌>>◌, or_error, attempt}
use passport.Dao.Department.{
  department_find, department_find_page, department_create, department_delete, department_update,
  department_update_config,
}
use passport.Service.User.{is_duplicate_key}
use passport.Service.UserExt.{is_nil, ext_as_json, drop_key, set_key}

department_key : ℕ → ℕ → Text
department_key tenant_id id = decimal tenant_id ++ (codes "/" ++ decimal id)

-- The new configuration of a department: a nil value deletes its key.
configured : Text → Value → Department → Department
unfolding is_nil drop_key set_key ext_as_json
configured k v d = record d {
  config = ext_as_json (if is_nil v then drop_key k d.config else set_key k v d.config);
}

module _ {P : Type 0} where
  -- `deparmentCache.Delete`
  drop_department : ℕ → ℕ → Exec P (Unit {0})
  unfolding department_key
  drop_department tenant_id id w = (
    ok tt,
    record w { department_cache = delete (department_key tenant_id id) w.department_cache },
  )

  keep_department : ℕ → ℕ → List Department → Exec P (Unit {0})
  unfolding department_key
  keep_department tenant_id id [] w = (ok tt, w)
  keep_department tenant_id id (d ∷ []) w = (
    ok tt,
    record w {
      department_cache = set w.now (department_key tenant_id id) d 600 w.department_cache;
    },
  )
  keep_department tenant_id id (d ∷ e ∷ ds) w = (ok tt, w)

  -- `defer func() { deparmentCache.Delete(…) }()`
  then_drop : ℕ → ℕ → Exec P (Unit {0}) → Exec P (Unit {0})
  unfolding drop_department
  then_drop tenant_id id m w =
      let (r, w') = m w in let (_, w2) = drop_department tenant_id id w' in (r, w2)

  department_created : Result ℕ → Exec P ℕ
  unfolding is_duplicate_key
  department_created (ok id) = pure id
  department_created (err e) =
      raise (if is_duplicate_key e then Error.pg_dup_key else Error.service)
  department_created panic = λ w. (panic, w)

  -- DepartmentCreate
  unfoldable pub department_create_service : Department → Exec P ℕ
  unfolding department_create department_created
  department_create_service m =
      if m.tenant_id == 0 || m.org_id == 0
      then raise Error.param
      else do result ← attempt (department_create m); department_created result

  -- DepartmentDelete
  unfoldable pub department_delete_service : ℕ → ℕ → Exec P (Unit {0})
  unfolding department_delete then_drop
  department_delete_service id tenant_id =
      then_drop tenant_id id (or_error (department_delete id tenant_id) Error.service)

  -- DepartmentFind
  unfoldable pub department_search : ℕ → ℕ → ℕ → ℕ → ℕ → Exec P (List Department)
  unfolding department_find_page keep_department
  department_search id tenant_id org_id page page_size =
      if tenant_id == 0 then raise Error.param else do
        rr ← or_error (department_find_page id tenant_id org_id page page_size) Error.service
        if ltb 0 id then keep_department tenant_id id rr else pure tt
        pure rr

  -- DepartmentUpdate
  unfoldable pub department_update_service : Department → Exec P (Unit {0})
  unfolding department_update then_drop
  department_update_service model =
      if model.id == 0 || (model.tenant_id == 0 || model.user_id == 0)
      then raise Error.param
      else then_drop model.tenant_id model.id (or_error (department_update model) Error.service)

  configure_found : ℕ → ℕ → Text → Value → List Department → Exec P (Unit {0})
  unfolding department_update_config configured
  configure_found id tenant_id k v [] = raise Error.null
  configure_found id tenant_id k v (d ∷ []) =
      if d.tenant_id == tenant_id && d.id == id
      then or_error (department_update_config (configured k v d)) Error.service
      else raise Error.no_auth
  configure_found id tenant_id k v (d ∷ e ∷ ds) = raise Error.null

  find_and_configure : ℕ → ℕ → Text → Value → Exec P (Unit {0})
  unfolding department_find configure_found
  find_and_configure id tenant_id k v = do
    rr ← or_error (department_find id tenant_id 0) Error.service
    configure_found id tenant_id k v rr

  -- DepartmentUpdateConfig, which drops the cache entry of the user's id
  unfoldable pub department_update_config_service : ℕ → ℕ → ℕ → Text → Value → Exec P (Unit {0})
  unfolding find_and_configure then_drop
  department_update_config_service id curr_uid curr_tenant_id k v =
      if curr_uid == 0 || (id == 0 || curr_tenant_id == 0)
      then raise Error.param
      else if text_eq k []
      then raise Error.param
      else then_drop curr_tenant_id curr_uid (find_and_configure id curr_tenant_id k v)
