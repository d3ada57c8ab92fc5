-- ===== src/Service/TenantUser.antt =====
-- service/tenant.user.service.go: the users of a tenant.
pub mod Leaving
use passport.Base.{
  ℕ, Bool, true, false, Option, none, some, List, [], ◌∷◌, ◌++◌, ◌&&◌, ◌||◌, not, ltb, ◌==◌,
  if◌then◌else◌, keep_if, exists,
}
use passport.Text.{Text, text_eq, codes}
use passport.Errors.{Error, Result, ok, err, panic}
use passport.Protos.{User, Organization, Department, Value, is_valid_status}
use passport.World.{World, Exec, pure, raise, ◌>>=◌, ◌>>◌, or_error, require, attempt}
use passport.Access.{Enforcer, add_role_for_user}
use passport.Dao.User.{user_query_by_id, user_update_tenant_id, user_delete, user_update_ext}
use passport.Dao.Department.{department_find}
use passport.Dao.Org.{org_list_by_user, org_member_count_by_user}
use passport.Service.UserExt.{parse_uint64_slice, is_nil, ext_as_json, drop_key, set_key, value_of}
use passport.Service.Org.{require_org, org_add_member, org_remove_member}

is_of_tenant : ℕ → Option User → Bool
is_of_tenant tenant_id none = false
is_of_tenant tenant_id (some u) = u.tenant_id == tenant_id

is_zero_length : List ℕ → Bool
is_zero_length [] = true
is_zero_length (n ∷ ns) = false

has_department : List Department → ℕ → Bool
has_department deps id = exists (λ d. d.id == id) deps

-- `id == 0`, or the id of one of the departments
unfoldable pub is_zero_or_department : List Department → ℕ → Bool
unfolding has_department
is_zero_or_department deps id = id == 0 || has_department deps id

all_departments : List Department → List ℕ → Bool
unfolding is_zero_or_department
all_departments deps [] = true
all_departments deps (id ∷ ids) = is_zero_or_department deps id && all_departments deps ids

-- The departments that TenantUserSetDepartment stores for a user: those of other organizations,
-- and the given ones.
unfoldable pub kept_departments : List Department → List ℕ → User → List ℕ
unfolding has_department parse_uint64_slice value_of
kept_departments deps ids u =
    keep_if (λ id. not (has_department deps id))
      (parse_uint64_slice (value_of (codes "deps") u.ext))
    ++ keep_if (λ id. ltb 0 id) ids

ids_value : List ℕ → Value
unfolding is_zero_length
ids_value ns = if is_zero_length ns then Value.nil else Value.uint64s ns

module _ {P : Type 0} where
  -- The user that has been found, of whatever tenant; there is no test for nil, so a user that does
  -- not exist makes the code read a field of a nil pointer.
  update_ext_of : ℕ → ℕ → Text → Value → Option User → Exec P (Unit {0})
  unfolding is_nil drop_key set_key ext_as_json user_update_ext
  update_ext_of uid tenant_id k v none = λ w. (panic, w)
  update_ext_of uid tenant_id k v (some u) = do
    require (u.tenant_id == tenant_id) Error.no_auth
    or_error
        (user_update_ext uid
          (ext_as_json (if is_nil v then drop_key k u.ext else set_key k v u.ext)))
        Error.service
    pure tt

  -- TenantUpdateUserExt
  unfoldable pub tenant_update_user_ext : ℕ → ℕ → Text → Value → Exec P (Unit {0})
  unfolding user_query_by_id update_ext_of
  tenant_update_user_ext uid tenant_id k v =
      if uid == 0 || text_eq k [] then raise Error.param else do
        found ← or_error (user_query_by_id uid) Error.null
        update_ext_of uid tenant_id k v found

  -- TenantUserDisabledService
  unfoldable pub tenant_user_disabled_service : ℕ → ℕ → ℕ → Exec P (Unit {0})
  unfolding tenant_update_user_ext is_valid_status
  tenant_user_disabled_service uid tenant_id disabled =
      if uid == 0 || not (is_valid_status disabled)
      then raise Error.param
      else tenant_update_user_ext uid tenant_id (codes "disabled") (Value.int64 false disabled)

  -- DepartmentFind of service/department.service.go; the cache that it fills is never read
  unfoldable pub department_find_service : ℕ → ℕ → ℕ → Exec P (List Department)
  unfolding department_find
  department_find_service id tenant_id org_id =
      if tenant_id == 0
      then raise Error.param
      else or_error (department_find id tenant_id org_id) Error.service

  set_departments_of : ℕ → ℕ → List Department → List ℕ → Option User → Exec P (Unit {0})
  unfolding tenant_update_user_ext kept_departments ids_value
  set_departments_of uid tenant_id deps ids none = raise Error.null
  set_departments_of uid tenant_id deps ids (some u) =
      if u.tenant_id == tenant_id
      then tenant_update_user_ext uid tenant_id (codes "deps")
          (ids_value (kept_departments deps ids u))
      else raise Error.no_auth

  -- TenantUserSetDepartment
  unfoldable pub tenant_user_set_department : ℕ → ℕ → ℕ → List ℕ → Exec P (Unit {0})
  unfolding department_find_service all_departments user_query_by_id set_departments_of
  tenant_user_set_department uid tenant_id org_id ids =
      if uid == 0 then raise Error.param else if org_id == 0 then raise Error.org_required else do
        deps ← department_find_service 0 tenant_id org_id
        require (all_departments deps ids) Error.param
        found ← or_error (user_query_by_id uid) Error.null
        set_departments_of uid tenant_id deps ids found

  -- A user without a tenant is put into the tenant; one that is in it already stays.
  bind_to_tenant : ℕ → ℕ → Exec P (Unit {0})
  unfolding user_update_tenant_id user_query_by_id is_of_tenant
  bind_to_tenant uid tenant_id = do
    row ← or_error (user_update_tenant_id uid tenant_id 0) Error.service
    if row == 1 then pure tt else (do
      found ← or_error (user_query_by_id uid) Error.service
      require (is_of_tenant tenant_id found) Error.service)

  -- TenantBindUser
  unfoldable pub tenant_bind_user : ℕ → ℕ → Exec P (Unit {0})
  unfolding bind_to_tenant
  tenant_bind_user uid tenant_id =
      if uid == 0 || tenant_id == 0 then raise Error.param else bind_to_tenant uid tenant_id

  module _ (c : Enforcer P) where
    add_roles : ℕ → ℕ → ℕ → List Text → Exec P (Unit {0})
    unfolding add_role_for_user
    add_roles uid tenant_id org_id [] = pure tt
    add_roles uid tenant_id org_id (role ∷ roles) =
        let rest = add_roles uid tenant_id org_id roles in
        or_error (add_role_for_user c uid tenant_id org_id role) Error.service >> rest

    -- TenantUserAdd; errors of the last two steps are logged only
    unfoldable pub tenant_user_add : ℕ → ℕ → ℕ → List ℕ → List Text → ℕ → Exec P (Unit {0})
    unfolding require_org bind_to_tenant org_add_member add_roles tenant_user_set_department
        tenant_user_disabled_service
    tenant_user_add uid tenant_id org_id ids roles disable =
        if org_id == 0 then raise Error.org_required else do
          require_org tenant_id org_id
          bind_to_tenant uid tenant_id
          org_add_member org_id uid tenant_id
          add_roles uid tenant_id org_id roles
          attempt (tenant_user_set_department uid tenant_id org_id ids)
          attempt (tenant_user_disabled_service uid tenant_id disable)
          pure tt

    leave_orgs : ℕ → ℕ → List Organization → Exec P (Unit {0})
    unfolding org_remove_member
    leave_orgs uid tenant_id [] = pure tt
    leave_orgs uid tenant_id (o ∷ os) =
        let rest = leave_orgs uid tenant_id os in
        or_error (org_remove_member c o.id uid tenant_id) Error.service >> rest

    -- TenantUserDel: the number of users deleted
    unfoldable pub tenant_user_del : ℕ → ℕ → Exec P ℕ
    unfolding org_list_by_user leave_orgs user_delete
    tenant_user_del uid tenant_id = do
      orgs ← or_error (org_list_by_user uid tenant_id) Error.service
      leave_orgs uid tenant_id orgs
      or_error (user_delete uid tenant_id) Error.service

    -- TenantUserLeaveOrg: a user of no other organization is deleted
    unfoldable pub tenant_user_leave_org : ℕ → ℕ → ℕ → Exec P ℕ
    unfolding org_remove_member tenant_user_set_department org_member_count_by_user tenant_user_del
    tenant_user_leave_org uid tenant_id org_id =
        if org_id == 0 then raise Error.org_required else do
          org_remove_member c org_id uid tenant_id
          attempt (tenant_user_set_department uid tenant_id org_id [])
          n ← or_error (org_member_count_by_user uid tenant_id) Error.service
          if ltb 0 n then pure 1 else tenant_user_del uid tenant_id
