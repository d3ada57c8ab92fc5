-- ===== src/Service/Tenant.antt =====
-- service/tenant.service.go: tenants by id, through the cache, and the roles that a tenant defines.
pub mod Eviction
use passport.Base.{
  ℕ, Bool, Option, none, some, List, [], ◌∷◌, ◌++◌, ◌||◌, ltb, ◌==◌, if◌then◌else◌, length, exists,
}
use passport.Text.{Text, text_eq, codes}
use passport.Errors.{Error, panic}
use passport.Protos.{Tenant, RoleStruct, TenantConfiguration}
use passport.World.{Exec, pure, raise, ◌>>=◌, ◌>>◌, or_error, when}
use passport.DefaultCache.{get_tenant_cache, set_tenant_cache, del_tenant_cache}
use passport.Dao.Tenant.{tenant_get_by_id, tenant_update_configuration}

same_role : RoleStruct → RoleStruct → Bool
same_role role r = text_eq r.role_title role.role_title || text_eq r.role_value role.role_value

has_value : Text → RoleStruct → Bool
has_value value r = text_eq r.role_value value

-- Without the first role of that value.
drop_first : Text → List RoleStruct → List RoleStruct
unfolding has_value
drop_first value [] = []
drop_first value (r ∷ rs) =
    let rest = drop_first value rs in if has_value value r then rs else r ∷ rest

module _ {P : Type 0} where
  -- evictTenantCache of one id
  unfoldable pub evict_tenant_cache : ℕ → Exec P (Unit {0})
  unfolding del_tenant_cache
  evict_tenant_cache id = when (ltb 0 id) (del_tenant_cache id)

  cache_tenant : Option Tenant → Exec P (Option Tenant)
  unfolding set_tenant_cache
  cache_tenant none = pure none
  cache_tenant (some t) = do set_tenant_cache t; pure (some t)

  tenant_or_query : ℕ → Option Tenant → Exec P (Option Tenant)
  unfolding cache_tenant tenant_get_by_id
  tenant_or_query tenant_id (some t) = pure (some t)
  tenant_or_query tenant_id none = do found ← tenant_get_by_id tenant_id; cache_tenant found

  -- getTenantByIDCached
  unfoldable pub get_tenant_by_id_cached : ℕ → Exec P (Option Tenant)
  unfolding get_tenant_cache tenant_or_query
  get_tenant_by_id_cached tenant_id =
      if tenant_id == 0
      then raise Error.param
      else do hit ← get_tenant_cache tenant_id; tenant_or_query tenant_id hit

  or_not_found : Option Tenant → Exec P Tenant
  or_not_found none = raise Error.tenant_not_found
  or_not_found (some t) = pure t

  -- TenantGetByIDService
  unfoldable pub tenant_get_by_id_service : ℕ → Exec P Tenant
  unfolding get_tenant_by_id_cached or_not_found
  tenant_get_by_id_service tenant_id =
      if tenant_id == 0
      then raise Error.param
      else do found ← or_error (get_tenant_by_id_cached tenant_id) Error.service; or_not_found found

  -- `defer evictTenantCache(tenantId)`: the entry goes whatever the body returns, or if it panics.
  unfoldable pub then_evict : ℕ → Exec P (Unit {0}) → Exec P (Unit {0})
  unfolding evict_tenant_cache
  then_evict id m w = let (r, w') = m w in let (_, w2) = evict_tenant_cache id w' in (r, w2)

  -- The tenant and its configuration; a field of a nil configuration is a nil dereference.
  with_configuration :
      Option Tenant → (Tenant → TenantConfiguration → Exec P (Unit {0})) → Exec P (Unit {0})
  with_configuration none f = raise Error.tenant_not_found
  with_configuration (some t) f = elim t.configuration [ none ↦ λ w. (panic, w) | some c ↦ f t c ]

  add_role : RoleStruct → Tenant → TenantConfiguration → Exec P (Unit {0})
  unfolding same_role tenant_update_configuration
  add_role role t c =
      if ltb 100 (length c.roles)
      then raise Error.service
      else if exists (same_role role) c.roles
      then raise Error.pg_dup_key
      else tenant_update_configuration
          (record t { configuration = some (record c { roles = c.roles ++ role ∷ [] }) })

  find_and_add : ℕ → RoleStruct → Exec P (Unit {0})
  unfolding get_tenant_by_id_cached with_configuration add_role
  find_and_add tenant_id role = do
    found ← or_error (get_tenant_by_id_cached tenant_id) Error.service
    with_configuration found (add_role role)

  -- TenantAddRole
  unfoldable pub tenant_add_role : ℕ → RoleStruct → Exec P (Unit {0})
  unfolding then_evict find_and_add
  tenant_add_role tenant_id role = then_evict tenant_id (find_and_add tenant_id role)

  del_role : RoleStruct → Tenant → TenantConfiguration → Exec P (Unit {0})
  unfolding has_value drop_first tenant_update_configuration
  del_role role t c =
      if exists (has_value role.role_value) c.roles
      then tenant_update_configuration (record t {
        configuration = some (record c { roles = drop_first role.role_value c.roles });
      })
      else pure tt

  find_and_delete : ℕ → RoleStruct → Exec P (Unit {0})
  unfolding get_tenant_by_id_cached with_configuration del_role
  find_and_delete tenant_id role =
      if text_eq role.role_value (codes "root") then raise Error.service else do
        found ← or_error (get_tenant_by_id_cached tenant_id) Error.service
        with_configuration found (del_role role)

  -- TenantDelRole
  unfoldable pub tenant_del_role : ℕ → RoleStruct → Exec P (Unit {0})
  unfolding then_evict find_and_delete
  tenant_del_role tenant_id role = then_evict tenant_id (find_and_delete tenant_id role)
