-- ===== src/Service/Tenant/Eviction.antt =====
-- The entry of a tenant in the cache after its roles have been changed.
use passport.Base.{ℕ, ◌<◌, ◌≡◌, none, arith}
use passport.Protos.{RoleStruct}
use passport.World.{World, Exec}
use passport.Cache.{get, delete}
use passport.Cache.Keys.{tenant_cache_key}
use passport.Cache.Laws.{lookup-remove}
use passport.Text.{text_eq_refl}
use passport.DefaultCache.{del_tenant_cache}
use passport.Service.Tenant.{
  then_evict, find_and_add, find_and_delete, evict_tenant_cache, tenant_add_role, tenant_del_role,
}

module _ {P : Type 0} where
  then_evict_lem :
      (id later : ℕ) (m : Exec P (Unit {0})) (w : World P)
      → 0 < id
      → (get later (tenant_cache_key id) (then_evict id m w).1.cache).0 ≡ none
  unfolding then_evict evict_tenant_cache del_tenant_cache get delete
  then_evict_lem id later m w positive = ground (
    arith,
    lookup-remove (tenant_cache_key id) (tenant_cache_key id) (m w).1.cache,
    text_eq_refl (tenant_cache_key id),
  )

  -- After TenantAddRole and TenantDelRole of a tenant whose id is not 0, whatever they return and
  -- also if they panic, the cache has no entry for the tenant at any time.
  pub tenant_roles-get :
      (id later : ℕ) (role : RoleStruct) (w : World P)
      → 0 < id
      → ((get later (tenant_cache_key id) (tenant_add_role id role w).1.cache).0 ≡ none)
        × ((get later (tenant_cache_key id) (tenant_del_role id role w).1.cache).0 ≡ none)
  unfolding tenant_add_role tenant_del_role
  tenant_roles-get id later role w positive = (
    then_evict_lem id later (find_and_add id role) w positive,
    then_evict_lem id later (find_and_delete id role) w positive,
  )
