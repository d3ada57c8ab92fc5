-- ===== src/DefaultCache.antt =====
-- cache/cache.go: defaultCache, one map for tenants, organizations and members. A read asserts the
-- type of what it finds, and panics on a value of another type.
use passport.Base.{ℕ, Bool, true, Option, none, some, ◌||◌, not, ◌==◌, if◌then◌else◌}
use passport.Text.{Text}
use passport.Errors.{Result, ok, panic}
use passport.Protos.{Tenant, Organization}
use passport.World.{World, Exec, Cached, tenant, org, member, pure}
use passport.Cache.{set, get, delete}
use passport.Cache.Keys.{tenant_cache_key, org_cache_key, org_member_cache_key}

-- `v.(*protos.Tenant)`
as_tenant : Option Cached → Result (Option Tenant)
as_tenant none = ok none
as_tenant (some (tenant t)) = ok (some t)
as_tenant (some (org o)) = panic
as_tenant (some (member b)) = panic

as_org : Option Cached → Result (Option Organization)
as_org none = ok none
as_org (some (org o)) = ok (some o)
as_org (some (tenant t)) = panic
as_org (some (member b)) = panic

as_member : Option Cached → Result (Option Bool)
as_member none = ok none
as_member (some (member b)) = ok (some b)
as_member (some (tenant t)) = panic
as_member (some (org o)) = panic

module _ {P : Type 0} where
  store : Text → Cached → ℕ → Exec P (Unit {0})
  store key v alive w = (ok tt, record w { cache = set w.now key v alive w.cache })

  evict : Text → Exec P (Unit {0})
  evict key w = (ok tt, record w { cache = delete key w.cache })

  load : Text → World P → Option Cached × World P
  load key w = let (v, m) = get w.now key w.cache in (v, record w { cache = m })

  -- SetTenantCache
  unfoldable pub set_tenant_cache : Tenant → Exec P (Unit {0})
  unfolding store
  set_tenant_cache m = store (tenant_cache_key m.id) (tenant m) 3600

  -- GetTenantCache
  unfoldable pub get_tenant_cache : ℕ → Exec P (Option Tenant)
  unfolding load as_tenant
  get_tenant_cache id w = let (v, w') = load (tenant_cache_key id) w in (as_tenant v, w')

  -- DelTenantCache
  unfoldable pub del_tenant_cache : ℕ → Exec P (Unit {0})
  unfolding evict
  del_tenant_cache id = evict (tenant_cache_key id)

  -- SetOrgCache
  unfoldable pub set_org_cache : Organization → Exec P (Unit {0})
  unfolding store
  set_org_cache m = if m.id == 0 then pure tt else store (org_cache_key m.id) (org m) 3600

  -- GetOrgCache
  unfoldable pub get_org_cache : ℕ → Exec P (Option Organization)
  unfolding load as_org
  get_org_cache id w = let (v, w') = load (org_cache_key id) w in (as_org v, w')

  -- DelOrgCache
  unfoldable pub del_org_cache : ℕ → Exec P (Unit {0})
  unfolding evict
  del_org_cache id = evict (org_cache_key id)

  -- SetOrgMemberCache: only memberships are stored
  unfoldable pub set_org_member_cache : ℕ → ℕ → Bool → Exec P (Unit {0})
  unfolding store
  set_org_member_cache org_id uid is_in =
      if org_id == 0 || uid == 0 || not is_in
      then pure tt
      else store (org_member_cache_key org_id uid) (member true) 300

  -- GetOrgMemberCache; `none` is a miss
  unfoldable pub get_org_member_cache : ℕ → ℕ → Exec P (Option Bool)
  unfolding load as_member
  get_org_member_cache org_id uid w =
      let (v, w') = load (org_member_cache_key org_id uid) w in (as_member v, w')

  -- DelOrgMemberCache
  unfoldable pub del_org_member_cache : ℕ → ℕ → Exec P (Unit {0})
  unfolding evict
  del_org_member_cache org_id uid = evict (org_member_cache_key org_id uid)
