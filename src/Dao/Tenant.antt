-- ===== src/Dao/Tenant.antt =====
-- dao/tenant.dao.go: what the services read and write of `tenants`. A time is in seconds,
-- so two updates within a second count as one version.
use passport.Base.{
  ℕ, ◌+◌, Bool, false, Option, none, some, List, [], ◌∷◌, ◌++◌, not, ◌&&◌, ◌==◌, if◌then◌else◌,
  exists,
}
use passport.Text.{Text, text_eq, trim_space}
use passport.Errors.{Error, ok, err}
use passport.Protos.{Tenant}
use passport.World.{Exec, query, statement, pure, raise, ◌>>=◌}
use passport.Dao.User.{user_update_tenant_id}

unfoldable pub tenant_by_id : ℕ → List Tenant → Option Tenant
tenant_by_id id [] = none
tenant_by_id id (t ∷ ts) = if t.id == id then some t else tenant_by_id id ts

abbrev is_version_of : Tenant → Tenant → Bool
is_version_of m t = t.id == m.id && t.update_time == m.update_time

-- UPDATE tenants SET configuration = c, update_time = NOW() WHERE id = i AND update_time = t
set_configuration_of : Tenant → ℕ → List Tenant → List Tenant
set_configuration_of m now [] = []
set_configuration_of m now (t ∷ ts) =
    (if is_version_of m t
      then record t { update_time = now; configuration = m.configuration }
      else t)
    ∷ set_configuration_of m now ts

-- The row of an INSERT; both times are the time of the database.
unfoldable pub inserted_tenant : ℕ → ℕ → Tenant → Tenant
inserted_tenant id now m = record m { id = id; update_time = now }

unfoldable pub is_named_tenant : Text → Tenant → Bool
unfolding text_eq
is_named_tenant name t = text_eq t.tenant_name name

-- UPDATE tenants SET tenant_name = n, tenant_type = y, info = f, update_time = NOW() WHERE id = i
set_base_of : Tenant → ℕ → List Tenant → List Tenant
set_base_of m now [] = []
set_base_of m now (t ∷ ts) =
    (if t.id == m.id
      then record t {
        tenant_name = m.tenant_name;
        tenant_type = m.tenant_type;
        info = m.info;
        update_time = now;
      }
      else t)
    ∷ set_base_of m now ts

module _ {P : Type 0} where
  -- TenantGetByID, of a tenant with one parent
  unfoldable pub tenant_get_by_id : ℕ → Exec P (Option Tenant)
  unfolding query tenant_by_id
  tenant_get_by_id tenant_id = query (λ w. tenant_by_id tenant_id w.tenants)

  update_configuration : Tenant → Exec P Bool
  unfolding set_configuration_of
  update_configuration m w = (
    ok (exists (is_version_of m) w.tenants),
    record w { tenants = set_configuration_of m w.now w.tenants },
  )

  -- TenantUpdateConfiguration: the version that was read must still be there
  unfoldable pub tenant_update_configuration : Tenant → Exec P (Unit {0})
  unfolding statement query update_configuration
  tenant_update_configuration m = do
    updated ← statement (update_configuration m)
    if updated then pure tt else (do
      is_there ← query (λ w. exists (λ t. t.id == m.id) w.tenants)
      raise (if is_there then Error.modify else Error.tenant_not_found))

  -- INSERT INTO tenants … RETURNING id. A name that is taken is refused; the id is used up.
  unfoldable pub add_tenant : Tenant → Exec P ℕ
  unfolding is_named_tenant inserted_tenant
  add_tenant m w =
      let w' = record w { next_tenant_id = w.next_tenant_id + 1 } in
      if exists (is_named_tenant m.tenant_name) w.tenants then (err Error.duplicate, w') else (
        ok w.next_tenant_id,
        record w' { tenants = w.tenants ++ inserted_tenant w.next_tenant_id w.now m ∷ [] },
      )

  unfoldable pub bind_admin : ℕ → ℕ → Exec P ℕ
  unfolding user_update_tenant_id
  bind_admin tenant_id uid = do
    rows ← user_update_tenant_id uid tenant_id 0
    if rows == 1 then pure tenant_id else raise Error.tenant_limit

  -- TenantInsert
  unfoldable pub tenant_insert : Tenant → Exec P ℕ
  unfolding statement add_tenant bind_admin
  tenant_insert m = do
    id ← statement (add_tenant m)
    if m.uid == 0 then pure id else bind_admin id m.uid

  -- TenantNameExists
  unfoldable pub tenant_name_exists : Text → Exec P Bool
  unfolding query is_named_tenant trim_space text_eq
  tenant_name_exists name =
      if text_eq (trim_space name) []
      then pure false
      else query (λ w. exists (is_named_tenant (trim_space name)) w.tenants)

  -- The UPDATE of a name that another tenant has is refused.
  update_base : Tenant → Exec P Bool
  unfolding set_base_of is_named_tenant
  update_base m w =
      if exists (λ t. t.id == m.id) w.tenants
        && exists (λ t. not (t.id == m.id) && is_named_tenant m.tenant_name t) w.tenants
      then (err Error.duplicate, w)
      else (
        ok (exists (λ t. t.id == m.id) w.tenants),
        record w { tenants = set_base_of m w.now w.tenants },
      )

  -- TenantUpdateBase
  unfoldable pub tenant_update_base : Tenant → Exec P (Unit {0})
  unfolding statement update_base
  tenant_update_base m = do
    updated ← statement (update_base m)
    if updated then pure tt else raise Error.tenant_not_found
