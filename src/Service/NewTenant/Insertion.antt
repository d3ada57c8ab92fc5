-- ===== src/Service/NewTenant/Insertion.antt =====
-- TenantInsert (dao/tenant.dao.go): what it writes.
use passport.Base.{
  ℕ, ◌≡◌, ap, sym, ◌∙◌, false, List, [], ◌∷◌, ◌++◌, ◌==◌, if◌then◌else◌, exists, arith,
}
use passport.Errors.{Error, ok, err}
use passport.Protos.{User, Tenant}
use passport.Closure.{Table}
use passport.World.{World}
use passport.Hoare.{
  Triple, returned, failed, Triple-bind, Triple-pure, Triple-raise, Triple-if, Triple-statement,
  if-Outcome,
}
use passport.Dao.User.{set_tenant_of, move_user, user_update_tenant_id}
use passport.Dao.Tenant.{inserted_tenant, is_named_tenant, add_tenant, bind_admin, tenant_insert}
use passport.Service.User.Registration.{HasTenantsOf}

-- The accounts `us` with the administrator of tenant `t`, if it has one, bound to it.
unfoldable pub bound : Tenant → List User → ℕ → List User
unfolding set_tenant_of
bound t us tenant_id = if t.uid == 0 then us else set_tenant_of t.uid tenant_id 0 us

module _ {P : Type 0} where
  -- After a failure the transaction takes back what was written.
  abbrev pub Broken : World P → Type 0
  Broken v = Unit {0}

  -- The accounts are `us`, and the tenants as in `w`.
  abbrev pub IsReady : List User → World P → World P → Type 0
  IsReady us w v = (v.users ≡ us) × HasTenantsOf w v

  -- The id is the next one, no tenant had the name, and the tenant's row is there.
  abbrev pub IsNumbered : Tenant → World P → ℕ → World P → Type 0
  IsNumbered t w tenant_id v =
      (tenant_id ≡ w.next_tenant_id)
      × (exists (is_named_tenant t.tenant_name) w.tenants ≡ false)
      × (v.tenants ≡ w.tenants ++ inserted_tenant tenant_id v.now t ∷ [])

  -- So is its administrator, and the closure table is `s`.
  abbrev pub IsInserted : Tenant → List User → World P → Table → ℕ → World P → Type 0
  IsInserted t us w s tenant_id v =
      (v.closure ≡ s) × (v.users ≡ bound t us tenant_id) × IsNumbered t w tenant_id v

module _ {P : Type 0} (t : Tenant) (us : List User) (w : World P) where
  -- Before the administrator is bound.
  abbrev IsAdded : ℕ → World P → Type 0
  IsAdded tenant_id v = (v.closure ≡ w.closure) × (v.users ≡ us) × IsNumbered t w tenant_id v

  add_tenant-Triple : Triple (IsReady us w) (add_tenant t) IsAdded Broken
  unfolding add_tenant
  add_tenant-Triple = record {
    at = λ v h.
        if-Outcome (exists (is_named_tenant t.tenant_name) v.tenants) (err Error.duplicate, _)
          (ok v.next_tenant_id, _) (λ _. failed tt)
          (λ free. returned (
            h.1.1,
            h.0,
            (
              h.1.2,
              sym (ap (exists (is_named_tenant t.tenant_name)) h.1.0) ∙ free,
              ap (λ ts. ts ++ inserted_tenant v.next_tenant_id v.now t ∷ []) h.1.0,
            ),
          ));
  }

  bind_admin-Triple :
      (tenant_id : ℕ)
      → (t.uid == 0) ≡ false
      → Triple (IsAdded tenant_id) (bind_admin tenant_id t.uid) (IsInserted t us w w.closure) Broken
  unfolding bind_admin user_update_tenant_id move_user bound
  bind_admin-Triple tenant_id positive =
      Triple-bind (λ _. IsInserted t us w w.closure tenant_id)
        (user_update_tenant_id t.uid tenant_id 0) _
        (Triple-statement (move_user t.uid tenant_id 0) (λ v fs h. tt) (λ v fs h. h)
          (record {
            at =
                λ v h. returned (h.0, ap (set_tenant_of t.uid tenant_id 0) h.1 ∙ ground arith, h.2);
          }))
        (λ rows.
          Triple-if (rows == 1) _ _ (λ _. Triple-pure tenant_id (λ v h. h))
            (λ _. Triple-raise Error.tenant_limit (λ v h. tt)))

  pub tenant_insert-Triple :
      Triple (IsReady us w) (tenant_insert t) (IsInserted t us w w.closure) Broken
  unfolding tenant_insert bound
  tenant_insert-Triple =
      Triple-bind IsAdded _ _
        (Triple-statement (add_tenant t) (λ v fs h. tt) (λ v fs h. h) add_tenant-Triple)
        (λ tenant_id.
          Triple-if (t.uid == 0) _ _
            (λ nobody. Triple-pure tenant_id (λ v h. (h.0, ground (arith, h.1), h.2)))
            (λ somebody. bind_admin-Triple tenant_id somebody))
