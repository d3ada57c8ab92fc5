-- ===== src/Service/NewTenant/Unlisted.antt =====
-- TenantAdd: what it writes, and that its users do not see their tenant in the tree.
use passport.Base.{
  subst, ℕ, ◌≡◌, ◌≢◌, refl, sym, ap, ◌∙◌, inl, inr, Bool, true, false, List, [], ◌∷◌, ltb, ◌==◌,
  arith, All, Option-cases, Bool-cases, length, if◌then◌else◌, some,
}
use passport.Text.{text_eq}
use passport.Errors.{Error, Result, ok, err, panic}
use passport.Protos.{User, Tenant}
use passport.Closure.{Table, find_depth, related}
use passport.Closure.Forest.{Forest, Represents, climb-node}
use passport.World.{
  continue, as_value, Cached, World, Exec, raise, exec, attempt, statement-cases, require, or_error,
  ◌>>=◌,
}
use passport.Hoare.{
  Outcome, Triple, returned, failed, Triple-bind, Triple-pure, Triple-require, Triple-or_error,
  Outcome-ok, weaken-Outcome, relax-Outcome,
}
use passport.Transaction.{restore, transacted, commit_reporting}
use passport.Transaction.Ended.{commit_reporting-Outcome, transacted-Triple}
use passport.Cache.{ExpiredMap, delete}
use passport.Cache.Keys.{tenant_cache_key}
use passport.DefaultCache.{del_tenant_cache}
use passport.Dao.Tenant.{tenant_insert}
use passport.Service.Tenant.{evict_tenant_cache}
use passport.Dao.Tree.{TreeRow}
use passport.Service.Tree.{tenant_tree_list}
use passport.Service.Tree.Sight.{IsInSight, tenant_tree_list-Outcome}
use passport.Service.Parent.{begin}
use passport.Service.NewTenant.Insertion.{Broken, IsReady, IsInserted, tenant_insert-Triple}
use passport.Service.NewTenant.{
  or_empty, root_role, insert_added, commit_and_evict, add_when_begun, tenant_add,
}

-- The tenant with the root role, and no other.
abbrev pub with_root : Tenant → Tenant
with_root m = record m {
  configuration = some (record (or_empty m.configuration) { roles = root_role ∷ [] });
}

failure :
    {P A : Type 0} {r : Result A} {w : World P}
    → Outcome (λ _ _. ⊥) (λ _. Unit {0}) r w
    → (e : Error) × (r ≡ err e)
failure (returned p) = absurd p
failure (failed {e = e} p) = (e, refl)

module _ {P : Type 0} (m : Tenant) (w : World P) where
  -- What TenantAdd has written.
  abbrev pub HasTenant : ℕ → World P → Type 0
  HasTenant = IsInserted (with_root m) w.users w w.closure

  insert_added-Triple :
      (t : Tenant)
      → Triple (IsReady w.users w) (insert_added t) (IsInserted t w.users w w.closure) Broken
  unfolding insert_added
  insert_added-Triple t =
      Triple-bind (IsInserted t w.users w w.closure) (or_error (tenant_insert t) Error.service) _
        (Triple-or_error (tenant_insert t) Error.service (tenant_insert-Triple t w.users w))
        (λ tenant_id.
          Triple-bind (λ _. IsInserted t w.users w w.closure tenant_id)
            (require (ltb 0 tenant_id) Error.tenant_add) _
            (Triple-require (ltb 0 tenant_id) Error.tenant_add (λ v h _. h) (λ v h. tt))
            (λ _. Triple-pure tenant_id (λ v h. h)))

  uncached :
      (t : Tenant) (cache : ExpiredMap Cached) (r : Result ℕ) (v : World P)
      → Outcome (IsInserted t w.users w w.closure) Broken r v
      → Outcome (IsInserted t w.users w w.closure) Broken r (record v { cache = cache })
  uncached t cache (ok id) v (returned h) = returned h
  uncached t cache (err e) v (failed h) = failed tt
  uncached t cache panic v h = elim h [ ]

  evict-Outcome :
      (t : Tenant) (tenant_id : ℕ) (r : Result ℕ) (v : World P)
      → Outcome (IsInserted t w.users w w.closure) Broken r v
      → Outcome (IsInserted t w.users w w.closure) Broken r (evict_tenant_cache tenant_id v).1
  unfolding evict_tenant_cache del_tenant_cache
  evict-Outcome t tenant_id r v h = elim (Bool-cases (ltb 0 tenant_id)) [
    | inl e ↦ rw e (uncached t (delete (tenant_cache_key tenant_id) v.cache) r v h)
    | inr e ↦ rw e h
  ]

  commit_and_evict-Outcome :
      (t : Tenant) (before : World P) (tenant_id : ℕ) (p : Result (Unit {0}) × World P)
      → ((v : World P) → Broken (restore before v))
      → Outcome (λ _ v. IsInserted t w.users w w.closure tenant_id v) (λ v. Unit {0}) p.0 p.1
      → Outcome
          (IsInserted t w.users w w.closure)
          Broken
          (commit_and_evict before tenant_id p).0
          (commit_and_evict before tenant_id p).1
  unfolding commit_and_evict
  commit_and_evict-Outcome t before tenant_id p back h =
      evict-Outcome t tenant_id (commit_reporting before tenant_id p).0
        (commit_reporting before tenant_id p).1
        (commit_reporting-Outcome {Same = Broken} before tenant_id p back h)

  insert_and_commit-Triple :
      (t : Tenant)
      → Triple
          (IsReady w.users w)
          (transacted commit_and_evict (insert_added t))
          (IsInserted t w.users w w.closure)
          Broken
  insert_and_commit-Triple t =
      transacted-Triple {Post = IsInserted t w.users w w.closure} {Same = Broken} commit_and_evict
        (commit_and_evict-Outcome t) (λ a u fs h. h) (insert_added t) (λ b u h. tt)
        (insert_added-Triple t)

  -- If it returns an id, the tenant has been written.
  abbrev Adds : Exec P ℕ → Type 0
  Adds n = (id : ℕ) (v : World P) → n w ≡ (ok id, v) → HasTenant id v

  if-Adds : (b : Bool) (e : Error) (n : Exec P ℕ) → Adds n → Adds (if b then raise e else n)
  if-Adds true e n h id v k = absurd (cc k)
  if-Adds false e n h id v k = h id v k

  -- What follows the BEGIN.
  abbrev resumed : Result (Unit {0}) × World P → Result ℕ × World P
  resumed p = continue (as_value p.0) (add_when_begun (with_root m)) p.1

  committed-Adds :
      (fs : List Bool) (id : ℕ) (v : World P)
      → transacted commit_and_evict (insert_added (with_root m)) (record w { faults = fs })
        ≡ (ok id, v)
      → HasTenant id v
  committed-Adds fs id v k =
      let w' = record w { faults = fs } in
      subst (HasTenant id) (ap (λ p. p.1) k) (
        Outcome-ok id ((insert_and_commit-Triple (with_root m)).at w' (refl, (refl, refl, refl)))
          (ap (λ p. p.0) k))

  begun-Adds : Adds (do begun ← attempt begin; add_when_begun (with_root m) begun)
  unfolding begin exec add_when_begun
  begun-Adds id v k = elim (statement-cases (λ u. (ok tt, u)) w) [
    | inl (fs, e) ↦
        let none : ◌≡◌ {A = Result ℕ × World P} (panic, record w { faults = fs }) (ok id, v) =
          sym (ap resumed e) ∙ k in
        absurd (cc none)
    | inr (fs, e) ↦ committed-Adds fs id v (sym (ap resumed e) ∙ k)
  ]

  pub tenant_add-Adds : Adds (tenant_add m)
  unfolding tenant_add
  tenant_add-Adds = if-Adds (m.uid == 0) Error.tenant_add _ (
      if-Adds (text_eq m.tenant_name []) Error.tenant_name_null _ (
        if-Adds (text_eq m.tenant_type []) Error.tenant_type_null _
          (if-Adds (ltb 100 (length (or_empty m.configuration).more)) Error.service _ begun-Adds)))

related-fresh :
    (f : Forest) (t : Table) (n d : ℕ) → Represents f t → f.node n ≡ false → related n d t ≡ false
unfolding related
related-fresh f t n d r fresh = elim (Option-cases (find_depth n d t)) [
  | inl e ↦ ground (arith, e)
  | inr (k, e) ↦ let s = r.sound n d k e in absurd (ground (arith, climb-node r k d n s.0 s.1))
]

none_in_sight :
    (u : User) (root : ℕ) (t : Table) (a : ℕ) (rows : List TreeRow)
    → u.tenant_id ≢ root
    → ((d : ℕ) → related u.tenant_id d t ≡ false)
    → All (IsInSight u root t a) rows
    → rows ≢ []
    → ⊥
none_in_sight u root t a [] other apart seen some_row = some_row refl
none_in_sight u root t a (r ∷ rows) other apart seen some_row = elim seen.0.1 [
  | inl e ↦ other e
  | inr e ↦ absurd (cc (e, apart r.tenant.id))
]

-- If the closure table stands for a forest that does not have the next tenant id, then after a
-- TenantAdd that has returned an id, TenantTreeList gives a user of that tenant (unless it is the
-- root tenant) no page, whatever is asked for and whatever statements fail: it returns an error.
-- (TenantAdd leaves the closure table as it is, without even the row of the tenant with itself.)
pub tenant_tree_list-tenant_add :
    {P : Type 0} (f : Forest) (m : Tenant) (u : User) (a page size : ℕ) (has_total : Bool)
    (w v : World P)
    → Represents f w.closure
    → f.node w.next_tenant_id ≡ false
    → tenant_add m w ≡ (ok u.tenant_id, v)
    → u.tenant_id ≢ v.root_tenant_id
    → (e : Error) × ((tenant_tree_list u a page size has_total v).0 ≡ err e)
tenant_tree_list-tenant_add f m u a page size has_total w v r fresh k other =
    let added = tenant_add-Adds m w u.tenant_id v k in
    let r' = subst (Represents f) (sym added.0) r in
    let unknown : f.node u.tenant_id ≡ false = ap f.node added.2.0 ∙ fresh in
    failure (
      relax-Outcome (λ x h. tt)
        (weaken-Outcome
          (λ p x h.
            none_in_sight u v.root_tenant_id v.closure a p.list other
              (λ d. related-fresh f v.closure u.tenant_id d r' unknown) h.1.0 h.1.1.1)
          (tenant_tree_list-Outcome f u a page size has_total v r')))
