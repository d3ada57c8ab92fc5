-- ===== src/Service/Tree/Sight.antt =====
-- TenantTreeList: what a user gets to see, and when it fails.
use passport.Base.{
  keep_if, ℕ, ◌≡◌, ◌≢◌, ◌≤◌, refl, sym, ap, ◌∙◌, subst, ◌⊎◌, inl, inr, Bool, true, false, some,
  List, [], ◌∷◌, arith, ◌==◌, All, All-map, length, length-take, take, drop, Option-cases, ==_true,
}
use passport.Errors.{Error}
use passport.Protos.{User}
use passport.Closure.{Table, find_depth, related}
use passport.Closure.Forest.{Forest, Represents, find_depth_trans}
use passport.World.{World, pure, query, require, or_error}
use passport.Hoare.{
  returned, Triple, Outcome, weaken-Outcome, Triple-bind, Triple-if, Triple-pure, Triple-raise,
  Triple-or_error, Triple-require, Triple-query, Triple-statement,
}
use passport.Dao.Closure.{tenant_closure_is_descendant}
use passport.Dao.Tree.{
  TreeRow, tree_rows, tenant_list_by_ancestor_id, tenant_count, tenant_count_by_ancestor_id,
  counted,
}
use passport.Dao.Page.{offset_of, select_page}
use passport.Dao.Page.Safe.{select_page-Triple}
use passport.Dao.Tree.Below.{IsBelow, tree_rows-IsBelow}
use passport.Service.Tree.{
  PageResponse, is_some, may_see, some_rows, total_of, tree_list_of, tenant_tree_list,
}

-- The state has a given closure table and a given root tenant.
pub record Holds {P : Type 0} (t : Table) (root : ℕ) (w : World P) : Type 0 where
  pub closure : w.closure ≡ t
  pub root_tenant_id : w.root_tenant_id ≡ root

-- The user is of the root tenant, or of one at or above a tenant.
abbrev pub MaySee : User → ℕ → Table → ℕ → Type 0
MaySee u root t id = (u.tenant_id ≡ root) ⊎ (related u.tenant_id id t ≡ true)

-- A row of a tenant that is below the ancestor, and that the user may see.
abbrev pub IsInSight : User → ℕ → Table → ℕ → TreeRow → Type 0
IsInSight u root t a r = IsBelow a t r × MaySee u root t r.tenant.id

related_depth : (a d : ℕ) (t : Table) → related a d t ≡ true → (k : ℕ) × (find_depth a d t ≡ some k)
unfolding related
related_depth a d t h = elim (Option-cases (find_depth a d t)) [
  | inl e ↦ absurd (ground (arith, h, e))
  | inr (k, e) ↦ (k, e)
]

depth_related : (a d k : ℕ) (t : Table) → find_depth a d t ≡ some k → related a d t ≡ true
unfolding related
depth_related a d k t e = ground (arith, e)

is_some-related : (a d : ℕ) (t : Table) → is_some (find_depth a d t) ≡ true → related a d t ≡ true
unfolding related is_some
is_some-related a d t h = ground (arith, h)

-- Who may see a tenant may see those below it.
see_below :
    (f : Forest) (t : Table) (forest : Represents f t) (root : ℕ) (u : User) (a : ℕ) (r : TreeRow)
    → MaySee u root t a
    → IsBelow a t r
    → IsInSight u root t a r
see_below f t forest root u a r (inl e) h = (h, inl e)
see_below f t forest root u a r (inr e) h =
    let above = related_depth u.tenant_id a t e in
    let below = related_depth a r.tenant.id t h in
    (
      h,
      inr (
          depth_related u.tenant_id r.tenant.id _ t
            (find_depth_trans forest u.tenant_id a r.tenant.id above.0 below.0 above.1 below.1)),
    )

module _ {P : Type 0} (f : Forest) (t : Table) (forest : Represents f t) (root : ℕ) (u : User) where
  abbrev Fits : World P → Type 0
  Fits = Holds t root

  faults-Fits : (w : World P) (fs : List Bool) → Fits w → Fits (record w { faults = fs })
  faults-Fits w fs h = record { closure = h.closure; root_tenant_id = h.root_tenant_id }

  abbrev Sees : ℕ → World P → Type 0
  Sees a w = Fits w × MaySee u root t a

  may_see-Triple : (a : ℕ) → Triple Fits (may_see u a root) (λ _. Sees a) Fits
  unfolding may_see tenant_closure_is_descendant
  may_see-Triple a =
      Triple-if (u.tenant_id == root) (pure tt) _
        (λ e. Triple-pure tt (λ w h. (h, inl (==_true u.tenant_id root e))))
        (λ _.
          Triple-bind (λ depth w. Fits w × (depth ≡ find_depth u.tenant_id a t))
            (or_error (query (λ w. find_depth u.tenant_id a w.closure)) Error.service)
            (λ depth. require (is_some depth) Error.no_auth)
            (Triple-or_error _ Error.service (
              Triple-query (λ w. find_depth u.tenant_id a w.closure) faults-Fits faults-Fits
                (λ w h. (h, ap (λ x. find_depth u.tenant_id a x) h.closure))))
            (λ depth.
              Triple-require (is_some depth) Error.no_auth
                (λ w h e. (h.0, inr (is_some-related u.tenant_id a t (ap is_some (sym h.1) ∙ e))))
                (λ w h. h.0)))

  -- A page of rows that the user may see.
  abbrev Shows : ℕ → ℕ → List TreeRow → World P → Type 0
  Shows a size rows w = Fits w × (All (IsInSight u root t a) rows × (length rows ≤ size))

  faults-Sees :
      (a : ℕ) (w : World P) (fs : List Bool) → Sees a w → Sees a (record w { faults = fs })
  faults-Sees a w fs h = (faults-Fits w fs h.0, h.1)

  abbrev Listed : ℕ → ℕ → List TreeRow → World P → Type 0
  Listed a size list w = Shows a size list w × (list ≢ [])

  rows-InSight :
      (a size offset : ℕ) (w : World P)
      → Sees a w
      → All (IsInSight u root t a) (take size (drop offset (tree_rows a w.closure w.tenants)))
  rows-InSight a size offset w h =
      subst (λ x. All (IsInSight u root t a) (take size (drop offset (tree_rows a x w.tenants))))
        (sym h.0.closure)
        (All-map (IsBelow a t) (take size (drop offset (tree_rows a t w.tenants)))
          (λ r. see_below f t forest root u a r h.1) (tree_rows-IsBelow a size offset t w.tenants))

  list-Triple :
      (a page size : ℕ)
      → Triple
          (Sees a)
          (or_error (tenant_list_by_ancestor_id a page size) Error.service)
          (Shows a size)
          Fits
  unfolding tenant_list_by_ancestor_id
  list-Triple a page size =
      let rows : World P → List TreeRow = λ w. tree_rows a w.closure w.tenants in
      Triple-or_error (tenant_list_by_ancestor_id a page size) Error.service (
        Triple-statement (select_page page size rows) (λ w fs h. faults-Fits w fs h.0)
          (faults-Sees a)
          (select_page-Triple page size rows (λ w h. h.0)
            (λ w h. (
              h.0,
              (
                rows-InSight a size (offset_of page size) w h,
                length-take size (drop (offset_of page size) (rows w)),
              ),
            ))))

  some_rows-Triple :
      (a size : ℕ) (rows : List TreeRow)
      → Triple (Shows a size rows) (some_rows rows) (Listed a size) Fits
  unfolding some_rows
  some_rows-Triple a size [] = Triple-raise Error.null (λ w h. h.0)
  some_rows-Triple a size (r ∷ rows) = Triple-pure (r ∷ rows) (λ w h. (h, λ e. cc e))

  faults-Listed :
      (a size : ℕ) (list : List TreeRow) (w : World P) (fs : List Bool)
      → Listed a size list w
      → Listed a size list (record w { faults = fs })
  faults-Listed a size list w fs h = ((faults-Fits w fs h.0.0, h.0.1), h.1)

  total_of-Triple :
      (a size : ℕ) (list : List TreeRow) (has_total : Bool)
      → Triple (Listed a size list) (total_of u a root has_total) (λ _. Listed a size list) Fits
  unfolding total_of tenant_count tenant_count_by_ancestor_id
  total_of-Triple a size list false = Triple-pure 0 (λ w h. h)
  total_of-Triple a size list true = Triple-or_error _ Error.service (
      Triple-if (u.tenant_id == root) tenant_count (tenant_count_by_ancestor_id a)
        (λ _.
          Triple-query (λ w. length w.tenants) (λ w fs h. faults-Fits w fs h.0.0)
            (faults-Listed a size list) (λ w h. h))
        (λ _.
          Triple-statement _ (λ w fs h. faults-Fits w fs h.0.0) (faults-Listed a size list)
            (Triple-if {Pre = Listed a size list} counted _ _
              (λ _. record {
                at = λ w h. returned {a = length (keep_if (λ r. r.ancestor == a) w.closure)} h;
              })
              (λ _. Triple-raise Error.db (λ w h. h.0.0)))))

  abbrev Answers : ℕ → ℕ → PageResponse → World P → Type 0
  Answers a size r w = Listed a size r.list w

  tree_list_of-Triple :
      (a page size : ℕ) (has_total : Bool)
      → Triple Fits (tree_list_of u a page size has_total root) (Answers a size) Fits
  unfolding tree_list_of
  tree_list_of-Triple a page size has_total =
      Triple-bind (λ _. Sees a) (may_see u a root) _ (may_see-Triple a)
        (λ _.
          Triple-bind (Shows a size)
            (or_error (tenant_list_by_ancestor_id a page size) Error.service) _
            (list-Triple a page size)
            (λ rr.
              Triple-bind (Listed a size) (some_rows rr) _ (some_rows-Triple a size rr) (λ list.
                Triple-bind (λ _. Listed a size list) (total_of u a root has_total)
                  (λ total. pure (record { list = list; total = total }))
                  (total_of-Triple a size list has_total)
                  (λ total. Triple-pure (record { list = list; total = total }) (λ w h. h)))))

-- If the closure table stands for a forest of tenants, then whatever statements fail TenantTreeList
-- leaves the table, and returns an error or at most a page of rows, at least one. Each is the row of
-- a tenant at or below the one asked for, and, unless the user is of the root tenant, at or below
-- the user's tenant.
pub tenant_tree_list-Outcome :
    {P : Type 0} (f : Forest) (u : User) (a page size : ℕ) (has_total : Bool) (w : World P)
    → Represents f w.closure
    → Outcome
        (λ r v.
          Holds w.closure w.root_tenant_id v
          × (All (IsInSight u w.root_tenant_id w.closure a) r.list
              × ((length r.list ≤ size) × (r.list ≢ []))))
        (Holds w.closure w.root_tenant_id)
        (tenant_tree_list u a page size has_total w).0
        (tenant_tree_list u a page size has_total w).1
unfolding tenant_tree_list
tenant_tree_list-Outcome {P = P} f u a page size has_total w forest =
    weaken-Outcome (λ r v h. (h.0.0, (h.0.1.0, (h.0.1.1, h.1))))
      ((tree_list_of-Triple {P = P} f w.closure forest w.root_tenant_id u a page size has_total).at
        w (record { closure = refl; root_tenant_id = refl }))
