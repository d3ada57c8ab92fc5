-- ===== src/Closure.antt =====
-- The tenant closure table (dao/tenant_closure.dao.go, dao/tenant_closure_v2.dao.go): the rows of
-- `tenant_closure` and each SQL statement of the two files as a function on them.
pub mod Lookup
pub mod Pairs
pub mod Statements
pub mod Forest
pub mod Insert
pub mod Stored
pub mod Move
pub mod Settled
use passport.Base.{
  ℕ, zero, suc, ◌+◌, ◌≡◌, Bool, true, false, not, ◌&&◌, ◌||◌, Option, none, some, List, [], ◌∷◌,
  ◌++◌, map, ltb, ◌==◌, if◌then◌else◌, keep_if,
}

pub record Row : Type 0 where
  pub ancestor : ℕ
  pub descendant : ℕ
  pub depth : ℕ

abbrev pub row : ℕ → ℕ → ℕ → Row
row a d k = record { ancestor = a; descendant = d; depth = k }

abbrev pub Table : Type 0
Table = List Row

abbrev pub is_key : ℕ → ℕ → Row → Bool
is_key a d r = r.ancestor == a && r.descendant == d

-- SELECT depth … WHERE ancestor_id = a AND descendant_id = d
unfoldable pub find_depth : ℕ → ℕ → Table → Option ℕ
find_depth a d [] = none
find_depth a d (r ∷ t) = if is_key a d r then some r.depth else find_depth a d t

-- SELECT EXISTS (… WHERE ancestor_id = a AND descendant_id = d)
unfoldable pub related : ℕ → ℕ → Table → Bool
unfolding find_depth
related a d t = elim (find_depth a d t) [ none ↦ false | some k ↦ true ]

-- INSERT … ON CONFLICT (ancestor_id, descendant_id) DO NOTHING, for one row
unfoldable pub insert_ignore : Row → Table → Table
insert_ignore r t = if related r.ancestor r.descendant t then t else r ∷ t

pub insert_ignore_all : List Row → Table → Table
unfolding insert_ignore
insert_ignore_all [] t = t
insert_ignore_all (r ∷ rs) t = insert_ignore_all rs (insert_ignore r t)

-- … DO UPDATE SET depth = EXCLUDED.depth WHERE tenant_closure.depth > EXCLUDED.depth
pub upsert_least : Row → Table → Table
upsert_least r [] = r ∷ []
upsert_least r (s ∷ t) =
    if is_key r.ancestor r.descendant s
    then (if ltb r.depth s.depth then r else s) ∷ t
    else s ∷ upsert_least r t

pub upsert_least_all : List Row → Table → Table
unfolding upsert_least
upsert_least_all [] t = t
upsert_least_all (r ∷ rs) t = upsert_least_all rs (upsert_least r t)

-- SELECT ancestor_id, depth … WHERE descendant_id = d
pub ancestors : ℕ → Table → List (ℕ × ℕ)
ancestors d [] = []
ancestors d (r ∷ t) =
    let rest = ancestors d t in if r.descendant == d then (r.ancestor, r.depth) ∷ rest else rest

-- SELECT descendant_id, depth … WHERE ancestor_id = a
pub descendants : ℕ → Table → List (ℕ × ℕ)
descendants a [] = []
descendants a (r ∷ t) =
    let rest = descendants a t in if r.ancestor == a then (r.descendant, r.depth) ∷ rest else rest

-- The INSERT … SELECT of a row for each ancestor of the parent, one deeper; the same statement ends
-- TenantClosureInsert and EnsureTenantClosureConsistency.
unfoldable pub insert_ancestors : ℕ → ℕ → Table → Table
unfolding ancestors insert_ignore_all
insert_ancestors parent_id tenant_id t =
    insert_ignore_all (map (λ s. row s.0 tenant_id (s.1 + 1)) (ancestors parent_id t)) t

-- TenantClosureInsert: the row of the tenant with itself, the row of its parent, and those of the
-- ancestors.
unfoldable pub insert_tenant : ℕ → ℕ → Table → Table
unfolding insert_ignore insert_ancestors
insert_tenant ancestor_id descendant_id t = insert_ancestors ancestor_id descendant_id (
    insert_ignore (row ancestor_id descendant_id 1)
      (insert_ignore (row descendant_id descendant_id 0) t))

-- The first DELETE of TenantClosureUpdateSubtree, on one row: it ends in the subtree, and starts
-- at a tenant that is neither in the subtree nor the new parent nor an ancestor of that.
pub leaves_subtree : ℕ → ℕ → Table → Row → Bool
unfolding related
leaves_subtree tenant_id new_parent_id t r =
    related tenant_id r.descendant t
    && not (related tenant_id r.ancestor t)
    && not (r.ancestor == new_parent_id)
    && not (related r.ancestor new_parent_id t)

unfoldable pub delete_old : ℕ → ℕ → Table → Table
unfolding leaves_subtree
delete_old tenant_id new_parent_id t =
    keep_if (λ r. not (leaves_subtree tenant_id new_parent_id t r)) t

-- The second DELETE, on one row: the edge from the old parent.
pub is_old_parent : ℕ → ℕ → Row → Bool
is_old_parent tenant_id new_parent_id r =
    r.descendant == tenant_id && r.depth == 1 && not (r.ancestor == new_parent_id)

unfoldable pub delete_old_parent : ℕ → ℕ → Table → Table
unfolding is_old_parent
delete_old_parent tenant_id new_parent_id t =
    keep_if (λ r. not (is_old_parent tenant_id new_parent_id r)) t

-- `supertree CROSS JOIN subtree`
pub joined_with : ℕ × ℕ → List (ℕ × ℕ) → List Row
joined_with a [] = []
joined_with a (d ∷ ds) = row a.0 d.0 (a.1 + d.1 + 1) ∷ joined_with a ds

pub cross_join : List (ℕ × ℕ) → List (ℕ × ℕ) → List Row
unfolding joined_with
cross_join [] ds = []
cross_join (a ∷ supertree) ds = joined_with a ds ++ cross_join supertree ds

-- The INSERT … SELECT of TenantClosureUpdateSubtree.
unfoldable pub insert_joined : ℕ → ℕ → Table → Table
unfolding ancestors descendants cross_join upsert_least_all
insert_joined tenant_id new_parent_id t =
    upsert_least_all (cross_join (ancestors new_parent_id t) (descendants tenant_id t)) t

-- sqlCheckDirectRelation
unfoldable pub is_direct : ℕ → ℕ → Table → Bool
unfolding find_depth
is_direct a d t = elim (find_depth a d t) [ none ↦ false | some k ↦ k == 1 ]

-- sqlInsertDirectRelation: ON CONFLICT DO UPDATE SET depth = 1 WHERE tenant_closure.depth > 1
unfoldable pub insert_direct : ℕ → ℕ → Table → Table
unfolding upsert_least
insert_direct a d t = upsert_least (row a d 1) t

-- The statements of TenantClosureUpdateSubtree after its checks, in order.
unfoldable pub move_subtree : ℕ → ℕ → Table → Table
unfolding delete_old delete_old_parent insert_joined is_direct insert_direct
move_subtree tenant_id new_parent_id t =
    let t1 = delete_old tenant_id new_parent_id t in
    let t2 = delete_old_parent tenant_id new_parent_id t1 in
    let t3 = insert_joined tenant_id new_parent_id t2 in
    let t4 =
      if is_direct new_parent_id tenant_id t3
      then t3
      else insert_direct new_parent_id tenant_id t3 in
    if ltb 0 new_parent_id then t4 else t2
