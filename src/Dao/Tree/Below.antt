-- ===== src/Dao/Tree/Below.antt =====
-- What TenantListByAncestorID selects: rows of tenants below the ancestor.
use passport.Base.{
  ℕ, ◌≡◌, true, List, [], ◌∷◌, map, leb, inl, inr, Bool-cases, arith, take, drop, All, All-map,
  All-append, All-take, All-drop,
}
use passport.Protos.{Tenant}
use passport.Closure.{Row, Table, is_key, find_depth, related}
use passport.Dao.Tree.{
  TreeRow, parents, with_parents, with_depths, joined_rows, insert_row, order_by_id, tree_rows,
}

-- A row that is selected is below the ancestor.
abbrev pub IsBelow : ℕ → Table → TreeRow → Type 0
IsBelow a t r = related a r.tenant.id t ≡ true

module _ (a : ℕ) where
  head-IsBelow : (d : ℕ) (tc : Row) (t : Table) → is_key a d tc ≡ true → related a d (tc ∷ t) ≡ true
  unfolding related find_depth
  head-IsBelow d tc t h = ground arith

  skip-IsBelow : (tc : Row) (t : Table) (r : TreeRow) → IsBelow a t r → IsBelow a (tc ∷ t) r
  unfolding related find_depth
  skip-IsBelow tc t r h = ground arith

  -- Every row of a tenant has the tenant.
  map-Same :
      (Q : TreeRow → Type 0) (t : Tenant) (k : ℕ) (ps : List ℕ)
      → ((q : ℕ) → Q (record { tenant = t; parent_id = q; depth = k }))
      → All Q (map (λ q. record { tenant = t; parent_id = q; depth = k }) ps)
  map-Same Q t k [] h = tt
  map-Same Q t k (p ∷ ps) h = (h p, map-Same Q t k ps h)

  with_parents-Same :
      (Q : TreeRow → Type 0) (t : Tenant) (k : ℕ) (ps : List ℕ)
      → ((q : ℕ) → Q (record { tenant = t; parent_id = q; depth = k }))
      → All Q (with_parents t k ps)
  unfolding with_parents
  with_parents-Same Q t k [] h = (h 0, tt)
  with_parents-Same Q t k (p ∷ ps) h = map-Same Q t k (p ∷ ps) h

  with_depths-IsBelow :
      (t : Tenant) (ps : List ℕ) (rest : Table) → All (IsBelow a rest) (with_depths a t ps rest)
  unfolding with_depths
  with_depths-IsBelow t ps [] = tt
  with_depths-IsBelow t ps (tc ∷ rest) =
      let others =
        All-map (IsBelow a rest) (with_depths a t ps rest) (skip-IsBelow tc rest)
          (with_depths-IsBelow t ps rest) in
      elim (Bool-cases (is_key a t.id tc)) [
        | inl e ↦ rw e (
            All-append (IsBelow a (tc ∷ rest)) (with_parents t tc.depth ps)
              (with_depths a t ps rest)
              (with_parents-Same (IsBelow a (tc ∷ rest)) t tc.depth ps
                (λ q. head-IsBelow t.id tc rest e))
              others)
        | inr e ↦ rw e others
      ]

  joined_rows-IsBelow :
      (closure : Table) (ts : List Tenant) → All (IsBelow a closure) (joined_rows a closure ts)
  unfolding joined_rows
  joined_rows-IsBelow closure [] = tt
  joined_rows-IsBelow closure (t ∷ ts) =
      All-append (IsBelow a closure) (with_depths a t (parents t.id closure) closure)
        (joined_rows a closure ts) (with_depths-IsBelow t (parents t.id closure) closure)
        (joined_rows-IsBelow closure ts)

module _ (Q : TreeRow → Type 0) where
  insert_row-All :
      (r : TreeRow) (rows : List TreeRow) → Q r → All Q rows → All Q (insert_row r rows)
  unfolding insert_row
  insert_row-All r [] h hs = (h, tt)
  insert_row-All r (s ∷ rows) h hs = elim (Bool-cases (leb r.tenant.id s.tenant.id)) [
    | inl e ↦ rw e (h, hs)
    | inr e ↦ rw e (hs.0, insert_row-All r rows h hs.1)
  ]

  order_by_id-All : (rows : List TreeRow) → All Q rows → All Q (order_by_id rows)
  unfolding order_by_id
  order_by_id-All [] h = tt
  order_by_id-All (r ∷ rows) h = insert_row-All r (order_by_id rows) h.0 (order_by_id-All rows h.1)

pub tree_rows-IsBelow :
    (a size offset : ℕ) (closure : Table) (ts : List Tenant)
    → All (IsBelow a closure) (take size (drop offset (tree_rows a closure ts)))
unfolding tree_rows
tree_rows-IsBelow a size offset closure ts =
    let rows = tree_rows a closure ts in
    All-take (IsBelow a closure) size (drop offset rows) (
      All-drop (IsBelow a closure) offset rows (
        order_by_id-All (IsBelow a closure) (joined_rows a closure ts)
          (joined_rows-IsBelow a closure ts)))
