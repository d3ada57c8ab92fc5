-- ===== src/Closure/Settled.antt =====
-- After a move, the statements of EnsureTenantClosureConsistency find nothing to write.
use passport.Base.{
  ℕ, ◌+◌, ◌<◌, ◌≡◌, ◌≢◌, refl, inl, inr, true, false, none, [], ◌∷◌, map, arith, ◌==◌, Bool-cases,
}
use passport.Closure.{
  row, Table, find_depth, related, ancestors, insert_ignore, insert_ignore_all, insert_ancestors,
  move_subtree, is_direct,
}
use passport.Closure.Stored.{joined_is_direct}
use passport.Closure.Forest.{Forest, Represents, find_depth_self}
use passport.Closure.Move.{not_zero, related-move_subtree}

insert_ignore_all-known :
    (p n : ℕ) (t s : Table)
    → ((a : ℕ) → related a p s ≡ true → related a n t ≡ true)
    → insert_ignore_all (map (λ x. row x.0 n (x.1 + 1)) (ancestors p s)) t ≡ t
unfolding insert_ignore_all insert_ignore ancestors
insert_ignore_all-known p n t [] h = refl
insert_ignore_all-known p n t (r ∷ s) h =
    let below : (a : ℕ) → related a p s ≡ true → related a p (r ∷ s) ≡ true =
      λ a k. unfold related find_depth in ground arith in
    let rest = insert_ignore_all-known p n t s (λ a k. h a (below a k)) in
    elim (Bool-cases (r.descendant == p)) [
      | inl e ↦
          let first : related r.ancestor p (r ∷ s) ≡ true =
            unfold related find_depth in ground arith in
          let known = h r.ancestor first in ground (arith, known, rest)
      | inr e ↦ ground (arith, rest)
    ]

module _ (tenant parent : ℕ) {f : Forest} {t : Table} (r : Represents f t) (positive : 0 < parent)
    (differ : tenant ≢ parent) (tenant_node : f.node tenant ≡ true)
    (parent_node : f.node parent ≡ true) (apart : find_depth tenant parent t ≡ none) where
  pub move_subtree-is_direct : is_direct parent tenant (move_subtree tenant parent t) ≡ true
  unfolding move_subtree
  move_subtree-is_direct = ground (
    arith,
    joined_is_direct tenant parent t r.keyed positive differ (find_depth_self r tenant tenant_node)
        (find_depth_self r parent parent_node) apart
        (not_zero tenant parent r positive differ tenant_node parent_node apart),
  )

  pub insert_ancestors-move_subtree :
      insert_ancestors parent tenant (move_subtree tenant parent t) ≡ move_subtree tenant parent t
  unfolding insert_ancestors
  insert_ancestors-move_subtree =
      let rel =
        related-move_subtree tenant parent r positive differ tenant_node parent_node apart in
      let apart' : related tenant parent t ≡ false = unfold related in ground arith in
      let self : related tenant tenant t ≡ true =
        unfold related in ground (arith, find_depth_self r tenant tenant_node) in
      insert_ignore_all-known parent tenant (move_subtree tenant parent t)
        (move_subtree tenant parent t) (λ a k. ground (arith, rel a parent, rel a tenant))
