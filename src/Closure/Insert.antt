-- ===== src/Closure/Insert.antt =====
-- TenantClosureInsert adds a leaf to the forest.
use passport.Base.{
  ℕ, zero, suc, ◌≡◌, ◌≢◌, refl, sym, ◌∙◌, inl, inr, true, false, ◌||◌, none, some, arith, ◌==◌,
  if◌then◌else◌, Bool-cases, Option-cases,
}
use passport.Closure.{Table, find_depth, insert_tenant}
use passport.Closure.Lookup.{or_else, deeper}
use passport.Closure.Statements.{find_depth-insert_tenant, insert_tenant-IsKeyed}
use passport.Closure.Forest.{Forest, Represents, climb, climb-node, find_depth_self}

-- A new leaf.
abbrev pub add_leaf : ℕ → ℕ → Forest → Forest
add_leaf p n f = record {
  node = λ x. x == n || f.node x;
  parent = λ x. if x == n then some p else f.parent x;
}

module _ (p n : ℕ) (f : Forest) {t : Table} (r : Represents f t) (fresh : f.node n ≡ false)
    (is_node : f.node p ≡ true) where
  climb-add_leaf : (k d : ℕ) → f.node d ≡ true → climb (add_leaf p n f) k d ≡ climb f k d
  unfolding climb
  climb-add_leaf zero d h = refl
  climb-add_leaf (suc k) d h = elim (Option-cases (f.parent d)) [
    | inl e ↦ ground arith
    | inr (q, e) ↦ ground (arith, climb-add_leaf k q (r.closed d q h e))
  ]

  climb-add_leaf_new : (k : ℕ) → climb (add_leaf p n f) (suc k) n ≡ climb f k p
  unfolding climb
  climb-add_leaf_new k = ground (arith, climb-add_leaf k p is_node)

  -- Nothing is stored about a fresh id.
  find_depth-fresh_descendant : (a : ℕ) → find_depth a n t ≡ none
  find_depth-fresh_descendant a = elim (Option-cases (find_depth a n t)) [
    | inl e ↦ e
    | inr (k, e) ↦ absurd (ground (arith, r.sound a n k e))
  ]

  find_depth-fresh_ancestor : (d : ℕ) → find_depth n d t ≡ none
  find_depth-fresh_ancestor d = elim (Option-cases (find_depth n d t)) [
    | inl e ↦ e
    | inr (k, e) ↦ let s = r.sound n d k e in absurd (ground (arith, climb-node r k d n s.0 s.1))
  ]

  p-ne-n : p ≢ n
  p-ne-n e = ground arith

  stored :
      (a d : ℕ)
      → find_depth a d (insert_tenant p n t)
        ≡ or_else (find_depth a d t) (
            if d == n
            then (if a == n then some 0 else if a == p then some 1 else deeper (find_depth a p t))
            else none)
  stored a d = find_depth-insert_tenant p n t a d p-ne-n

  insert_sound_new :
      (a k : ℕ)
      → find_depth a n (insert_tenant p n t) ≡ some k
      → climb (add_leaf p n f) k n ≡ some a
  insert_sound_new a zero e =
      unfold climb in
      ground (arith, stored a n, find_depth-fresh_descendant a, find_depth_self r p is_node)
  insert_sound_new a (suc k) e =
      climb-add_leaf_new k
      ∙ ground (
        arith,
        stored a n,
        find_depth-fresh_descendant a,
        find_depth_self r p is_node,
        r.sound a p k,
      )

  insert_complete_new :
      (a k : ℕ)
      → climb (add_leaf p n f) k n ≡ some a
      → find_depth a n (insert_tenant p n t) ≡ some k
  insert_complete_new a zero e =
      unfold climb in ground (arith, stored a n, find_depth-fresh_descendant a)
  insert_complete_new a (suc k) e =
      let above : climb f k p ≡ some a = sym (climb-add_leaf_new k) ∙ e in
      ground (
        arith,
        stored a n,
        find_depth-fresh_descendant a,
        find_depth_self r p is_node,
        r.complete a p k is_node above,
        climb-node r k p a is_node above,
      )

  insert_sound :
      (a d k : ℕ)
      → find_depth a d (insert_tenant p n t) ≡ some k
      → ((add_leaf p n f).node d ≡ true) × (climb (add_leaf p n f) k d ≡ some a)
  insert_sound a d k e = elim (Bool-cases (d == n)) [
    | inl new ↦ (ground arith, ground (arith, insert_sound_new a k))
    | inr old ↦
        let s = r.sound a d k (ground (arith, stored a d)) in
        (ground arith, climb-add_leaf k d s.0 ∙ s.1)
  ]

  insert_complete :
      (a d k : ℕ)
      → (add_leaf p n f).node d ≡ true
      → climb (add_leaf p n f) k d ≡ some a
      → find_depth a d (insert_tenant p n t) ≡ some k
  insert_complete a d k h e = elim (Bool-cases (d == n)) [
    | inl new ↦ ground (arith, insert_complete_new a k)
    | inr old ↦
        let known : f.node d ≡ true = ground arith in
        ground (arith, stored a d, climb-add_leaf k d known, r.complete a d k known)
  ]

  -- On the table of a forest that has the parent and does not have the new tenant,
  -- TenantClosureInsert leaves exactly the table of the forest with the tenant added as a leaf
  -- below the parent.
  pub insert_tenant-Represents : Represents (add_leaf p n f) (insert_tenant p n t)
  insert_tenant-Represents = record {
    keyed = insert_tenant-IsKeyed p n t r.keyed;
    closed = λ d q h e. ground (arith, r.closed d q);
    sound = insert_sound;
    complete = insert_complete;
  }
