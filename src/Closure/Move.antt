-- ===== src/Closure/Move.antt =====
-- Moving a subtree under a new parent (TenantClosureUpdateSubtree), against the forest.
use Prim.Native.Nat.add
use passport.Base.{
  ℕ, zero, suc, ◌+◌, ◌-◌, ◌≤◌, ◌<◌, ◌≡◌, ◌≢◌, ◌⊎◌, refl, sym, ◌∙◌, inl, inr, true, ◌&&◌, ◌||◌, none,
  some, arith, ltb, ◌==◌, if◌then◌else◌, Bool-cases, Option-cases,
}
use passport.Closure.{Table, find_depth, related, move_subtree}
use passport.Closure.Lookup.{least, joined}
use passport.Closure.Stored.{left, find_depth-move_subtree, move_subtree-IsKeyed}
use passport.Closure.Forest.{
  Forest, Represents, climb, climb-add, find_depth_self, find_depth_trans, find_depth-between,
}

-- The forest with a tenant hung under another parent.
abbrev pub hang : ℕ → ℕ → Forest → Forest
hang tenant parent f = record f { parent = λ x. if x == tenant then some parent else f.parent x }

module _ (tenant parent : ℕ) {f : Forest} {t : Table} (r : Represents f t) (positive : 0 < parent)
    (differ : tenant ≢ parent) (tenant_node : f.node tenant ≡ true)
    (parent_node : f.node parent ≡ true) (apart : find_depth tenant parent t ≡ none) where
  pub not_zero : find_depth parent tenant t ≢ some 0
  not_zero e = let s = r.sound parent tenant 0 e in unfold climb in ground (arith, s.1)

  stored :
      (a d : ℕ)
      → find_depth a d (move_subtree tenant parent t)
        ≡ least (left tenant parent t a d) (joined (find_depth a parent t) (find_depth tenant d t))
  stored =
      find_depth-move_subtree tenant parent t r.keyed positive differ
        (find_depth_self r tenant tenant_node) (find_depth_self r parent parent_node) apart not_zero

  -- No tenant below `tenant` is an ancestor of the new parent.
  not_above_parent : (a x : ℕ) → find_depth tenant a t ≡ some x → find_depth a parent t ≡ none
  not_above_parent a x below = elim (Option-cases (find_depth a parent t)) [
    | inl e ↦ e
    | inr (y, above) ↦ absurd (cc (find_depth_trans r tenant a parent x y below above))
  ]

  outside_up :
      (d q : ℕ)
      → f.node d ≡ true
      → f.parent d ≡ some q
      → find_depth tenant d t ≡ none
      → find_depth tenant q t ≡ none
  outside_up d q h up out = elim (Option-cases (find_depth tenant q t)) [
    | inl e ↦ e
    | inr (x, e) ↦
        let s = r.sound tenant q x e in
        let e' = r.complete tenant d (suc x) h (unfold climb in ground (arith, s.1)) in absurd (cc)
  ]

  -- Strictly below `tenant` is not `tenant`.
  below-ne : (j d : ℕ) → f.node d ≡ true → climb f (suc j) d ≡ some tenant → d ≢ tenant
  below-ne j d h e same =
      let z = r.complete tenant d (suc j) h e in ground (arith, find_depth_self r d h)

  -- Outside the subtree every path stays.
  climb-hang_outside :
      (k d : ℕ)
      → f.node d ≡ true
      → find_depth tenant d t ≡ none
      → climb (hang tenant parent f) k d ≡ climb f k d
  unfolding climb
  climb-hang_outside zero d h out = refl
  climb-hang_outside (suc k) d h out = elim (Option-cases (f.parent d)) [
    | inl top ↦ ground (arith, find_depth_self r tenant tenant_node)
    | inr (q, up) ↦ ground (
      arith,
      find_depth_self r tenant tenant_node,
      climb-hang_outside k q (r.closed d q h up) (outside_up d q h up out),
    )
  ]

  -- Inside it a path goes up to `tenant` as before, and on from the new parent.
  climb-hang_inside :
      (j i d : ℕ)
      → f.node d ≡ true
      → climb f j d ≡ some tenant
      → climb (hang tenant parent f) (suc (j + i)) d ≡ climb f i parent
  unfolding climb
  climb-hang_inside zero i d h e =
      rw (add.zero i) (ground (arith, climb-hang_outside i parent parent_node apart))
  climb-hang_inside (suc j) i d h e = elim (Option-cases (f.parent d)) [
    | inl top ↦ absurd (cc top)
    | inr (q, up) ↦
        let e' : climb f j q ≡ some tenant = ground arith in
        let ne = below-ne j d h e in
        rw (add.suc j i) (ground (arith, climb-hang_inside j i q (r.closed d q h up) e', ne))
  ]

  climb-hang_within :
      (k m d : ℕ)
      → f.node d ≡ true
      → climb f (k + m) d ≡ some tenant
      → climb (hang tenant parent f) k d ≡ climb f k d
  unfolding climb
  climb-hang_within zero m d h e = refl
  climb-hang_within (suc k) m d h e =
      let e0 : climb f (suc (k + m)) d ≡ some tenant = rw (add.suc k m) at e in
      elim (Option-cases (f.parent d)) [
        | inl top ↦ absurd (cc top)
        | inr (q, up) ↦
            let ne = below-ne (k + m) d h e0 in
            let e' : climb f (k + m) q ≡ some tenant = ground arith in
            ground (arith, climb-hang_within k m q (r.closed d q h up) e', ne)
      ]

  -- A pair that ends outside the subtree keeps its row, or stays without one.
  moved_outside :
      (a d : ℕ)
      → find_depth tenant d t ≡ none
      → find_depth a d (move_subtree tenant parent t) ≡ find_depth a d t
  moved_outside a d out =
      stored a d ∙ unfold left related in ground (arith, find_depth_self r tenant tenant_node)

  -- Inside it a pair keeps its row if it starts in the subtree too.
  moved_within :
      (a d x j : ℕ)
      → find_depth tenant a t ≡ some x
      → find_depth tenant d t ≡ some j
      → find_depth a d (move_subtree tenant parent t) ≡ find_depth a d t
  moved_within a d x j above below =
      stored a d
      ∙ unfold left related in
        ground (
          arith,
          find_depth_self r tenant tenant_node,
          not_above_parent a x above,
          find_depth_trans r tenant a tenant x 1 above,
        )

  -- Any other pair loses its row.
  moved_away :
      (a d j : ℕ)
      → find_depth tenant a t ≡ none
      → find_depth a parent t ≡ none
      → find_depth tenant d t ≡ some j
      → find_depth a d (move_subtree tenant parent t) ≡ none
  moved_away a d j out not_above below =
      stored a d ∙ unfold left related in ground (arith, find_depth_self r parent parent_node)

  -- A pair whose start is an ancestor of the new parent gets the new depth, or keeps a smaller one.
  moved_under :
      (a d i j : ℕ)
      → find_depth a parent t ≡ some i
      → find_depth tenant d t ≡ some j
      → find_depth a d (move_subtree tenant parent t)
        ≡ least (left tenant parent t a d) (some (i + j + 1))
  moved_under a d i j above below = stored a d ∙ rw (above, below) refl

  -- An ancestor of the new parent that also was one of the moved subtree was above its top.
  shared_ancestor :
      (a d i j m : ℕ)
      → find_depth a parent t ≡ some i
      → find_depth tenant d t ≡ some j
      → find_depth a d t ≡ some m
      → (x : ℕ) × (m ≡ j + x) × (find_depth a tenant t ≡ some x)
  shared_ancestor a d i j m above below far = elim (Bool-cases (ltb m j)) [
    | inl near ↦
        let e : m + (j - m) ≡ j = ground arith in
        let top = find_depth-between r tenant a d (j - m) m (rw e below) far in
        absurd (cc (not_above_parent a (j - m) top))
    | inr not_near ↦
        let e : j + (m - j) ≡ m = ground arith in
        (m - j, sym e, find_depth-between r a tenant d (m - j) j (rw e far) below)
  ]

  left_cases :
      (a d : ℕ) → (left tenant parent t a d ≡ none) ⊎ (left tenant parent t a d ≡ find_depth a d t)
  unfolding left
  left_cases a d = ground arith

  -- The common ancestors of the moved tenant and its new parent are farther from the tenant.
  abbrev ComesNearer : Type 0
  ComesNearer =
      (a m i : ℕ) → find_depth a tenant t ≡ some m → find_depth a parent t ≡ some i → i < m

  module _ (nearer : ComesNearer) where
    moved_nearer :
        (a d i j : ℕ)
        → find_depth a parent t ≡ some i
        → find_depth tenant d t ≡ some j
        → find_depth a d (move_subtree tenant parent t) ≡ some (i + j + 1)
    moved_nearer a d i j above below = elim (Option-cases (find_depth a d t)) [
      | inl e ↦ ground (arith, moved_under a d i j above below, left_cases a d)
      | inr (m, e) ↦
          let (x, shift, top) = shared_ancestor a d i j m above below e in
          ground (arith, moved_under a d i j above below, left_cases a d, nearer a x i top above)
    ]

    sound_inside :
        (a d j k : ℕ)
        → find_depth tenant d t ≡ some j
        → find_depth a d (move_subtree tenant parent t) ≡ some k
        → climb (hang tenant parent f) k d ≡ some a
    sound_inside a d j k below e = elim (Option-cases (find_depth a parent t)) [
      | inl not_above ↦ elim (Option-cases (find_depth tenant a t)) [
        | inl out ↦ absurd (cc (moved_away a d j out not_above below))
        | inr (x, inside) ↦
            let old : find_depth a d t ≡ some k = sym (moved_within a d x j inside below) ∙ e in
            let s = r.sound a d k old in
            climb-hang_within k x d s.0 (climb-add f k x d a s.1 ∙ (r.sound tenant a x inside).1)
            ∙ s.1
      ]
      | inr (i, above) ↦
          let s = r.sound tenant d j below in
          let depth : k ≡ suc (j + i) = ground (arith, moved_nearer a d i j above below) in
          rw depth (climb-hang_inside j i d s.0 s.1 ∙ (r.sound a parent i above).1)
    ]

    complete_inside :
        (a d j k : ℕ)
        → find_depth tenant d t ≡ some j
        → climb (hang tenant parent f) k d ≡ some a
        → find_depth a d (move_subtree tenant parent t) ≡ some k
    complete_inside a d j k below e = elim (Bool-cases (ltb j k)) [
      | inl beyond ↦
          let s = r.sound tenant d j below in
          let i = k - j - 1 in
          let depth : k ≡ suc (j + i) = ground arith in
          let e' : climb (hang tenant parent f) (suc (j + i)) d ≡ some a = rw (← depth) e in
          let above =
            r.complete a parent i parent_node (sym (climb-hang_inside j i d s.0 s.1) ∙ e') in
          ground (arith, moved_nearer a d i j above below)
      | inr within ↦
          let s = r.sound tenant d j below in
          let total : k + (j - k) ≡ j = ground arith in
          let path : climb f (k + (j - k)) d ≡ some tenant = rw total s.1 in
          let old = r.complete a d k s.0 (sym (climb-hang_within k (j - k) d s.0 path) ∙ e) in
          let inside = find_depth-between r tenant a d (j - k) k (rw total below) old in
          moved_within a d (j - k) j inside below ∙ old
    ]

    -- On the table of a forest that has both tenants, TenantClosureUpdateSubtree under a parent
    -- that is not 0, not the tenant, not in its subtree, and nearer than the tenant to each of
    -- their common ancestors, leaves exactly the table of the forest with the tenant hung under
    -- the new parent.
    pub move_subtree-Represents : Represents (hang tenant parent f) (move_subtree tenant parent t)
    move_subtree-Represents = record {
      keyed =
          move_subtree-IsKeyed tenant parent t r.keyed positive differ
            (find_depth_self r tenant tenant_node) (find_depth_self r parent parent_node) apart
            not_zero;
      closed = λ d q h e. ground (arith, r.closed d q);
      sound = λ a d k e. elim (Option-cases (find_depth tenant d t)) [
        | inl out ↦
            let s = r.sound a d k (sym (moved_outside a d out) ∙ e) in
            (s.0, climb-hang_outside k d s.0 out ∙ s.1)
        | inr (j, below) ↦ ((r.sound tenant d j below).0, sound_inside a d j k below e)
      ];
      complete = λ a d k h e. elim (Option-cases (find_depth tenant d t)) [
        | inl out ↦
            moved_outside a d out ∙ r.complete a d k h (sym (climb-hang_outside k d h out) ∙ e)
        | inr (j, below) ↦ complete_inside a d j k below e
      ];
    }

  -- On the table of a forest that has both tenants, TenantClosureUpdateSubtree under any parent
  -- that is not 0, not the tenant and not in its subtree keeps the pairs that end outside the
  -- subtree; a pair that ends inside is related afterwards if and only if it was and starts inside
  -- too, or it starts at the new parent or an ancestor of that.
  pub related-move_subtree :
      (a d : ℕ)
      → related a d (move_subtree tenant parent t) ≡ (
          if related tenant d t
          then (related tenant a t && related a d t) || related a parent t
          else related a d t)
  unfolding related
  related-move_subtree a d = elim (Option-cases (find_depth tenant d t)) [
    | inl out ↦ ground (arith, moved_outside a d out)
    | inr (j, below) ↦ elim (Option-cases (find_depth tenant a t)) [
      | inl outside ↦ elim (Option-cases (find_depth a parent t)) [
        | inl not_above ↦ ground (arith, moved_away a d j outside not_above below)
        | inr (i, above) ↦ ground (arith, moved_under a d i j above below, left_cases a d)
      ]
      | inr (x, inside) ↦
          ground (arith, moved_within a d x j inside below, not_above_parent a x inside)
    ]
  ]

  -- On the table of a forest that has both tenants, and for a parent that is not 0, not the tenant
  -- and not in its subtree: if an ancestor of both is no farther from the tenant than from the
  -- parent, then after TenantClosureUpdateSubtree every tenant strictly below the moved one keeps
  -- its old depth to that ancestor, which is smaller than the length of the path through the new
  -- parent.
  pub move_subtree_stale :
      (a d i j m : ℕ)
      → find_depth a parent t ≡ some i
      → find_depth a tenant t ≡ some m
      → find_depth tenant d t ≡ some (suc j)
      → m ≤ i
      → (find_depth a d (move_subtree tenant parent t) ≡ some (suc j + m))
        × (climb (hang tenant parent f) (suc (suc j + i)) d ≡ some a)
        × (suc j + m < suc (suc j + i))
  move_subtree_stale a d i j m above top below no_nearer =
      let old = find_depth_trans r a tenant d m (suc j) top below in
      let s = r.sound tenant d (suc j) below in
      let kept_row : left tenant parent t a d ≡ find_depth a d t =
        unfold left related in ground (arith, find_depth_self r tenant tenant_node) in
      (
        ground (arith, moved_under a d i (suc j) above below),
        climb-hang_inside (suc j) i d s.0 s.1 ∙ (r.sound a parent i above).1,
        omega arith,
      )
