-- ===== src/Closure/Forest.antt =====
-- The forest that a closure table stands for.
use Prim.Native.Nat.add
use passport.Base.{
  ℕ, zero, suc, ◌+◌, ◌≡◌, refl, sym, ◌∙◌, inl, inr, Bool, true, Option, none, some, arith,
  Option-cases,
}
use passport.Closure.{Table, find_depth}
use passport.Closure.Lookup.{IsKeyed}

-- A forest of tenants: which ids are tenants, and the parent of each.
pub record Forest : Type 0 where
  pub node : ℕ → Bool
  pub parent : ℕ → Option ℕ

-- The ancestor that lies `k` steps above a tenant.
unfoldable pub climb : Forest → ℕ → ℕ → Option ℕ
climb f zero d = some d
climb f (suc k) d = elim (f.parent d) [ none ↦ none | some p ↦ climb f k p ]

-- A table stands for a forest if it holds exactly the ancestors of each tenant, itself included,
-- with their distances.
pub record Represents (f : Forest) (t : Table) : Type 0 where
  pub keyed : IsKeyed t
  pub closed : (d p : ℕ) → f.node d ≡ true → f.parent d ≡ some p → f.node p ≡ true
  pub sound : (a d k : ℕ) → find_depth a d t ≡ some k → (f.node d ≡ true) × (climb f k d ≡ some a)
  pub complete : (a d k : ℕ) → f.node d ≡ true → climb f k d ≡ some a → find_depth a d t ≡ some k

-- A climb goes on from where an earlier one ended.
pub climb-add : (f : Forest) (k m d a : ℕ) → climb f k d ≡ some a → climb f (k + m) d ≡ climb f m a
unfolding climb
climb-add f zero m d a e = rw (add.zero m) (ground arith)
climb-add f (suc k) m d a e = elim (Option-cases (f.parent d)) [
  | inl no_parent ↦ absurd (cc no_parent)
  | inr (q, up) ↦ rw (add.suc k m) (ground (arith, climb-add f k m q a))
]

module _ {f : Forest} {t : Table} (r : Represents f t) where
  pub depth_unique :
      (a d j k : ℕ) → f.node d ≡ true → climb f j d ≡ some a → climb f k d ≡ some a → j ≡ k
  depth_unique a d j k h e e' = cc (r.complete a d j h e, r.complete a d k h e')

  pub find_depth_self : (d : ℕ) → f.node d ≡ true → find_depth d d t ≡ some 0
  find_depth_self d h = r.complete d d 0 h (unfold climb in refl)

  pub climb-node : (k d a : ℕ) → f.node d ≡ true → climb f k d ≡ some a → f.node a ≡ true
  unfolding climb
  climb-node zero d a h e = ground arith
  climb-node (suc k) d a h e = elim (Option-cases (f.parent d)) [
    | inl no_parent ↦ ground arith
    | inr (q, up) ↦ climb-node k q a (r.closed d q h up) (ground arith)
  ]

  -- Distances add up.
  pub find_depth_trans :
      (a b d i j : ℕ)
      → find_depth a b t ≡ some i
      → find_depth b d t ≡ some j
      → find_depth a d t ≡ some (j + i)
  find_depth_trans a b d i j above below =
      let lower = r.sound b d j below in
      r.complete a d (j + i) lower.0 (climb-add f j i d b lower.1 ∙ (r.sound a b i above).1)

  -- Between two ancestors of a tenant the farther one is an ancestor of the nearer.
  pub find_depth-between :
      (a b d m j : ℕ)
      → find_depth a d t ≡ some (j + m)
      → find_depth b d t ≡ some j
      → find_depth a b t ≡ some m
  find_depth-between a b d m j far near =
      let lower = r.sound b d j near in
      r.complete a b m (climb-node j d b lower.0 lower.1)
        (sym (climb-add f j m d b lower.1) ∙ (r.sound a d (j + m) far).1)
