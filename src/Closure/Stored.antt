-- ===== src/Closure/Stored.antt =====
-- The depths stored after the statements of TenantClosureUpdateSubtree.
use passport.Base.{ℕ, ◌<◌, ◌≡◌, ◌≢◌, refl, ◌∙◌, true, not, Option, none, some, arith}
use passport.Closure.{
  Table, find_depth, related, delete_old, delete_old_parent, insert_joined, is_direct,
  leaves_subtree, is_old_parent, move_subtree,
}
use passport.Closure.Lookup.{IsKeyed, kept, least, joined}
use passport.Closure.Statements.{
  find_depth-delete_old, find_depth-delete_old_parent, find_depth-insert_joined, delete_old-IsKeyed,
  delete_old_parent-IsKeyed, insert_joined-IsKeyed,
}

-- The depths that both DELETEs leave.
unfoldable pub left : ℕ → ℕ → Table → ℕ → ℕ → Option ℕ
unfolding leaves_subtree is_old_parent related
left tenant parent t a d =
    kept (λ r. not (is_old_parent tenant parent r)) a d
      (kept (λ r. not (leaves_subtree tenant parent t r)) a d (find_depth a d t))

-- The tables that the statements of a move leave, one after the other.
module _ (tenant parent : ℕ) (t : Table) (keyed : IsKeyed t) (positive : 0 < parent)
    (differ : tenant ≢ parent) (tenant_self : find_depth tenant tenant t ≡ some 0)
    (parent_self : find_depth parent parent t ≡ some 0) (apart : find_depth tenant parent t ≡ none)
    (not_zero : find_depth parent tenant t ≢ some 0) where
  find_depth-deleted :
      (a d : ℕ)
      → find_depth a d (delete_old_parent tenant parent (delete_old tenant parent t))
        ≡ left tenant parent t a d
  unfolding left
  find_depth-deleted a d =
      find_depth-delete_old_parent tenant parent (delete_old tenant parent t) a d
        (delete_old-IsKeyed tenant parent t keyed)
      ∙ rw (find_depth-delete_old tenant parent t a d keyed)

  left-above : (a : ℕ) → left tenant parent t a parent ≡ find_depth a parent t
  unfolding left
  left-above a = ground arith

  left-below : (d : ℕ) → left tenant parent t tenant d ≡ find_depth tenant d t
  unfolding left
  left-below d = ground arith

  find_depth-joined :
      (a d : ℕ)
      → find_depth a d (
          insert_joined tenant parent
            (delete_old_parent tenant parent (delete_old tenant parent t)))
        ≡ least (left tenant parent t a d) (joined (find_depth a parent t) (find_depth tenant d t))
  find_depth-joined a d =
      find_depth-insert_joined tenant parent _ a d
        (delete_old_parent-IsKeyed tenant parent _ (delete_old-IsKeyed tenant parent t keyed))
      ∙ rw (find_depth-deleted a d, find_depth-deleted a parent, find_depth-deleted tenant d)
          (rw (left-above a, left-below d) refl)

  left-parent : left tenant parent t parent tenant ≡ find_depth parent tenant t
  unfolding left
  left-parent = ground arith

  -- The direct edge to the new parent is always there already.
  pub joined_is_direct :
      is_direct parent tenant
        (insert_joined tenant parent (delete_old_parent tenant parent (delete_old tenant parent t)))
      ≡ true
  unfolding is_direct
  joined_is_direct = ground (arith, find_depth-joined parent tenant, left-parent, not_zero)

  pub find_depth-move_subtree :
      (a d : ℕ)
      → find_depth a d (move_subtree tenant parent t)
        ≡ least (left tenant parent t a d) (joined (find_depth a parent t) (find_depth tenant d t))
  unfolding move_subtree
  find_depth-move_subtree a d = ground (arith, joined_is_direct, find_depth-joined a d)

  pub move_subtree-IsKeyed : IsKeyed (move_subtree tenant parent t)
  unfolding move_subtree
  move_subtree-IsKeyed = ground (
    arith,
    joined_is_direct,
    insert_joined-IsKeyed tenant parent
        (delete_old_parent tenant parent (delete_old tenant parent t))
        (delete_old_parent-IsKeyed tenant parent (delete_old tenant parent t)
          (delete_old-IsKeyed tenant parent t keyed)),
  )
