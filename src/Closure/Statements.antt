-- ===== src/Closure/Statements.antt =====
-- What each statement on the closure table does to the depth stored for a pair.
use passport.Base.{
  ℕ, ◌+◌, ◌≡◌, ◌∙◌, ◌≢◌, not, none, some, List, [], ◌∷◌, map, arith, ◌==◌, if◌then◌else◌,
}
use passport.Closure.{
  row, Table, find_depth, insert_ignore, ancestors, descendants, leaves_subtree, delete_old,
  is_old_parent, delete_old_parent, cross_join, insert_joined, insert_tenant,
}
use passport.Closure.Lookup.{
  IsKeyed, or_else, least, joined, deeper, find_depth-insert_ignore, find_depth-insert_ignore_all,
  find_depth-upsert_least_all, kept, find_depth-keep_if, keep_if-IsKeyed, upsert_least_all-IsKeyed,
  insert_ignore-IsKeyed, insert_ignore_all-IsKeyed,
}
use passport.Closure.Pairs.{
  depth_in, depth_in-ancestors, depth_in-descendants, ancestors-IsKeyedPairs,
  descendants-IsKeyedPairs, find_depth-cross_join, cross_join-IsKeyed,
}

pub find_depth-insert_joined :
    (tenant_id new_parent_id : ℕ) (t : Table) (a d : ℕ)
    → IsKeyed t
    → find_depth a d (insert_joined tenant_id new_parent_id t)
      ≡ least (find_depth a d t) (joined (find_depth a new_parent_id t) (find_depth tenant_id d t))
unfolding insert_joined
find_depth-insert_joined tenant_id new_parent_id t a d h =
    find_depth-upsert_least_all (cross_join (ancestors new_parent_id t) (descendants tenant_id t)) t
      a d
      (cross_join-IsKeyed (ancestors new_parent_id t) (descendants tenant_id t)
        (ancestors-IsKeyedPairs new_parent_id t h) (descendants-IsKeyedPairs tenant_id t h))
    ∙ rw (
      find_depth-cross_join (ancestors new_parent_id t) (descendants tenant_id t) a d,
      depth_in-ancestors new_parent_id t a,
      depth_in-descendants tenant_id t d,
    )

pub find_depth-delete_old :
    (tenant_id new_parent_id : ℕ) (t : Table) (a d : ℕ)
    → IsKeyed t
    → find_depth a d (delete_old tenant_id new_parent_id t)
      ≡ kept (λ r. not (leaves_subtree tenant_id new_parent_id t r)) a d (find_depth a d t)
unfolding delete_old
find_depth-delete_old tenant_id new_parent_id t a d h = find_depth-keep_if _ t a d h

pub find_depth-delete_old_parent :
    (tenant_id new_parent_id : ℕ) (t : Table) (a d : ℕ)
    → IsKeyed t
    → find_depth a d (delete_old_parent tenant_id new_parent_id t)
      ≡ kept (λ r. not (is_old_parent tenant_id new_parent_id r)) a d (find_depth a d t)
unfolding delete_old_parent
find_depth-delete_old_parent tenant_id new_parent_id t a d h = find_depth-keep_if _ t a d h

-- The depths of one descendant's rows, as a list of rows for another descendant.
find_depth-deeper :
    (n : ℕ) (ps : List (ℕ × ℕ)) (a d : ℕ)
    → find_depth a d (map (λ s. row s.0 n (s.1 + 1)) ps)
      ≡ (if n == d then deeper (depth_in a ps) else none)
unfolding find_depth depth_in
find_depth-deeper n [] a d = ground arith
find_depth-deeper n (p ∷ ps) a d = ground (arith, find_depth-deeper n ps a d)

pub find_depth-insert_tenant :
    (ancestor_id descendant_id : ℕ) (t : Table) (a d : ℕ)
    → ancestor_id ≢ descendant_id
    → find_depth a d (insert_tenant ancestor_id descendant_id t)
      ≡ or_else (find_depth a d t) (
          if d == descendant_id
          then (if a == descendant_id
              then some 0
              else if a == ancestor_id
              then some 1
              else deeper (find_depth a ancestor_id t))
          else none)
unfolding insert_tenant
find_depth-insert_tenant ancestor_id descendant_id t a d ne =
    let t1 = insert_ignore (row descendant_id descendant_id 0) t in
    let t2 = insert_ignore (row ancestor_id descendant_id 1) t1 in
    find_depth-insert_ignore_all
      (map (λ s. row s.0 descendant_id (s.1 + 1)) (ancestors ancestor_id t2)) t2 a d
    ∙ ground (
      arith,
      find_depth-deeper descendant_id (ancestors ancestor_id t2) a d,
      depth_in-ancestors ancestor_id t2 a,
      find_depth-insert_ignore (row ancestor_id descendant_id 1) t1 a ancestor_id,
      find_depth-insert_ignore (row descendant_id descendant_id 0) t a ancestor_id,
      find_depth-insert_ignore (row ancestor_id descendant_id 1) t1 a d,
      find_depth-insert_ignore (row descendant_id descendant_id 0) t a d,
    )

pub insert_tenant-IsKeyed :
    (ancestor_id descendant_id : ℕ) (t : Table)
    → IsKeyed t
    → IsKeyed (insert_tenant ancestor_id descendant_id t)
unfolding insert_tenant
insert_tenant-IsKeyed ancestor_id descendant_id t h =
    search (insert_ignore_all-IsKeyed, insert_ignore-IsKeyed)

pub insert_joined-IsKeyed :
    (tenant_id new_parent_id : ℕ) (t : Table)
    → IsKeyed t
    → IsKeyed (insert_joined tenant_id new_parent_id t)
unfolding insert_joined
insert_joined-IsKeyed tenant_id new_parent_id t h = search upsert_least_all-IsKeyed

pub delete_old-IsKeyed :
    (tenant_id new_parent_id : ℕ) (t : Table)
    → IsKeyed t
    → IsKeyed (delete_old tenant_id new_parent_id t)
unfolding delete_old
delete_old-IsKeyed tenant_id new_parent_id t h = keep_if-IsKeyed _ t h

pub delete_old_parent-IsKeyed :
    (tenant_id new_parent_id : ℕ) (t : Table)
    → IsKeyed t
    → IsKeyed (delete_old_parent tenant_id new_parent_id t)
unfolding delete_old_parent
delete_old_parent-IsKeyed tenant_id new_parent_id t h = keep_if-IsKeyed _ t h
