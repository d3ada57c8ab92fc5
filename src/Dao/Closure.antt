-- ===== src/Dao/Closure.antt =====
-- dao/tenant_closure.dao.go and dao/tenant_closure_v2.dao.go: the statements in their order, each of
-- which may fail. The queries that only feed the debug log are left out.
pub mod Update
pub mod Moving
use passport.Base.{
  contains, ℕ, Bool, true, false, Option, none, some, List, [], ◌∷◌, ◌++◌, not, ◌&&◌, ◌||◌, ltb,
  ◌==◌, if◌then◌else◌,
}
use passport.Errors.{Error, Result, ok, err}
use passport.World.{World, Exec, pure, raise, query, ◌>>=◌, ◌>>◌, exec, when, require, attempt}
use passport.Closure.{
  Row, row, Table, find_depth, related, insert_ignore, insert_ancestors, delete_old,
  delete_old_parent, insert_joined, is_direct, insert_direct,
}

-- The rows of sqlCheckCircularReference: each is an ancestor of a tenant that is an ancestor of it.
unfoldable pub circular_rows : Table → Table → List Row
unfolding related
circular_rows t [] = []
circular_rows t (r ∷ rest) =
    let others = circular_rows t rest in
    if related r.descendant r.ancestor t && not (r.ancestor == r.descendant)
    then r ∷ others
    else others

-- `if !seen[x] { nodes = append(nodes, x); seen[x] = true }`
unfoldable pub add_new : ℕ → List ℕ → List ℕ
add_new x nodes = if contains x nodes then nodes else nodes ++ x ∷ []

-- The loop of DetectCircularReference.
unfoldable pub circular_nodes : List Row → List ℕ → List ℕ
unfolding add_new
circular_nodes [] nodes = nodes
circular_nodes (r ∷ rows) nodes =
    circular_nodes rows (add_new r.descendant (add_new r.ancestor nodes))

module _ {P : Type 0} where
  -- A statement on the closure table.
  abbrev pub on_closure : (Table → Table) → Exec P (Unit {0})
  on_closure f = exec (λ w. record w { closure = f w.closure })

  -- TenantClosureInsert
  unfoldable pub tenant_closure_insert : ℕ → ℕ → Exec P (Unit {0})
  unfolding exec insert_ignore insert_ancestors
  tenant_closure_insert ancestor_id descendant_id = do
    on_closure (insert_ignore (row descendant_id descendant_id 0))
    on_closure (insert_ignore (row ancestor_id descendant_id 1))
    on_closure (insert_ancestors ancestor_id descendant_id)

  -- TenantClosureIsDescendant; `none` is the source's -1
  unfoldable pub tenant_closure_is_descendant : ℕ → ℕ → Exec P (Option ℕ)
  unfolding query find_depth
  tenant_closure_is_descendant ancestor_id descendant_id =
      query (λ w. find_depth ancestor_id descendant_id w.closure)

  -- DetectCircularReference
  unfoldable pub detect_circular_reference : Exec P (List ℕ)
  unfolding query circular_rows circular_nodes
  detect_circular_reference = do
    rows ← query (λ w. circular_rows w.closure w.closure)
    pure (circular_nodes rows [])

  -- `SELECT COUNT(*) … WHERE ancestor_id = a AND descendant_id = d`, above 0
  unfoldable pub is_ancestor : ℕ → ℕ → Exec P Bool
  unfolding query related
  is_ancestor a d = query (λ w. related a d w.closure)

  -- sqlCheckDirectRelation
  unfoldable pub check_direct_relation : ℕ → ℕ → Exec P Bool
  unfolding query is_direct
  check_direct_relation a d = query (λ w. is_direct a d w.closure)

  -- The check for a cycle of TenantClosureUpdateSubtree.
  unfoldable pub refuse_cycle : ℕ → ℕ → Exec P (Unit {0})
  unfolding is_ancestor
  refuse_cycle tenant_id new_parent_id =
      if ltb 0 new_parent_id
      then (do
        below ← is_ancestor tenant_id new_parent_id
        require (not below) Error.circular_reference)
      else pure tt

  -- Step 2 of TenantClosureUpdateSubtree.
  unfoldable pub hang_under : ℕ → ℕ → Exec P (Unit {0})
  unfolding exec check_direct_relation insert_joined insert_direct
  hang_under tenant_id new_parent_id = do
    on_closure (insert_joined tenant_id new_parent_id)
    direct ← check_direct_relation new_parent_id tenant_id
    when (not direct) (on_closure (insert_direct new_parent_id tenant_id))

  -- TenantClosureUpdateSubtree
  unfoldable pub tenant_closure_update_subtree : ℕ → ℕ → Exec P (Unit {0})
  unfolding exec refuse_cycle hang_under delete_old delete_old_parent
  tenant_closure_update_subtree tenant_id new_parent_id =
      if tenant_id == 0 then raise Error.other else do
        refuse_cycle tenant_id new_parent_id
        on_closure (delete_old tenant_id new_parent_id)
        on_closure (delete_old_parent tenant_id new_parent_id)
        when (ltb 0 new_parent_id) (hang_under tenant_id new_parent_id)

  -- EnsureTenantClosureConsistency
  unfoldable pub ensure_tenant_closure_consistency : ℕ → ℕ → Exec P (Unit {0})
  unfolding exec check_direct_relation insert_direct insert_ancestors
  ensure_tenant_closure_consistency tenant_id parent_id =
      if tenant_id == 0 || parent_id == 0 then pure tt else do
        direct ← check_direct_relation parent_id tenant_id
        when (not direct) (on_closure (insert_direct parent_id tenant_id))
        on_closure (insert_ancestors parent_id tenant_id)

  -- The checks of TenantClosureUpdateSubtreeV2Safe after the move. A failure of the first and the
  -- last is logged only.
  unfoldable pub verify_move : ℕ → ℕ → Exec P (Unit {0})
  unfolding ensure_tenant_closure_consistency check_direct_relation detect_circular_reference
  verify_move tenant_id new_parent_id = do
    attempt (ensure_tenant_closure_consistency tenant_id new_parent_id)
    direct ← check_direct_relation new_parent_id tenant_id
    require direct Error.other
    attempt detect_circular_reference
    pure tt

  -- TenantClosureUpdateSubtreeV2Safe
  unfoldable pub tenant_closure_update_subtree_safe : ℕ → ℕ → Exec P (Unit {0})
  unfolding tenant_closure_update_subtree verify_move
  tenant_closure_update_subtree_safe tenant_id new_parent_id = do
    tenant_closure_update_subtree tenant_id new_parent_id
    when (ltb 0 new_parent_id) (verify_move tenant_id new_parent_id)
