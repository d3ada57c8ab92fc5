-- ===== src/Dao/Closure/Update.antt =====
-- TenantClosureUpdateSubtree and the checks after it: what they leave of the closure table.
use passport.Base.{
  ℕ, ◌<◌, ap, ◌∙◌, none, ◌≡◌, ◌≢◌, refl, true, false, not, ltb, ◌==◌, arith, [], ◌||◌,
}
use passport.Errors.{Error}
use passport.Closure.{
  Table, related, find_depth, move_subtree, is_direct, insert_direct, insert_ancestors,
}
use passport.Closure.Forest.{Forest, Represents}
use passport.Closure.Settled.{move_subtree-is_direct, insert_ancestors-move_subtree}
use passport.World.{World, require, when, query, attempt}
use passport.Hoare.{
  Outcome, Triple, Triple-bind, Triple-if, Triple-pure, Triple-require, Triple-exec, Triple-query,
  Triple-weaken, Triple-when, Triple-attempt,
}
use passport.Dao.Closure.{
  ensure_tenant_closure_consistency, verify_move, detect_circular_reference, circular_rows,
  circular_nodes, check_direct_relation, tenant_closure_update_subtree,
  tenant_closure_update_subtree_safe, on_closure,
}
use passport.Dao.Closure.Moving.{IsTable, Any, update_subtree-Triple}

module _ {P : Type 0} where
  -- On a table that the move has left right, the checks after it write nothing new.
  ensure-Triple :
      (tenant_id new_parent_id : ℕ) (t : Table)
      → is_direct new_parent_id tenant_id t ≡ true
      → insert_ancestors new_parent_id tenant_id t ≡ t
      → Triple {P = P}
          (IsTable t)
          (ensure_tenant_closure_consistency tenant_id new_parent_id)
          (λ _. IsTable t)
          (IsTable t)
  unfolding ensure_tenant_closure_consistency check_direct_relation
  ensure-Triple tenant_id new_parent_id t direct whole =
      Triple-if (tenant_id == 0 || new_parent_id == 0) _ _ (λ _. Triple-pure tt (λ w e. e))
        (λ _.
          Triple-bind (λ b w. IsTable t w × (b ≡ true))
            (check_direct_relation new_parent_id tenant_id) _
            (Triple-query (λ w. is_direct new_parent_id tenant_id w.closure) (λ w fs e. e)
              (λ w fs e. e) (λ w e. (e, ap (is_direct new_parent_id tenant_id) e ∙ direct)))
            (λ b.
              Triple-bind (λ _. IsTable t)
                (when (not b) (on_closure (insert_direct new_parent_id tenant_id))) _
                (Triple-when (not b) (on_closure (insert_direct new_parent_id tenant_id))
                  (λ e. record { at = λ w k. absurd (ground (arith, k.1)) }) (λ w k _. k.0))
                (λ _.
                  Triple-exec
                    (λ w. record w { closure = insert_ancestors new_parent_id tenant_id w.closure })
                    (λ w fs e. e) (λ w fs e. e)
                    (λ w e. ap (insert_ancestors new_parent_id tenant_id) e ∙ whole))))

  verify_move-Triple :
      (tenant_id new_parent_id : ℕ) (t : Table)
      → is_direct new_parent_id tenant_id t ≡ true
      → insert_ancestors new_parent_id tenant_id t ≡ t
      → Triple {P = P} (IsTable t) (verify_move tenant_id new_parent_id) (λ _. IsTable t) Any
  unfolding verify_move detect_circular_reference check_direct_relation
  verify_move-Triple tenant_id new_parent_id t direct whole =
      Triple-bind (λ _. IsTable t)
        (attempt (ensure_tenant_closure_consistency tenant_id new_parent_id)) _
        (Triple-attempt (ensure_tenant_closure_consistency tenant_id new_parent_id)
          (ensure-Triple tenant_id new_parent_id t direct whole))
        (λ _.
          Triple-bind (λ _. IsTable t) (check_direct_relation new_parent_id tenant_id) _
            (Triple-query (λ w. is_direct new_parent_id tenant_id w.closure) (λ w fs e. tt)
              (λ w fs e. e) (λ w e. e))
            (λ b.
              Triple-bind (λ _. IsTable t) (require b Error.other) _
                (Triple-require b Error.other (λ w e _. e) (λ w e. tt))
                (λ _.
                  Triple-bind (λ _. IsTable t) (attempt detect_circular_reference) _
                    (Triple-attempt detect_circular_reference (
                      Triple-bind (λ _. IsTable t) (query (λ w. circular_rows w.closure w.closure))
                        _
                        (Triple-query (λ w. circular_rows w.closure w.closure) (λ w fs e. e)
                          (λ w fs e. e) (λ w e. e))
                        (λ rows. Triple-pure (circular_nodes rows []) (λ w e. e))))
                    (λ _. Triple-pure tt (λ w e. e)))))

  abbrev pub HasMoved : ℕ → ℕ → Table → World P → Type 0
  HasMoved tenant parent t w =
      (w.closure ≡ move_subtree tenant parent t) × (related tenant parent t ≡ false)

  -- The move and its checks, on the table of a forest.
  pub update_safe-Triple :
      (tenant parent : ℕ) (f : Forest) (t : Table)
      → Represents f t
      → 0 < parent
      → tenant ≢ parent
      → f.node tenant ≡ true
      → f.node parent ≡ true
      → Triple
          (IsTable t)
          (tenant_closure_update_subtree_safe tenant parent)
          (λ _. HasMoved tenant parent t)
          Any
  unfolding tenant_closure_update_subtree_safe
  update_safe-Triple tenant parent f t r positive differ tenant_node parent_node =
      Triple-bind (λ _. HasMoved tenant parent t) (tenant_closure_update_subtree tenant parent) _
        (update_subtree-Triple tenant parent t positive)
        (λ _. record {
          at = λ w k.
              let apart : find_depth tenant parent t ≡ none =
                unfold related in ground (arith, k.1) in
              (Triple-weaken _
                  (Triple-when (ltb 0 parent) (verify_move tenant parent)
                    (λ _.
                      verify_move-Triple tenant parent (move_subtree tenant parent t)
                        (move_subtree-is_direct tenant parent r positive differ tenant_node
                          parent_node apart)
                        (insert_ancestors-move_subtree tenant parent r positive differ tenant_node
                          parent_node apart))
                    (λ v e _. e))
                  (λ _ v e. (e, k.1))).at
                w k.0;
        })

  -- On the table of a forest that has both tenants, and whatever statements fail,
  -- TenantClosureUpdateSubtreeV2Safe does not panic. If it returns nil for a parent that is not 0
  -- nor the tenant itself, the parent was not in the tenant's subtree, and the table is what the
  -- statements of TenantClosureUpdateSubtree compute: the consistency check after them wrote
  -- nothing.
  pub tenant_closure_update_subtree_safe-Outcome :
      (tenant parent : ℕ) (f : Forest) (w : World P)
      → Represents f w.closure
      → 0 < parent
      → tenant ≢ parent
      → f.node tenant ≡ true
      → f.node parent ≡ true
      → Outcome
          (λ _. HasMoved tenant parent w.closure)
          Any
          (tenant_closure_update_subtree_safe tenant parent w).0
          (tenant_closure_update_subtree_safe tenant parent w).1
  tenant_closure_update_subtree_safe-Outcome tenant parent f w r positive differ tenant_node
        parent_node =
      (update_safe-Triple tenant parent f w.closure r positive differ tenant_node parent_node).at w
        refl
