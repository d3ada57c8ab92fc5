-- ===== src/Dao/Closure/Moving.antt =====
-- TenantClosureUpdateSubtree: what it leaves of the closure table.
use passport.Base.{ℕ, ◌<◌, ap, ◌≡◌, false, not, ltb, ◌==◌, arith, if◌then◌else◌}
use passport.Errors.{Error}
use passport.Closure.{
  Table, related, move_subtree, delete_old, delete_old_parent, insert_joined, is_direct,
  insert_direct,
}
use passport.World.{World, require, query}
use passport.Hoare.{
  Triple, Triple-bind, Triple-if, Triple-raise, Triple-require, Triple-exec, Triple-query,
  Triple-weaken, Triple-when,
}
use passport.Dao.Closure.{
  is_ancestor, refuse_cycle, hang_under, check_direct_relation, tenant_closure_update_subtree,
  on_closure,
}

module _ {P : Type 0} where
  -- The closure table is `t`.
  abbrev pub IsTable : Table → World P → Type 0
  IsTable t w = w.closure ≡ t

  -- An error says nothing of the table; the transaction of the caller takes it back.
  abbrev pub Any : World P → Type 0
  Any w = Unit

  pub on_closure-Triple :
      (f : Table → Table) (t : Table) → Triple (IsTable t) (on_closure f) (λ _. IsTable (f t)) Any
  on_closure-Triple f t =
      Triple-exec (λ w. record w { closure = f w.closure }) (λ w fs e. tt) (λ w fs e. e)
        (λ w e. ap f e)

  pub query-Triple :
      {A : Type 0} (f : Table → A) (t : Table)
      → Triple (IsTable t) (query (λ w. f w.closure)) (λ x w. IsTable t w × (x ≡ f t)) Any
  query-Triple f t =
      Triple-query (λ w. f w.closure) (λ w fs e. tt) (λ w fs e. e) (λ w e. (e, ap f e))

  pub refuse_cycle-Triple :
      (tenant_id new_parent_id : ℕ) (t : Table)
      → 0 < new_parent_id
      → Triple
          (IsTable t)
          (refuse_cycle tenant_id new_parent_id)
          (λ _ w. IsTable t w × (related tenant_id new_parent_id t ≡ false))
          Any
  unfolding refuse_cycle is_ancestor
  refuse_cycle-Triple tenant_id new_parent_id t positive =
      Triple-if (ltb 0 new_parent_id) _ _
        (λ _.
          Triple-bind (λ b w. IsTable t w × (b ≡ related tenant_id new_parent_id t))
            (is_ancestor tenant_id new_parent_id)
            (λ below. require (not below) Error.circular_reference)
            (query-Triple (related tenant_id new_parent_id) t)
            (λ below.
              Triple-require (not below) Error.circular_reference
                (λ w k e. (k.0, ground (arith, k.1))) (λ w k. tt)))
        (λ e. absurd (ground arith))

  pub hang_under-Triple :
      (tenant_id new_parent_id : ℕ) (t : Table)
      → Triple
          (IsTable t)
          (hang_under tenant_id new_parent_id)
          (λ _. IsTable (
            let joined = insert_joined tenant_id new_parent_id t in
            if is_direct new_parent_id tenant_id joined
            then joined
            else insert_direct new_parent_id tenant_id joined))
          Any
  unfolding hang_under check_direct_relation
  hang_under-Triple tenant_id new_parent_id t =
      let joined = insert_joined tenant_id new_parent_id t in
      Triple-bind (λ _. IsTable joined) (on_closure (insert_joined tenant_id new_parent_id)) _
        (on_closure-Triple (insert_joined tenant_id new_parent_id) t)
        (λ _.
          Triple-bind (λ b w. IsTable joined w × (b ≡ is_direct new_parent_id tenant_id joined))
            (check_direct_relation new_parent_id tenant_id) _
            (query-Triple (is_direct new_parent_id tenant_id) joined)
            (λ direct. record {
              at = λ w k.
                  (Triple-when {Pre = IsTable joined} (not direct)
                      (on_closure (insert_direct new_parent_id tenant_id))
                      (λ e.
                        Triple-weaken (on_closure (insert_direct new_parent_id tenant_id))
                          (on_closure-Triple (insert_direct new_parent_id tenant_id) joined)
                          (λ _ v h. ground (arith, k.1)))
                      (λ v h e. ground (arith, k.1))).at
                    w k.0;
            }))

  pub update_subtree-Triple :
      (tenant_id new_parent_id : ℕ) (t : Table)
      → 0 < new_parent_id
      → Triple
          (IsTable t)
          (tenant_closure_update_subtree tenant_id new_parent_id)
          (λ _ w.
            IsTable (move_subtree tenant_id new_parent_id t) w
            × (related tenant_id new_parent_id t ≡ false))
          Any
  unfolding tenant_closure_update_subtree move_subtree
  update_subtree-Triple tenant_id new_parent_id t positive =
      let old = delete_old tenant_id new_parent_id in
      let old_parent = delete_old_parent tenant_id new_parent_id in
      Triple-if (tenant_id == 0) _ _ (λ _. Triple-raise Error.other (λ w e. tt))
        (λ _.
          Triple-bind (λ _ w. IsTable t w × (related tenant_id new_parent_id t ≡ false))
            (refuse_cycle tenant_id new_parent_id) _
            (refuse_cycle-Triple tenant_id new_parent_id t positive)
            (λ _. record {
              at = λ w k.
                  (Triple-weaken _
                      (Triple-bind (λ _. IsTable (old t)) (on_closure old) _
                        (on_closure-Triple old t)
                        (λ _.
                          Triple-bind (λ _. IsTable (old_parent (old t))) (on_closure old_parent) _
                            (on_closure-Triple old_parent (old t))
                            (λ _.
                              Triple-when (ltb 0 new_parent_id) (hang_under tenant_id new_parent_id)
                                (λ e.
                                  Triple-weaken (hang_under tenant_id new_parent_id)
                                    (hang_under-Triple tenant_id new_parent_id (old_parent (old t)))
                                    (λ _ v h. ground (arith, h)))
                                (λ v h e. absurd (ground arith)))))
                      (λ _ v h. (h, k.1))).at
                    w k.0;
            }))
