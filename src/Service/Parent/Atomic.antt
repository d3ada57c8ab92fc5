-- ===== src/Service/Parent/Atomic.antt =====
-- AdminTenantSetParent: who may call it, and what an error leaves.
use passport.Base.{
  ℕ, ◌⊎◌, inl, inr, ◌<◌, sym, ap, subst, ◌∙◌, ◌≡◌, ◌≢◌, refl, true, Option, none, some, not, ◌==◌,
  ◌||◌, arith, Bool-cases,
}
use passport.Protos.{Tenant}
use passport.Errors.{Error, Result}
use passport.Closure.{Table, related, find_depth, move_subtree}
use passport.Closure.Forest.{Forest, Represents}
use passport.World.{World, ◌>>◌, require, or_error}
use passport.Dao.Tenant.{tenant_get_by_id, tenant_by_id}
use passport.Dao.Closure.{
  is_ancestor, tenant_closure_is_descendant, tenant_closure_update_subtree_safe,
}
use passport.Dao.Closure.Moving.{IsTable, Any}
use passport.Dao.Closure.Update.{update_safe-Triple}
use passport.Service.Parent.{
  is_child, tenant_found, tenant_exists, begin, in_transaction, refuse_descendant, set_parent,
  set_parent_and_evict, admin_tenant_set_parent,
}
use passport.DefaultCache.{del_tenant_cache}
use passport.Service.Tenant.{evict_tenant_cache}
use passport.Hoare.{
  Outcome, if-Outcome, weaken-Outcome, Triple, returned, failed, Triple-bind, Triple-query,
  Triple-exec, Triple-or_error, Triple-require, Triple-weaken, Triple-when,
}
use passport.Service.Parent.Transaction.{IsMoved, IsAllowed, in_transaction-Triple}

module _ {P : Type 0} where
  tenant_found-Outcome :
      {Q : World P → Type 0} {r : Result (Option Tenant)} {v : World P}
      → Outcome (λ _. Q) Q r v
      → Outcome (λ _. Q) Q (tenant_found r) v
  unfolding tenant_found
  tenant_found-Outcome (returned {a = none} q) = failed q
  tenant_found-Outcome (returned {a = some x} q) = returned q
  tenant_found-Outcome (failed q) = failed q

  tenant_exists-Triple :
      (id : ℕ) (t : Table)
      → Triple {P = P} (IsTable t) (tenant_exists id) (λ _. IsTable t) (IsTable t)
  unfolding tenant_exists tenant_get_by_id
  tenant_exists-Triple id t = record {
    at = λ w e. tenant_found-Outcome (
        (Triple-query {Pre = IsTable t} {Post = λ _. IsTable t} (λ v. tenant_by_id id v.tenants)
            (λ v fs h. h) (λ v fs h. h) (λ v h. h)).at
          w e);
  }

  refuse_descendant-Triple :
      (descendant_id ancestor_id : ℕ) (t : Table)
      → Triple {P = P}
          (IsTable t)
          (refuse_descendant descendant_id ancestor_id)
          (λ _. IsTable t)
          Any
  unfolding refuse_descendant is_ancestor
  refuse_descendant-Triple descendant_id ancestor_id t = record {
    at = λ w e. elim (Bool-cases (ancestor_id == w.root_tenant_id)) [
      | inl root ↦ rw root (returned {a = tt} e)
      | inr other ↦ rw other (
          (Triple-bind {Pre = IsTable t} (λ _. IsTable t)
              (or_error (is_ancestor descendant_id ancestor_id) Error.service)
              (λ below. require (not below) Error.tenant_circular_ref)
              (Triple-or_error (is_ancestor descendant_id ancestor_id) Error.service (
                Triple-query (λ v. related descendant_id ancestor_id v.closure) (λ v fs _. tt)
                  (λ v fs h. h) (λ v h. h)))
              (λ below.
                Triple-require (not below) Error.tenant_circular_ref (λ v h _. h) (λ v h. tt))).at
            w e)
    ];
  }

  begin-Triple : (t : Table) → Triple {P = P} (IsTable t) begin (λ _. IsTable t) (IsTable t)
  unfolding begin
  begin-Triple t = Triple-exec (λ w. w) (λ w fs e. e) (λ w fs e. e) (λ w e. e)

  depth-Triple :
      (ancestor_id descendant_id : ℕ) (t : Table)
      → Triple {P = P}
          (IsTable t)
          (tenant_closure_is_descendant ancestor_id descendant_id)
          (λ depth w. IsTable t w × (depth ≡ find_depth ancestor_id descendant_id t))
          (IsTable t)
  unfolding tenant_closure_is_descendant
  depth-Triple ancestor_id descendant_id t =
      Triple-query (λ w. find_depth ancestor_id descendant_id w.closure) (λ w fs e. e) (λ w fs e. e)
        (λ w e. (e, ap (find_depth ancestor_id descendant_id) e))

  module _ (descendant_id ancestor_id : ℕ) {f : Forest} {t : Table} (r : Represents f t)
      (positive : 0 < ancestor_id) (differ : descendant_id ≢ ancestor_id)
      (descendant_node : f.node descendant_id ≡ true)
      (ancestor_node : f.node ancestor_id ≡ true) where
    transaction-Triple :
        Triple {P = P}
          (IsTable t)
          (in_transaction (
            refuse_descendant descendant_id ancestor_id
            >> tenant_closure_update_subtree_safe descendant_id ancestor_id))
          (λ _ v. (v.closure ≡ move_subtree descendant_id ancestor_id t) ⊎ (v.closure ≡ t))
          (IsTable t)
    transaction-Triple = in_transaction-Triple _ t (move_subtree descendant_id ancestor_id t) (
        Triple-bind (λ _. IsTable t) (refuse_descendant descendant_id ancestor_id) _
          (refuse_descendant-Triple descendant_id ancestor_id t)
          (λ _.
            Triple-weaken (tenant_closure_update_subtree_safe descendant_id ancestor_id)
              (update_safe-Triple descendant_id ancestor_id f t r positive differ descendant_node
                ancestor_node)
              (λ _ v h. h.0)))

    set_parent-Triple :
        Triple {P = P}
          (IsTable t)
          (set_parent descendant_id ancestor_id)
          (λ _ w. IsMoved descendant_id ancestor_id t w.closure)
          (IsTable t)
    unfolding set_parent
    set_parent-Triple =
        Triple-bind (λ _. IsTable t) (tenant_exists descendant_id) _
          (tenant_exists-Triple descendant_id t)
          (λ _.
            Triple-bind (λ _. IsTable t) (tenant_exists ancestor_id) _
              (tenant_exists-Triple ancestor_id t)
              (λ _.
                Triple-bind
                  (λ depth w. IsTable t w × (depth ≡ find_depth ancestor_id descendant_id t))
                  (or_error (tenant_closure_is_descendant ancestor_id descendant_id) Error.service)
                  _
                  (Triple-or_error (tenant_closure_is_descendant ancestor_id descendant_id)
                    Error.service (depth-Triple ancestor_id descendant_id t))
                  (λ depth. record {
                    at = λ w k.
                        (Triple-when {Pre = IsTable t} (not (is_child depth)) _
                            (λ _.
                              Triple-bind (λ _. IsTable t) (or_error begin Error.service) _
                                (Triple-or_error begin Error.service (begin-Triple t))
                                (λ _. transaction-Triple))
                            (λ v e child. inr e)).at
                          w k.0;
                  })))

  evict_tenant_cache-closure :
      (id : ℕ) (w : World P) → (evict_tenant_cache id w).1.closure ≡ w.closure
  unfolding evict_tenant_cache del_tenant_cache
  evict_tenant_cache-closure id w = ground arith

  closure-Outcome :
      (Q R : Table → Type 0) {r : Result (Unit {0})} (w v : World P)
      → v.closure ≡ w.closure
      → Outcome (λ _ u. Q u.closure) (λ u. R u.closure) r w
      → Outcome (λ _ u. Q u.closure) (λ u. R u.closure) r v
  closure-Outcome Q R w v same (returned q) = returned (subst Q (sym same) q)
  closure-Outcome Q R w v same (failed q) = failed (subst R (sym same) q)

  set_parent_and_evict-Outcome :
      (descendant_id ancestor_id : ℕ) (w : World P) (f : Forest)
      → Represents f w.closure
      → 0 < ancestor_id
      → descendant_id ≢ ancestor_id
      → f.node descendant_id ≡ true
      → f.node ancestor_id ≡ true
      → Outcome
          (λ _ v. IsMoved descendant_id ancestor_id w.closure v.closure)
          (λ v. v.closure ≡ w.closure)
          (set_parent_and_evict descendant_id ancestor_id w).0
          (set_parent_and_evict descendant_id ancestor_id w).1
  unfolding set_parent_and_evict
  set_parent_and_evict-Outcome descendant_id ancestor_id w f r positive differ descendant_node
        ancestor_node =
      let w' = (set_parent descendant_id ancestor_id w).1 in
      let w2 = (evict_tenant_cache descendant_id w').1 in
      let w3 = (evict_tenant_cache ancestor_id w2).1 in
      closure-Outcome (IsMoved descendant_id ancestor_id w.closure) (λ u. u ≡ w.closure) w' w3
        (evict_tenant_cache-closure ancestor_id w2 ∙ evict_tenant_cache-closure descendant_id w')
        ((set_parent-Triple descendant_id ancestor_id r positive differ descendant_node
            ancestor_node).at
          w refl)

  module _ (sess_tenant descendant_id ancestor_id : ℕ) (w : World P) (f : Forest)
      (r : Represents f w.closure) (descendant_node : f.node descendant_id ≡ true)
      (ancestor_node : f.node ancestor_id ≡ true) where
    -- From the closure table of a forest that has both tenants, and whatever statements fail,
    -- AdminTenantSetParent does not panic. If it returns nil, the caller is of the root tenant,
    -- neither id is 0, the moved tenant is not the root tenant nor its own parent, and the table is
    -- either what the statements of the move compute or the table from before. If it returns an
    -- error, the table is as before.
    pub admin_tenant_set_parent-Outcome :
        Outcome
          (λ _ v.
            IsAllowed w.root_tenant_id sess_tenant descendant_id ancestor_id
            × IsMoved descendant_id ancestor_id w.closure v.closure)
          (λ v. v.closure ≡ w.closure)
          (admin_tenant_set_parent sess_tenant descendant_id ancestor_id w).0
          (admin_tenant_set_parent sess_tenant descendant_id ancestor_id w).1
    unfolding admin_tenant_set_parent
    admin_tenant_set_parent-Outcome =
        if-Outcome (w.root_tenant_id == 0 || not (sess_tenant == w.root_tenant_id)) _ _
          (λ _. failed refl)
          (λ root.
            if-Outcome (descendant_id == 0 || ancestor_id == 0) _ _ (λ _. failed refl)
              (λ ids.
                if-Outcome (descendant_id == ancestor_id) _ _ (λ _. failed refl)
                  (λ differ.
                    if-Outcome (descendant_id == w.root_tenant_id) _ _ (λ _. failed refl)
                      (λ below.
                        weaken-Outcome
                          (λ _ v m. (
                            (ground arith, ground arith, ground arith, ground arith, ground arith),
                            m,
                          ))
                          (set_parent_and_evict-Outcome descendant_id ancestor_id w f r
                            (ground arith) (ground arith) descendant_node ancestor_node)))))
