-- ===== src/Service/Parent.antt =====
-- AdminTenantSetParent (service/admin.service.go).
pub mod Atomic
pub mod Transaction
use passport.Base.{
  ℕ, Bool, true, false, Option, none, some, List, [], ◌∷◌, not, ◌&&◌, ◌||◌, ltb, ◌==◌,
  if◌then◌else◌,
}
use passport.Errors.{Error, Result, ok, err, panic}
use passport.Protos.{Tenant}
use passport.Closure.{Table}
use passport.World.{World, Exec, pure, raise, ◌>>=◌, ◌>>◌, exec, or_error, require, when}
use passport.Dao.Tenant.{tenant_get_by_id}
use passport.Dao.Closure.{
  tenant_closure_is_descendant, tenant_closure_update_subtree_safe, is_ancestor,
}
use passport.Service.Tenant.{evict_tenant_cache}

is_child : Option ℕ → Bool
is_child none = false
is_child (some k) = k == 1

-- `if e != nil { … return ErrService }; if t == nil { return ErrTenantNotFound }`
tenant_found : Result (Option Tenant) → Result (Unit {0})
tenant_found (err e) = err Error.service
tenant_found panic = panic
tenant_found (ok none) = err Error.tenant_not_found
tenant_found (ok (some t)) = ok tt

module _ {P : Type 0} where
  -- `BeginTx`
  unfoldable pub begin : Exec P (Unit {0})
  unfolding exec
  begin = exec (λ w. w)

  -- The closure table as it was before the transaction.
  roll_back : Table → World P → World P
  roll_back before w = record w { closure = before }

  -- `tx.Commit`, whose error is dropped: what was written is lost then.
  pub commit : Table → Result (Unit {0}) × World P → Result (Unit {0}) × World P
  unfolding roll_back
  commit before (ok _, w) = (ok tt, w)
  commit before (err _, w) = (ok tt, roll_back before w)
  commit before (panic, w) = (panic, roll_back before w)

  -- The deferred end of a transaction that has returned.
  pub end_transaction : Table → Result (Unit {0}) × World P → Result (Unit {0}) × World P
  unfolding roll_back commit exec
  end_transaction before (ok _, w) = commit before (exec (λ v. v) w)
  end_transaction before (err e, w) = (err e, roll_back before w)
  end_transaction before (panic, w) = (panic, roll_back before w)

  -- An error rolls the transaction back, and so does a panic; anything else commits it. (A refused
  -- cycle is committed too: nothing has been written by then.)
  pub in_transaction : Exec P (Unit {0}) → Exec P (Unit {0})
  unfolding end_transaction
  in_transaction m w = end_transaction w.closure (m w)

  tenant_exists : ℕ → Exec P (Unit {0})
  unfolding tenant_get_by_id tenant_found
  tenant_exists id w = let (r, w') = tenant_get_by_id id w in (tenant_found r, w')

  -- The check for a cycle before the move; it is skipped for the root tenant.
  refuse_descendant : ℕ → ℕ → Exec P (Unit {0})
  unfolding is_ancestor
  refuse_descendant descendant_id ancestor_id w =
      if ancestor_id == w.root_tenant_id
      then (ok tt, w)
      else (do
        below ← or_error (is_ancestor descendant_id ancestor_id) Error.service
        require (not below) Error.tenant_circular_ref)
          w

  -- From the lookups to the end of the transaction.
  unfoldable pub set_parent : ℕ → ℕ → Exec P (Unit {0})
  unfolding tenant_exists tenant_closure_is_descendant is_child begin in_transaction
      refuse_descendant tenant_closure_update_subtree_safe
  set_parent descendant_id ancestor_id = do
    tenant_exists descendant_id
    tenant_exists ancestor_id
    depth ← or_error (tenant_closure_is_descendant ancestor_id descendant_id) Error.service
    when (not (is_child depth)) (do
      or_error begin Error.service
      in_transaction (do
        refuse_descendant descendant_id ancestor_id
        tenant_closure_update_subtree_safe descendant_id ancestor_id))

  -- `defer evictTenantCache(descendantID, ancestorID)`
  set_parent_and_evict : ℕ → ℕ → Exec P (Unit {0})
  unfolding set_parent evict_tenant_cache
  set_parent_and_evict descendant_id ancestor_id w =
      let (r, w') = set_parent descendant_id ancestor_id w in
      let (_, w2) = evict_tenant_cache descendant_id w' in
      let (_, w3) = evict_tenant_cache ancestor_id w2 in (r, w3)

  -- AdminTenantSetParent, called by a user of tenant `sess_tenant`
  unfoldable pub admin_tenant_set_parent : ℕ → ℕ → ℕ → Exec P (Unit {0})
  unfolding set_parent_and_evict
  admin_tenant_set_parent sess_tenant descendant_id ancestor_id w =
      if w.root_tenant_id == 0 || not (sess_tenant == w.root_tenant_id)
      then (err Error.no_auth, w)
      else if descendant_id == 0 || ancestor_id == 0
      then (err Error.param, w)
      else if descendant_id == ancestor_id
      then (err Error.tenant_same, w)
      else if descendant_id == w.root_tenant_id
      then (err Error.tenant_root, w)
      else set_parent_and_evict descendant_id ancestor_id w
