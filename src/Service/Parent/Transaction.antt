-- ===== src/Service/Parent/Transaction.antt =====
-- What a transaction leaves of the closure table.
use passport.Base.{ℕ, ◌⊎◌, inl, inr, ◌<◌, sym, subst, ◌≡◌, ◌≢◌, refl}
use passport.Errors.{Result, ok, err, panic}
use passport.Closure.{Table, move_subtree}
use passport.World.{World, Exec}
use passport.Dao.Closure.Moving.{IsTable, Any}
use passport.Service.Parent.{in_transaction, end_transaction, commit}
use passport.Hoare.{Outcome, Triple, returned, failed, Triple-exec}

-- What AdminTenantSetParent leaves of the closure table `t` when it returns nil.
abbrev pub IsMoved : ℕ → ℕ → Table → Table → Type 0
IsMoved descendant_id ancestor_id t s = (s ≡ move_subtree descendant_id ancestor_id t) ⊎ (s ≡ t)

-- What AdminTenantSetParent asks of its caller and its arguments.
abbrev pub IsAllowed : ℕ → ℕ → ℕ → ℕ → Type 0
IsAllowed root_tenant_id sess_tenant descendant_id ancestor_id =
    (sess_tenant ≡ root_tenant_id)
    × (0 < descendant_id)
    × (0 < ancestor_id)
    × (descendant_id ≢ ancestor_id)
    × (descendant_id ≢ root_tenant_id)

module _ {P : Type 0} where
  pub commit-Outcome :
      {t s : Table} (p : Result (Unit {0}) × World P)
      → Outcome (λ _. IsTable s) Any p.0 p.1
      → Outcome (λ _ v. (v.closure ≡ s) ⊎ (v.closure ≡ t)) (IsTable t) (commit t p).0 (commit t p).1
  unfolding commit
  commit-Outcome (ok _, w) (returned e) = returned (inl e)
  commit-Outcome (err _, w) (failed e) = returned (inr refl)
  commit-Outcome (panic, w) h = elim h [ ]

  pub end_transaction-Outcome :
      {t s : Table} (p : Result (Unit {0}) × World P)
      → Outcome (λ _. IsTable s) Any p.0 p.1
      → Outcome
          (λ _ v. (v.closure ≡ s) ⊎ (v.closure ≡ t))
          (IsTable t)
          (end_transaction t p).0
          (end_transaction t p).1
  unfolding end_transaction
  end_transaction-Outcome {s = s} (ok _, w) (returned e) = commit-Outcome _ (
      (Triple-exec {Pre = IsTable s} {Post = λ _. IsTable s} (λ v. v) (λ v fs h. tt) (λ v fs h. h)
          (λ v h. h)).at
        w e)
  end_transaction-Outcome (err _, w) (failed e) = failed refl
  end_transaction-Outcome (panic, w) h = elim h [ ]

  -- A transaction on the table `t` leaves what it computes, or `t`.
  pub in_transaction-Triple :
      (m : Exec P (Unit {0})) (t s : Table)
      → Triple (IsTable t) m (λ _. IsTable s) Any
      → Triple (IsTable t) (in_transaction m) (λ _ v. (v.closure ≡ s) ⊎ (v.closure ≡ t)) (IsTable t)
  unfolding in_transaction
  in_transaction-Triple m t s h = record {
    at = λ w e.
        subst
          (λ u.
            Outcome (λ _ v. (v.closure ≡ s) ⊎ (v.closure ≡ t)) (IsTable t)
              (end_transaction u (m w)).0 (end_transaction u (m w)).1)
          (sym e) (end_transaction-Outcome (m w) (h.at w e));
  }
