-- ===== src/Transaction.antt =====
-- The end of a transaction on accounts and tenants, as AdminTenantNew and TenantAdd of service/ have
-- it: what has been written is lost unless the COMMIT works. The ids that were given stay used.
pub mod Ended
use passport.Base.{ℕ}
use passport.Errors.{Result, ok, err, panic}
use passport.World.{World, Exec, exec}

module _ {P : Type 0} where
  -- The tables as they were before.
  unfoldable pub restore : World P → World P → World P
  restore before w = record w {
    users = before.users;
    tenants = before.tenants;
    closure = before.closure;
  }

  module _ {A : Type 0} where
    -- `tx.Commit(ctx)`, whose error is dropped
    unfoldable pub commit_dropping : World P → A → Result (Unit {0}) × World P → Result A × World P
    unfolding restore
    commit_dropping before a (ok _, w) = (ok a, w)
    commit_dropping before a (err _, w) = (ok a, restore before w)
    commit_dropping before a (panic, w) = (panic, restore before w)

    -- `e = tx.Commit(ctx)`
    unfoldable pub commit_reporting : World P → A → Result (Unit {0}) × World P → Result A × World P
    unfolding restore
    commit_reporting before a (ok _, w) = (ok a, w)
    commit_reporting before a (err e, w) = (err e, restore before w)
    commit_reporting before a (panic, w) = (panic, restore before w)

    -- How the transaction ends, `commit` being one of the two. After a panic it is never committed:
    -- AdminTenantNew would, but nothing in it panics.
    unfoldable pub finish :
        (World P → A → Result (Unit {0}) × World P → Result A × World P)
        → World P
        → Result A × World P
        → Result A × World P
    unfolding restore exec
    finish commit before (ok a, w) = commit before a (exec (λ v. v) w)
    finish commit before (err e, w) = (err e, restore before w)
    finish commit before (panic, w) = (panic, restore before w)

    unfoldable pub transacted :
        (World P → A → Result (Unit {0}) × World P → Result A × World P) → Exec P A → Exec P A
    unfolding finish
    transacted commit m w = finish commit w (m w)
