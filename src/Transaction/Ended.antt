-- ===== src/Transaction/Ended.antt =====
-- What a transaction leaves.
use passport.Base.{◌⊎◌, inl, inr, Bool, List}
use passport.Errors.{Result, ok, err, panic}
use passport.World.{World, Exec, exec}
use passport.Hoare.{Outcome, Triple, returned, failed, Triple-exec}
use passport.Transaction.{restore, commit_dropping, commit_reporting, finish, transacted}

module _ {P A : Type 0} {Post : A → World P → Type 0} {Same : World P → Type 0} where
  -- A COMMIT whose error is dropped leaves what was written, or what was there.
  pub commit_dropping-Outcome :
      (before : World P) (a : A) (p : Result (Unit {0}) × World P)
      → ((v : World P) → Same (restore before v))
      → Outcome (λ _ v. Post a v) (λ v. Unit {0}) p.0 p.1
      → Outcome
          (λ b v. Post b v ⊎ Same v)
          Same
          (commit_dropping before a p).0
          (commit_dropping before a p).1
  unfolding commit_dropping
  commit_dropping-Outcome before a (ok _, w) back (returned h) = returned (inl h)
  commit_dropping-Outcome before a (err _, w) back (failed h) = returned (inr (back w))
  commit_dropping-Outcome before a (panic, w) back h = elim h [ ]

  -- A COMMIT whose error is returned leaves what was written if there is none.
  pub commit_reporting-Outcome :
      (before : World P) (a : A) (p : Result (Unit {0}) × World P)
      → ((v : World P) → Same (restore before v))
      → Outcome (λ _ v. Post a v) (λ v. Unit {0}) p.0 p.1
      → Outcome Post Same (commit_reporting before a p).0 (commit_reporting before a p).1
  unfolding commit_reporting
  commit_reporting-Outcome before a (ok _, w) back (returned h) = returned h
  commit_reporting-Outcome before a (err _, w) back (failed h) = failed (back w)
  commit_reporting-Outcome before a (panic, w) back h = elim h [ ]

module _ {P A : Type 0} {Post Post' : A → World P → Type 0} {Same : World P → Type 0}
    (commit : World P → A → Result (Unit {0}) × World P → Result A × World P)
    (committed : (before : World P) (a : A) (p : Result (Unit {0}) × World P)
      → ((v : World P) → Same (restore before v))
      → Outcome (λ _ v. Post a v) (λ v. Unit {0}) p.0 p.1
      → Outcome Post' Same (commit before a p).0 (commit before a p).1)
    (stable : (a : A) (v : World P) (fs : List Bool)
      → Post a v
      → Post a (record v { faults = fs })) where
  finish-Outcome :
      (before : World P) (p : Result A × World P)
      → ((v : World P) → Same (restore before v))
      → Outcome Post (λ v. Unit {0}) p.0 p.1
      → Outcome Post' Same (finish commit before p).0 (finish commit before p).1
  unfolding finish
  finish-Outcome before (ok a, w) back (returned h) = committed before a (exec (λ v. v) w) back (
      (Triple-exec {Pre = Post a} {Fail = λ v. Unit {0}} {Post = λ _ v. Post a v} (λ v. v)
          (λ v fs k. tt) (stable a) (λ v k. k)).at
        w h)
  finish-Outcome before (err e, w) back (failed h) = failed (back w)
  finish-Outcome before (panic, w) back h = elim h [ ]

  -- A transaction ends as its COMMIT does, or with the tables restored.
  pub transacted-Triple :
      {Pre : World P → Type 0} (m : Exec P A)
      → ((before v : World P) → Pre before → Same (restore before v))
      → Triple Pre m Post (λ v. Unit {0})
      → Triple Pre (transacted commit m) Post' Same
  unfolding transacted
  transacted-Triple m back h = record {
    at = λ w p. finish-Outcome w (m w) (λ v. back w v p) (h.at w p);
  }
