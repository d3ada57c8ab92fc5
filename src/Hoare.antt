-- ===== src/Hoare.antt =====
-- Statements about code that runs on the state: what holds of the result and the state when it
-- returns, and of the state when it returns an error. None of it panics.
use passport.Base.{◌≡◌, inl, inr, refl, sym, subst, Bool, true, false, if◌then◌else◌, List}
use passport.Errors.{Error, Result, ok, err}
use passport.World.{
  World, Exec, pure, raise, ◌>>=◌, continue, or_error, relabel, require, when, attempt, as_value,
  statement, statement-cases, exec, query,
}

pub data Outcome {P A : Type 0} (Post : A → World P → Type 0) (Fail : World P → Type 0)
    : Result A → World P → Type 0 where
  returned : {a : A} {w : World P} → Post a w → Outcome Post Fail (ok a) w
  failed : {e : Error} {w : World P} → Fail w → Outcome Post Fail (err e) w

-- From a state with `Pre`, `m` returns with `Post`, or an error with `Fail`.
pub record Triple {P A : Type 0} (Pre : World P → Type 0) (m : Exec P A)
    (Post : A → World P → Type 0) (Fail : World P → Type 0) : Type 0 where
  pub at : (w : World P) → Pre w → Outcome Post Fail (m w).0 (m w).1

module _ {P A B : Type 0} {Post : B → World P → Type 0} {Fail : World P → Type 0} where
  continue-Outcome :
      {Mid : A → World P → Type 0} {r : Result A} {w : World P} (f : A → Exec P B)
      → ((a : A) → Triple (Mid a) (f a) Post Fail)
      → Outcome Mid Fail r w
      → Outcome Post Fail (continue r f w).0 (continue r f w).1
  continue-Outcome f h (returned {a = a} {w = w} p) = (h a).at w p
  continue-Outcome f h (failed p) = failed p

  pub Triple-bind :
      {Pre : World P → Type 0} (Mid : A → World P → Type 0) (m : Exec P A) (f : A → Exec P B)
      → Triple Pre m Mid Fail
      → ((a : A) → Triple (Mid a) (f a) Post Fail)
      → Triple Pre (m >>= f) Post Fail
  Triple-bind Mid m f hm hf = record { at = λ w h. continue-Outcome f hf (hm.at w h) }

module _ {P A : Type 0} {Post : A → World P → Type 0} {Fail : World P → Type 0} where
  relabel-Outcome :
      {r : Result A} {w : World P} (e : Error)
      → Outcome Post Fail r w
      → Outcome Post Fail (relabel e r) w
  relabel-Outcome e (returned p) = returned p
  relabel-Outcome e (failed p) = failed p

  pub weaken-Outcome :
      {Mid : A → World P → Type 0} {r : Result A} {w : World P}
      → ((a : A) (w' : World P) → Mid a w' → Post a w')
      → Outcome Mid Fail r w
      → Outcome Post Fail r w
  weaken-Outcome k (returned {a = a} {w = w} p) = returned (k a w p)
  weaken-Outcome k (failed p) = failed p

attempt-Outcome :
    {P A : Type 0} {Q Fail : World P → Type 0} {r : Result A} {w : World P}
    → Outcome (λ _. Q) Q r w
    → Outcome (λ _. Q) Fail (as_value r) w
attempt-Outcome (returned p) = returned p
attempt-Outcome (failed p) = returned p

pub if-Outcome :
    {P A : Type 0} {Post : A → World P → Type 0} {Fail : World P → Type 0} (b : Bool)
    (p q : Result A × World P)
    → (b ≡ true → Outcome Post Fail p.0 p.1)
    → (b ≡ false → Outcome Post Fail q.0 q.1)
    → Outcome Post Fail (if b then p else q).0 (if b then p else q).1
if-Outcome true p q hp hq = hp refl
if-Outcome false p q hp hq = hq refl

module _ {P A : Type 0} {Pre : World P → Type 0} {Post : A → World P → Type 0}
    {Fail : World P → Type 0} where
  pub Triple-or_error :
      (m : Exec P A) (e : Error) → Triple Pre m Post Fail → Triple Pre (or_error m e) Post Fail
  Triple-or_error m e h = record { at = λ w p. relabel-Outcome e (h.at w p) }

  pub Triple-if :
      (b : Bool) (m n : Exec P A)
      → (b ≡ true → Triple Pre m Post Fail)
      → (b ≡ false → Triple Pre n Post Fail)
      → Triple Pre (if b then m else n) Post Fail
  Triple-if true m n hm hn = hm refl
  Triple-if false m n hm hn = hn refl

  pub Triple-pure : (a : A) → ((w : World P) → Pre w → Post a w) → Triple Pre (pure a) Post Fail
  Triple-pure a h = record { at = λ w p. returned (h w p) }

  pub Triple-raise : (e : Error) → ((w : World P) → Pre w → Fail w) → Triple Pre (raise e) Post Fail
  Triple-raise e h = record { at = λ w p. failed (h w p) }

  pub Triple-weaken :
      {Mid : A → World P → Type 0} (m : Exec P A)
      → Triple Pre m Mid Fail
      → ((a : A) (w : World P) → Mid a w → Post a w)
      → Triple Pre m Post Fail
  Triple-weaken m h k = record { at = λ w p. weaken-Outcome k (h.at w p) }

  -- A statement fails and changes nothing that `Pre` and `Fail` see, or does its work.
  pub Triple-statement :
      (m : Exec P A)
      → ((w : World P) (fs : List Bool) → Pre w → Fail (record w { faults = fs }))
      → ((w : World P) (fs : List Bool) → Pre w → Pre (record w { faults = fs }))
      → Triple Pre m Post Fail
      → Triple Pre (statement m) Post Fail
  Triple-statement m bad same h = record {
    at = λ w p. elim (statement-cases m w) [
      | inl (fs, e) ↦ rw e (failed (bad w fs p))
      | inr (fs, e) ↦ rw e (h.at (record w { faults = fs }) (same w fs p))
    ];
  }

module _ {P : Type 0} {Pre : World P → Type 0} {Post : Unit {0} → World P → Type 0}
    {Fail : World P → Type 0} where
  pub Triple-require :
      (b : Bool) (e : Error)
      → ((w : World P) → Pre w → b ≡ true → Post tt w)
      → ((w : World P) → Pre w → Fail w)
      → Triple Pre (require b e) Post Fail
  Triple-require true e good bad = record { at = λ w p. returned (good w p refl) }
  Triple-require false e good bad = record { at = λ w p. failed (bad w p) }

  pub Triple-when :
      (b : Bool) (m : Exec P (Unit {0}))
      → (b ≡ true → Triple Pre m Post Fail)
      → ((w : World P) → Pre w → b ≡ false → Post tt w)
      → Triple Pre (when b m) Post Fail
  Triple-when true m h k = h refl
  Triple-when false m h k = record { at = λ w p. returned (k w p refl) }

module _ {P : Type 0} {Pre Fail : World P → Type 0} where
  -- An INSERT, UPDATE or DELETE.
  pub Triple-exec :
      {Post : Unit {0} → World P → Type 0} (f : World P → World P)
      → ((w : World P) (fs : List Bool) → Pre w → Fail (record w { faults = fs }))
      → ((w : World P) (fs : List Bool) → Pre w → Pre (record w { faults = fs }))
      → ((w : World P) → Pre w → Post tt (f w))
      → Triple Pre (exec f) Post Fail
  unfolding exec
  Triple-exec f bad same h =
      Triple-statement (λ w. (ok tt, f w)) bad same
        (record { at = λ w p. returned {a = tt} {w = f w} (h w p) })

  -- A SELECT.
  pub Triple-query :
      {A : Type 0} {Post : A → World P → Type 0} (f : World P → A)
      → ((w : World P) (fs : List Bool) → Pre w → Fail (record w { faults = fs }))
      → ((w : World P) (fs : List Bool) → Pre w → Pre (record w { faults = fs }))
      → ((w : World P) → Pre w → Post (f w) w)
      → Triple Pre (query f) Post Fail
  unfolding query
  Triple-query f bad same h =
      Triple-statement (λ w. (ok (f w), w)) bad same
        (record { at = λ w p. returned {a = f w} {w = w} (h w p) })

  -- What holds whether `m` returns or fails holds after `attempt m`.
  pub Triple-attempt :
      {A : Type 0} {Q : World P → Type 0} (m : Exec P A)
      → Triple Pre m (λ _. Q) Q
      → Triple Pre (attempt m) (λ _. Q) Fail
  Triple-attempt m h = record { at = λ w p. attempt-Outcome (h.at w p) }

module _ {P A : Type 0} {Post : Result A → World P → Type 0} {Fail : World P → Type 0} where
  try-Outcome :
      {r : Result A} {w : World P}
      → Outcome (λ a. Post (ok a)) (λ v. (e : Error) → Post (err e) v) r w
      → Outcome Post Fail (as_value r) w
  try-Outcome (returned p) = returned p
  try-Outcome (failed {e = e} p) = returned (p e)

  -- After `attempt m` one knows what holds of the value, or of the error.
  pub Triple-try :
      {Pre : World P → Type 0} (m : Exec P A)
      → Triple Pre m (λ a. Post (ok a)) (λ v. (e : Error) → Post (err e) v)
      → Triple Pre (attempt m) Post Fail
  Triple-try m h = record { at = λ w p. try-Outcome (h.at w p) }

module _ {P A : Type 0} {Fail : World P → Type 0} {Post : A → World P → Type 0} where
  pub relax-Outcome :
      {Fail' : World P → Type 0} {r : Result A} {w : World P}
      → ((v : World P) → Fail' v → Fail v)
      → Outcome Post Fail' r w
      → Outcome Post Fail r w
  relax-Outcome k (returned p) = returned p
  relax-Outcome k (failed {w = w} p) = failed (k w p)

  pub Triple-relax :
      {Pre Fail' : World P → Type 0} (m : Exec P A)
      → Triple Pre m Post Fail'
      → ((v : World P) → Fail' v → Fail v)
      → Triple Pre m Post Fail
  Triple-relax m h k = record { at = λ w p. relax-Outcome k (h.at w p) }

-- What an outcome says of a call that has returned a value.
pub Outcome-ok :
    {P A : Type 0} {Post : A → World P → Type 0} {Fail : World P → Type 0} {r : Result A}
    {w : World P} (a : A)
    → Outcome Post Fail r w
    → r ≡ ok a
    → Post a w
Outcome-ok {Post = Post} {w = w} a (returned {a = b} p) e = subst (λ x. Post x w) (cc e) p
Outcome-ok a (failed p) e = absurd (cc e)

-- What follows a step whose value is known.
pub Triple-known :
    {P A B : Type 0} {Pre Fail : World P → Type 0} {Post : A → World P → Type 0} (y : B)
    (f : B → Exec P A)
    → Triple Pre (f y) Post Fail
    → (x : B) → Triple (λ v. (x ≡ y) × Pre v) (f x) Post Fail
Triple-known {Fail = Fail} {Post = Post} y f h x = record {
  at = λ v k. subst (λ z. Outcome Post Fail (f z v).0 (f z v).1) (sym k.0) (h.at v k.1);
}
