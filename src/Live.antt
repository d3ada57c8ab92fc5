-- ===== src/Live.antt =====
-- Statements that code returns a value: from a state in which no statement will fail, it runs to a
-- result and a state of which something holds.
use passport.Base.{◌≡◌, refl, ap, ◌∙◌, Bool, true, false, [], if◌then◌else◌, if_true, if_false}
use passport.Errors.{Error, Result, ok}
use passport.World.{
  World, Exec, pure, gets, ◌>>=◌, continue, or_error, relabel, require, attempt, as_value,
  statement, statement-calm, query,
}

pub record Returns {P A : Type 0} (m : Exec P A) (w : World P) (Q : A → World P → Type 0)
    : Type 0 where
  pub value : A
  pub state : World P
  pub runs : m w ≡ (ok value, state)
  pub holds : Q value state

-- No statement fails from here on.
abbrev pub IsCalm : {P : Type 0} → World P → Type 0
IsCalm w = w.faults ≡ []

module _ {P A : Type 0} {Q : A → World P → Type 0} where
  pub Returns-pure : (a : A) (w : World P) → Q a w → Returns (pure a) w Q
  Returns-pure a w q = record { value = a; state = w; runs = refl; holds = q }

  pub Returns-gets : (f : World P → A) (w : World P) → Q (f w) w → Returns (gets f) w Q
  Returns-gets f w q = record { value = f w; state = w; runs = refl; holds = q }

  -- What code returns that runs like other code from a state.
  pub Returns-by : {m n : Exec P A} {w v : World P} → m w ≡ n v → Returns n v Q → Returns m w Q
  Returns-by e h = record { value = h.value; state = h.state; runs = e ∙ h.runs; holds = h.holds }

  pub Returns-true :
      {b : Bool} (m n : Exec P A) (w : World P)
      → b ≡ true
      → Returns m w Q
      → Returns (if b then m else n) w Q
  Returns-true m n w e = Returns-by (ap (λ k. k w) (if_true m n e))

  pub Returns-false :
      {b : Bool} (m n : Exec P A) (w : World P)
      → b ≡ false
      → Returns n w Q
      → Returns (if b then m else n) w Q
  Returns-false m n w e = Returns-by (ap (λ k. k w) (if_false m n e))

  pub Returns-or_error :
      (m : Exec P A) (e : Error) (w : World P) → Returns m w Q → Returns (or_error m e) w Q
  Returns-or_error m e w h = record {
    value = h.value;
    state = h.state;
    runs = ap (λ x. (relabel e x.0, x.1)) h.runs;
    holds = h.holds;
  }

  pub Returns-statement :
      (m : Exec P A) (w : World P) → IsCalm w → Returns m w Q → Returns (statement m) w Q
  Returns-statement m w calm h = Returns-by (statement-calm m w calm) h

  pub Returns-query : (f : World P → A) (w : World P) → IsCalm w → Q (f w) w → Returns (query f) w Q
  unfolding query
  Returns-query f w calm q =
      Returns-statement (λ v. (ok (f v), v)) w calm
        (record { value = f w; state = w; runs = refl; holds = q })

module _ {P A B : Type 0} {Q : A → World P → Type 0} {R : B → World P → Type 0} where
  pub Returns-bind :
      (m : Exec P A) (f : A → Exec P B) (w : World P)
      → Returns m w Q
      → ((a : A) (v : World P) → Q a v → Returns (f a) v R)
      → Returns (m >>= f) w R
  Returns-bind m f w h k =
      Returns-by {n = f h.value} {v = h.state} (ap (λ x. continue x.0 f x.1) h.runs)
        (k h.value h.state h.holds)

pub Returns-weaken :
    {P A : Type 0} {m : Exec P A} {w : World P} {Q R : A → World P → Type 0}
    → Returns m w Q
    → ((a : A) (v : World P) → Q a v → R a v)
    → Returns m w R
Returns-weaken h k = record {
  value = h.value;
  state = h.state;
  runs = h.runs;
  holds = k h.value h.state h.holds;
}

pub Returns-attempt :
    {P A : Type 0} {Q : Result A → World P → Type 0} (m : Exec P A) (w : World P)
    → Returns m w (λ a. Q (ok a))
    → Returns (attempt m) w Q
Returns-attempt m w h = record {
  value = ok h.value;
  state = h.state;
  runs = ap (λ x. (as_value x.0, x.1)) h.runs;
  holds = h.holds;
}

module _ {P : Type 0} where
  pub Returns-require :
      {Q : Unit {0} → World P → Type 0} (b : Bool) (e : Error) (w : World P)
      → b ≡ true
      → Q tt w
      → Returns (require b e) w Q
  Returns-require b e w h q = record {
    value = tt;
    state = w;
    runs = ap (λ x. require x e w) h;
    holds = q;
  }
