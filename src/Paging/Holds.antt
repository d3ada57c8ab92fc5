-- ===== src/Paging/Holds.antt =====
-- What each page keeps holds after the loop.
use passport.Base.{ℕ, zero, suc, ◌+◌, ◌≡◌, subst, Option, none, some, List, ltb, ◌==◌, length}
use passport.World.{World, Exec}
use passport.Hoare.{Triple, Triple-bind, Triple-if, Triple-pure}
use passport.Paging.{after_page, pages}

module _ {P A S : Type 0} (query_page : ℕ → Exec P (List A)) (size : ℕ) (step : List A → S → S)
    (I : S → World P → Type 0) (Base Fail : World P → Type 0)
    (base : (s : S) (w : World P) → I s w → Base w)
    (keeps : (page : ℕ) (s : S)
      → Triple (I s) (query_page page) (λ l w. I s w × I (step l s) w) Fail) where
  -- If the loop has not run out of fuel, its invariant holds of what it has.
  abbrev pub Ended : Option S → World P → Type 0
  Ended r w = Base w × ((s : S) → r ≡ some s → I s w)

  ended : (s : S) (w : World P) → I s w → Ended (some s) w
  ended s w h = (base s w h, λ t e. subst (λ x. I x w) (cc e) h)

  after_page-Triple :
      (l : List A) (s : S) (next : Exec P (Option S))
      → Triple (I (step l s)) next Ended Fail
      → Triple (λ w. I s w × I (step l s) w) (after_page query_page size step l s next) Ended Fail
  unfolding after_page
  after_page-Triple l s next h =
      Triple-if (length l == 0) _ _ (λ _. Triple-pure (some s) (λ w p. ended s w p.0))
        (λ _.
          Triple-if (ltb (length l) size) _ _
            (λ _. Triple-pure (some (step l s)) (λ w p. ended (step l s) w p.1))
            (λ _. record { at = λ w p. h.at w p.1 }))

  pub pages-Triple :
      (n page : ℕ) (s : S) → Triple (I s) (pages query_page size step n page s) Ended Fail
  unfolding pages
  pages-Triple zero page s = Triple-pure none (λ w p. (base s w p, λ t e. absurd (cc e)))
  pages-Triple (suc n) page s =
      Triple-bind (λ l w. I s w × I (step l s) w) (query_page page) _ (keeps page s)
        (λ l.
          after_page-Triple l s (pages query_page size step n (page + 1) (step l s))
            (pages-Triple n (page + 1) (step l s)))
