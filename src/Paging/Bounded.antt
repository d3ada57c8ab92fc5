-- ===== src/Paging/Bounded.antt =====
-- Enough fuel ends the loop over pages whose number is bounded, in whatever order their rows come.
use passport.Base.{
  ℕ, zero, suc, ◌+◌, ◌*◌, ◌≤◌, ◌<◌, ◌≡◌, refl, sym, subst, inl, inr, Option, some, List, arith, ltb,
  ◌==◌, Bool-cases, ltb-false, length,
}
use passport.World.{World, Exec, pure}
use passport.Live.{Returns, Returns-pure, Returns-true, Returns-false, Returns-bind}
use passport.Paging.{after_page, pages}

module _ {P A S : Type 0} (query_page : ℕ → Exec P (List A)) (size : ℕ) (step : List A → S → S)
    (total : ℕ) (w : World P) (I : S → Type 0) where
  -- A page that is full lies within the rows, and what a page adds keeps `I`.
  abbrev pub IsPage : ℕ → List A → World P → Type 0
  IsPage k l v =
      (size ≤ length l → (k + 1) * size ≤ total) × (((s : S) → I s → I (step l s)) × (v ≡ w))

  abbrev pub Reads : Type 0
  Reads = (k : ℕ) → k * size ≤ total → Returns (query_page (suc k)) w (IsPage k)

  abbrev pub Ends : Option S → World P → Type 0
  Ends out v = ((s : S) × (out ≡ some s) × I s) × (v ≡ w)

  after_page-Ends :
      (l : List A) (s : S) (next : Exec P (Option S))
      → I s
      → I (step l s)
      → (size ≤ length l → Returns next w Ends)
      → Returns (after_page query_page size step l s next) w Ends
  unfolding after_page
  after_page-Ends l s next i i' go = elim (Bool-cases (length l == 0)) [
    | inl e ↦ Returns-true (pure (some s)) _ w e (Returns-pure (some s) w ((s, refl, i), refl))
    | inr e ↦ Returns-false (pure (some s)) _ w e (elim (Bool-cases (ltb (length l) size)) [
      | inl short ↦
          Returns-true (pure (some (step l s))) next w short
            (Returns-pure (some (step l s)) w ((step l s, refl, i'), refl))
      | inr full ↦
          Returns-false (pure (some (step l s))) next w full (go (ltb-false (length l) size full))
    ])
  ]

  pages-Ends_from :
      (n k page : ℕ) (s : S)
      → Reads
      → page ≡ suc k
      → I s
      → k * size ≤ total
      → total < (k + n) * size
      → Returns (pages query_page size step n page s) w Ends
  unfolding pages
  pages-Ends_from zero k page s read p i h fuel = absurd (omega (arith, h, fuel))
  pages-Ends_from (suc n) k page s read p i h fuel =
      Returns-bind (query_page page) (body s) w
        (subst (λ j. Returns (query_page j) w (IsPage k)) (sym p) (read k h))
        (λ l v q.
          subst (λ v'. Returns (body s l) v' Ends) (sym q.1.1)
            (after_page-Ends l s (rest s l) i (q.1.0 s i) (λ full.
              pages-Ends_from n (k + 1) (page + 1) (step l s) read (omega (arith, p)) (q.1.0 s i)
                (q.0 full) (omega (arith, fuel)))))
    where
      rest : S → List A → Exec P (Option S)
      rest t l = pages query_page size step n (page + 1) (step l t)

      body : S → List A → Exec P (Option S)
      body t l = after_page query_page size step l t (rest t l)

  -- Fuel for more pages than the rows fill ends the loop.
  pub pages-Ends :
      (n : ℕ) (s : S)
      → Reads
      → I s
      → total < n * size
      → Returns (pages query_page size step n 1 s) w Ends
  pages-Ends n s read i enough =
      pages-Ends_from n 0 1 s read refl i (omega arith) (omega (arith, enough))
