-- ===== src/Paging/Whole.antt =====
-- Enough fuel goes through every page.
use passport.Base.{
  ℕ, zero, suc, ◌+◌, ◌*◌, ◌≤◌, ◌<◌, ◌≡◌, refl, sym, ap, subst, ◌∙◌, inl, inr, Option, some, List,
  [], ◌++◌, arith, ltb, ◌==◌, Bool-cases, less_or_not, ltb-true, ltb-false, ==_true, length, take,
  drop, take-drop, take_all, length-take-drop, length-take-drop_end, no_elements, append_none,
}
use passport.World.{World, Exec, pure}
use passport.Live.{Returns, Returns-pure, Returns-true, Returns-false, Returns-bind}
use passport.Paging.{after_page, pages}

-- A page that is short ends the list.
short_page :
    {A : Type 0} (m n : ℕ) (xs : List A)
    → length (take n (drop m xs)) < n
    → take m xs ++ take n (drop m xs) ≡ xs
short_page m n xs short = elim (less_or_not (length xs) (m + n)) [
  | inl h ↦ take-drop m n xs ∙ take_all (m + n) xs (omega arith)
  | inr h ↦ absurd (omega (arith, length-take-drop m n xs h))
]

-- So does one without elements.
no_page :
    {A : Type 0} (m n : ℕ) (xs : List A) → 0 < n → length (take n (drop m xs)) ≡ 0 → take m xs ≡ xs
no_page m n xs h e =
    sym (append_none (take m xs))
    ∙ (ap (λ ys. take m xs ++ ys) (sym (no_elements (take n (drop m xs)) e))
        ∙ short_page m n xs (omega (arith, h, e)))

module _ {P A S : Type 0} (query_page : ℕ → Exec P (List A)) (size : ℕ) (step : List A → S → S)
    (xs : List A) (w : World P) (start : S)
    (step-append : (ys zs : List A) → step (ys ++ zs) start ≡ step zs (step ys start))
    (step_none : step [] start ≡ start) (positive : 0 < size) where
  abbrev page_at : ℕ → List A
  page_at k = take size (drop (k * size) xs)

  -- What the loop has when it ends.
  abbrev pub IsWhole : Option S → World P → Type 0
  IsWhole s v = (s ≡ some (step xs start)) × (v ≡ w)

  -- What has been taken in before page `k`.
  abbrev so_far : ℕ → S
  so_far k = step (take (k * size) xs) start

  after_page-Returns :
      (k : ℕ) (next : Exec P (Option S))
      → k * size ≤ length xs
      → ((k + 1) * size ≤ length xs
          → step (page_at k) (so_far k) ≡ so_far (k + 1)
          → Returns next w IsWhole)
      → Returns (after_page query_page size step (page_at k) (so_far k) next) w IsWhole
  unfolding after_page
  after_page-Returns k next h go = elim (Bool-cases (length (page_at k) == 0)) [
    | inl none_left ↦ Returns-true (pure (some (so_far k))) _ w none_left (
        Returns-pure (some (so_far k)) w (
          ap (λ l. some (step l start))
              (no_page (k * size) size xs positive (==_true (length (page_at k)) 0 none_left)),
          refl,
        ))
    | inr some_left ↦
        Returns-false (pure (some (so_far k))) _ w some_left
          (elim (Bool-cases (ltb (length (page_at k)) size)) [
            | inl short ↦ Returns-true (pure (some (step (page_at k) (so_far k)))) next w short (
                Returns-pure (some (step (page_at k) (so_far k))) w (
                  ap some (
                      sym (step-append (take (k * size) xs) (page_at k))
                      ∙ ap (λ l. step l start)
                          (short_page (k * size) size xs
                            (ltb-true (length (page_at k)) size short))),
                  refl,
                ))
            | inr full ↦ Returns-false (pure (some (step (page_at k) (so_far k)))) next w full (
                go
                  (omega (
                    arith,
                    length-take-drop_end (k * size) size xs h,
                    ltb-false (length (page_at k)) size full,
                  ))
                  (sym (step-append (take (k * size) xs) (page_at k))
                    ∙ ap (λ l. step l start)
                        (take-drop (k * size) size xs ∙ ap (λ m. take m xs) (omega arith))))
          ])
  ]

  -- Page `j` of the query is page `j` of the list, and reading it changes nothing.
  abbrev pub Reads : Type 0
  Reads =
      (j : ℕ)
      → j * size ≤ length xs
      → Returns (query_page (suc j)) w (λ l v. (l ≡ page_at j) × (v ≡ w))

  pages-Returns_from :
      (n k page : ℕ) (s : S)
      → Reads
      → page ≡ suc k
      → k * size ≤ length xs
      → length xs < (k + n) * size
      → s ≡ so_far k
      → Returns (pages query_page size step n page s) w IsWhole
  unfolding pages
  pages-Returns_from zero k page s read p h fuel e = absurd (omega (arith, h, fuel))
  pages-Returns_from (suc n) k page s read p h fuel e =
      Returns-bind (query_page page) (body s) w
        (subst (λ i. Returns (query_page i) w (λ l v. (l ≡ page_at k) × (v ≡ w))) (sym p)
          (read k h))
        (λ l v q.
          subst (λ l'. Returns (body s l') v IsWhole) (sym q.0)
            (subst (λ v'. Returns (body s (page_at k)) v' IsWhole) (sym q.1)
              (subst (λ s'. Returns (body s' (page_at k)) w IsWhole) (sym e)
                (after_page-Returns k (rest (so_far k) (page_at k)) h (λ h' e'.
                  pages-Returns_from n (k + 1) (page + 1) (step (page_at k) (so_far k)) read
                    (omega (arith, p)) h' (omega (arith, fuel)) e')))))
    where
      rest : S → List A → Exec P (Option S)
      rest t l = pages query_page size step n (page + 1) (step l t)

      body : S → List A → Exec P (Option S)
      body t l = after_page query_page size step l t (rest t l)

  -- Fuel for more pages than the list fills takes in the whole list.
  pub pages-Returns :
      (n : ℕ)
      → Reads
      → length xs < n * size
      → Returns (pages query_page size step n 1 start) w IsWhole
  pages-Returns n read enough =
      let at_start : 0 ≡ 0 * size = omega arith in
      pages-Returns_from n 0 1 start read refl (omega arith) (omega (arith, enough))
        (sym step_none ∙ ap (λ m. step (take m xs) start) at_start)
