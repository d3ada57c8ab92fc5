-- ===== src/Closure/Pairs.antt =====
-- The rows of one tenant as pairs, and the rows that a cross join makes of two such lists.
use passport.Base.{
  ℕ, ◌≡◌, refl, ◌∙◌, inl, inr, Option, none, some, List, [], ◌∷◌, ◌++◌, arith, ◌==◌, if◌then◌else◌,
  Bool-cases,
}
use passport.Closure.{Table, find_depth, ancestors, descendants, joined_with, cross_join}
use passport.Closure.Lookup.{IsKeyed, joined, find_depth-append}

-- The depth that a list of pairs has for a tenant.
unfoldable pub depth_in : ℕ → List (ℕ × ℕ) → Option ℕ
depth_in a [] = none
depth_in a (p ∷ ps) = if p.0 == a then some p.1 else depth_in a ps

abbrev pub IsKeyedPairs : List (ℕ × ℕ) → Type 0
IsKeyedPairs [] = Unit
IsKeyedPairs (p ∷ ps) = (depth_in p.0 ps ≡ none) × IsKeyedPairs ps

pub depth_in-ancestors : (d : ℕ) (t : Table) (a : ℕ) → depth_in a (ancestors d t) ≡ find_depth a d t
unfolding depth_in ancestors find_depth
depth_in-ancestors d [] a = refl
depth_in-ancestors d (r ∷ t) a = ground (arith, depth_in-ancestors d t a)

pub depth_in-descendants :
    (a : ℕ) (t : Table) (d : ℕ) → depth_in d (descendants a t) ≡ find_depth a d t
unfolding depth_in descendants find_depth
depth_in-descendants a [] d = refl
depth_in-descendants a (r ∷ t) d = ground (arith, depth_in-descendants a t d)

pub ancestors-IsKeyedPairs : (d : ℕ) (t : Table) → IsKeyed t → IsKeyedPairs (ancestors d t)
unfolding ancestors
ancestors-IsKeyedPairs d [] h = tt
ancestors-IsKeyedPairs d (r ∷ t) h = elim (Bool-cases (r.descendant == d)) [
  | inl e ↦
      rw e (depth_in-ancestors d t r.ancestor ∙ ground (arith, h.0), ancestors-IsKeyedPairs d t h.1)
  | inr e ↦ rw e (ancestors-IsKeyedPairs d t h.1)
]

pub descendants-IsKeyedPairs : (a : ℕ) (t : Table) → IsKeyed t → IsKeyedPairs (descendants a t)
unfolding descendants
descendants-IsKeyedPairs a [] h = tt
descendants-IsKeyedPairs a (r ∷ t) h = elim (Bool-cases (r.ancestor == a)) [
  | inl e ↦ rw e (
    depth_in-descendants a t r.descendant ∙ ground (arith, h.0),
    descendants-IsKeyedPairs a t h.1,
  )
  | inr e ↦ rw e (descendants-IsKeyedPairs a t h.1)
]

pub find_depth-joined_with :
    (p : ℕ × ℕ) (ds : List (ℕ × ℕ)) (a d : ℕ)
    → find_depth a d (joined_with p ds)
      ≡ (if p.0 == a then joined (some p.1) (depth_in d ds) else none)
unfolding find_depth joined_with depth_in
find_depth-joined_with p [] a d = ground arith
find_depth-joined_with p (q ∷ ds) a d = ground (arith, find_depth-joined_with p ds a d)

pub find_depth-cross_join :
    (ps ds : List (ℕ × ℕ)) (a d : ℕ)
    → find_depth a d (cross_join ps ds) ≡ joined (depth_in a ps) (depth_in d ds)
unfolding find_depth cross_join depth_in
find_depth-cross_join [] ds a d = refl
find_depth-cross_join (p ∷ ps) ds a d = ground (
  arith,
  find_depth-append (joined_with p ds) (cross_join ps ds) a d,
  find_depth-joined_with p ds a d,
  find_depth-cross_join ps ds a d,
)

pub joined_with-IsKeyed :
    (p : ℕ × ℕ) (ds : List (ℕ × ℕ)) (rest : Table)
    → IsKeyedPairs ds
    → ((d : ℕ) → find_depth p.0 d rest ≡ none)
    → IsKeyed rest
    → IsKeyed (joined_with p ds ++ rest)
unfolding joined_with
joined_with-IsKeyed p [] rest h apart k = k
joined_with-IsKeyed p (q ∷ ds) rest h apart k = (
  find_depth-append (joined_with p ds) rest p.0 q.0
      ∙ ground (arith, find_depth-joined_with p ds p.0 q.0, h.0, apart q.0),
  joined_with-IsKeyed p ds rest h.1 apart k,
)

pub cross_join-IsKeyed :
    (ps ds : List (ℕ × ℕ)) → IsKeyedPairs ps → IsKeyedPairs ds → IsKeyed (cross_join ps ds)
unfolding cross_join
cross_join-IsKeyed [] ds hp hd = tt
cross_join-IsKeyed (p ∷ ps) ds hp hd =
    joined_with-IsKeyed p ds (cross_join ps ds) hd
      (λ d. find_depth-cross_join ps ds p.0 d ∙ ground (arith, hp.0))
      (cross_join-IsKeyed ps ds hp.1 hd)
