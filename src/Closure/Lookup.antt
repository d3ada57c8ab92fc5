-- ===== src/Closure/Lookup.antt =====
-- What inserting, upserting and deleting rows does to the depth stored for a pair.
use passport.Base.{
  ℕ, ◌+◌, ◌≡◌, refl, ◌∙◌, inl, inr, Bool, true, Option, none, some, List, [], ◌∷◌, ◌++◌, arith, ltb,
  if◌then◌else◌, keep_if, Bool-cases,
}
use passport.Closure.{
  Row, row, Table, is_key, find_depth, related, insert_ignore, insert_ignore_all, upsert_least,
  upsert_least_all,
}

-- PRIMARY KEY (ancestor_id, descendant_id)
abbrev pub IsKeyed : Table → Type 0
IsKeyed [] = Unit
IsKeyed (r ∷ t) = (find_depth r.ancestor r.descendant t ≡ none) × IsKeyed t

-- The first of two depths, if there is one.
abbrev pub or_else : Option ℕ → Option ℕ → Option ℕ
or_else none o = o
or_else (some k) o = some k

-- The smaller of two depths, if there are two.
abbrev pub least : Option ℕ → Option ℕ → Option ℕ
least none o = o
least (some k) none = some k
least (some k) (some j) = if ltb j k then some j else some k

-- The depth of a joined row.
abbrev pub joined : Option ℕ → Option ℕ → Option ℕ
joined none o = none
joined (some i) none = none
joined (some i) (some j) = some (i + j + 1)

abbrev pub deeper : Option ℕ → Option ℕ
deeper none = none
deeper (some k) = some (k + 1)

pub find_depth-insert_ignore :
    (r : Row) (t : Table) (a d : ℕ)
    → find_depth a d (insert_ignore r t)
      ≡ or_else (find_depth a d t) (if is_key a d r then some r.depth else none)
unfolding find_depth insert_ignore related
find_depth-insert_ignore r t a d = ground arith

pub find_depth-insert_ignore_all :
    (rs : List Row) (t : Table) (a d : ℕ)
    → find_depth a d (insert_ignore_all rs t) ≡ or_else (find_depth a d t) (find_depth a d rs)
unfolding insert_ignore_all find_depth
find_depth-insert_ignore_all [] t a d = ground arith
find_depth-insert_ignore_all (r ∷ rs) t a d = ground (
  arith,
  find_depth-insert_ignore_all rs (insert_ignore r t) a d,
  find_depth-insert_ignore r t a d,
)

pub find_depth-upsert_least :
    (r : Row) (t : Table) (a d : ℕ)
    → find_depth a d (upsert_least r t)
      ≡ least (find_depth a d t) (if is_key a d r then some r.depth else none)
unfolding find_depth upsert_least
find_depth-upsert_least r [] a d = ground arith
find_depth-upsert_least r (s ∷ t) a d = ground (arith, find_depth-upsert_least r t a d)

pub find_depth-upsert_least_all :
    (rs : List Row) (t : Table) (a d : ℕ)
    → IsKeyed rs
    → find_depth a d (upsert_least_all rs t) ≡ least (find_depth a d t) (find_depth a d rs)
unfolding upsert_least_all find_depth
find_depth-upsert_least_all [] t a d h = ground arith
find_depth-upsert_least_all (r ∷ rs) t a d h = ground (
  arith,
  find_depth-upsert_least_all rs (upsert_least r t) a d h.1,
  find_depth-upsert_least r t a d,
)

pub find_depth-append :
    (s t : Table) (a d : ℕ)
    → find_depth a d (s ++ t) ≡ or_else (find_depth a d s) (find_depth a d t)
unfolding find_depth
find_depth-append [] t a d = refl
find_depth-append (r ∷ s) t a d = ground (arith, find_depth-append s t a d)

pub row_of_key : (r : Row) (a d : ℕ) → is_key a d r ≡ true → r ≡ row a d r.depth
row_of_key r a d h = ground arith

-- A depth survives a DELETE if the row that holds it does.
abbrev pub kept : (Row → Bool) → ℕ → ℕ → Option ℕ → Option ℕ
kept q a d none = none
kept q a d (some k) = if q (row a d k) then some k else none

pub find_depth-keep_if :
    (q : Row → Bool) (t : Table) (a d : ℕ)
    → IsKeyed t
    → find_depth a d (keep_if q t) ≡ kept q a d (find_depth a d t)
unfolding find_depth
find_depth-keep_if q [] a d h = refl
find_depth-keep_if q (r ∷ t) a d h =
    ground (arith, find_depth-keep_if q t a d h.1, row_of_key r a d)

pub keep_if-IsKeyed : (q : Row → Bool) (t : Table) → IsKeyed t → IsKeyed (keep_if q t)
keep_if-IsKeyed q [] h = tt
keep_if-IsKeyed q (r ∷ t) h = elim (Bool-cases (q r)) [
  | inl e ↦ rw e (
    find_depth-keep_if q t r.ancestor r.descendant h.1 ∙ ground (arith, h.0),
    keep_if-IsKeyed q t h.1,
  )
  | inr e ↦ rw e (keep_if-IsKeyed q t h.1)
]

pub upsert_least-IsKeyed : (r : Row) (t : Table) → IsKeyed t → IsKeyed (upsert_least r t)
unfolding upsert_least
upsert_least-IsKeyed r [] h = (unfold find_depth in refl, tt)
upsert_least-IsKeyed r (s ∷ t) h = elim (Bool-cases (is_key r.ancestor r.descendant s)) [
  | inl e ↦ rw e (ground (arith, h.0), h.1)
  | inr e ↦ rw e (
    find_depth-upsert_least r t s.ancestor s.descendant ∙ ground (arith, h.0),
    upsert_least-IsKeyed r t h.1,
  )
]

pub upsert_least_all-IsKeyed :
    (rs : List Row) (t : Table) → IsKeyed t → IsKeyed (upsert_least_all rs t)
unfolding upsert_least_all
upsert_least_all-IsKeyed [] t h = h
upsert_least_all-IsKeyed (r ∷ rs) t h =
    upsert_least_all-IsKeyed rs (upsert_least r t) (upsert_least-IsKeyed r t h)

pub insert_ignore-IsKeyed : (r : Row) (t : Table) → IsKeyed t → IsKeyed (insert_ignore r t)
unfolding insert_ignore related
insert_ignore-IsKeyed r t h = ground arith

pub insert_ignore_all-IsKeyed :
    (rs : List Row) (t : Table) → IsKeyed t → IsKeyed (insert_ignore_all rs t)
unfolding insert_ignore_all
insert_ignore_all-IsKeyed [] t h = h
insert_ignore_all-IsKeyed (r ∷ rs) t h =
    insert_ignore_all-IsKeyed rs (insert_ignore r t) (insert_ignore-IsKeyed r t h)
