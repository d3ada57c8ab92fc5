-- ===== src/Cache/Laws.antt =====
-- What a reader of the map sees after each operation.
use passport.Base.{
  ℕ, ◌-◌, ◌≤◌, ◌<◌, ◌≡◌, refl, Bool, true, false, Option, none, some, [], ◌∷◌, leb, ltb,
  if◌then◌else◌, arith,
}
use passport.Text.{Text, text_eq, text_eq_iff, text_eq_refl}
use passport.Cache.{
  Entry, ExpiredMap, lookup, remove, put, set, expiry, delete, get, ttl, do_for_each,
}

-- TTL reports more than 0 seconds.
unfoldable pub has_seconds : Option ℕ → Bool
has_seconds none = false
has_seconds (some n) = ltb 0 n

module _ {V : Type 0} where
  unfoldable pub is_found : Option V → Bool
  is_found none = false
  is_found (some v) = true

  pub lookup-remove :
      (k j : Text) (m : ExpiredMap V)
      → lookup j (remove k m) ≡ (if text_eq k j then none else lookup j m)
  unfolding lookup remove
  lookup-remove k j [] = ground arith
  lookup-remove k j ((i, v) ∷ m) =
      ground (arith, lookup-remove k j m, text_eq_iff i k, text_eq_iff i j, text_eq_iff k j)

  pub lookup-put :
      (k j : Text) (v : Entry V) (m : ExpiredMap V)
      → lookup j (put k v m) ≡ (if text_eq k j then some v else lookup j m)
  unfolding put lookup
  lookup-put k j v m = ground (arith, lookup-remove k j m)

  -- A value that is set with a time to live above 0, relative or absolute, is read back while its
  -- expiry lies ahead and not from then on; every other key reads as before. Both hold for a read
  -- at any time.
  pub get-set :
      (now later alive : ℕ) (k j : Text) (v : V) (m : ExpiredMap V)
      → 0 < alive
      → (get later j (set now k v alive m)).0 ≡ (
          if text_eq k j
          then (if ltb later (expiry now alive) then some v else none)
          else (get later j m).0)
  unfolding get set
  get-set now later alive k j v m h =
      ground (arith, lookup-put k j (record { val = v; expired_at = expiry now alive }) m)

  get-get :
      (now later : ℕ) (k j : Text) (m : ExpiredMap V)
      → now ≤ later
      → (get later j (get now k m).1).0 ≡ (get later j m).0
  unfolding get delete
  get-get now later k j m h = ground (arith, lookup-remove k j m, text_eq_iff k j)

  -- After a value is set with a time to live above 0, relative or absolute, TTL reports for its key
  -- the seconds to the expiry up to and including the second of expiry, and -1 from then on; for
  -- every other key it reports what it did before. At any time, and for any key of any map, Get
  -- finds a value exactly when TTL reports more than 0 seconds.
  pub ttl-set :
      (now later alive : ℕ) (k j : Text) (v : V) (m : ExpiredMap V)
      → 0 < alive
      → ((ttl later j (set now k v alive m)).0 ≡ (
          if text_eq k j
          then (if leb later (expiry now alive) then some (expiry now alive - later) else none)
          else (ttl later j m).0))
        × (is_found (get later j m).0 ≡ has_seconds (ttl later j m).0)
  unfolding get ttl set is_found has_seconds
  ttl-set now later alive k j v m h = (
    ground (arith, lookup-put k j (record { val = v; expired_at = expiry now alive }) m),
    ground arith,
  )

  -- A Go map holds a key once.
  abbrev pub IsMap : ExpiredMap V → Type 0
  IsMap [] = Unit
  IsMap ((k, e) ∷ m) = (lookup k m ≡ none) × IsMap m

  pub remove-IsMap : (k : Text) (m : ExpiredMap V) → IsMap m → IsMap (remove k m)
  unfolding remove
  remove-IsMap k [] h = tt
  remove-IsMap k ((i, e) ∷ m) h = ground (arith, lookup-remove k i m, remove-IsMap k m h.1)

  pub set-IsMap :
      (now alive : ℕ) (k : Text) (v : V) (m : ExpiredMap V) → IsMap m → IsMap (set now k v alive m)
  unfolding set
  set-IsMap now alive k v m h =
      ground (arith, lookup-remove k k m, text_eq_refl k, remove-IsMap k m h)

  lookup-do_for_each :
      (now : ℕ) (k : Text) (m : ExpiredMap V)
      → IsMap m
      → lookup k (do_for_each now m).1
        ≡ elim (lookup k m) [ none ↦ none | some e ↦ if leb e.expired_at now then none else some e ]
  unfolding lookup do_for_each
  lookup-do_for_each now k [] h = refl
  lookup-do_for_each now k ((i, e) ∷ m) h =
      ground (arith, lookup-do_for_each now k m h.1, text_eq_iff i k)

  get-do_for_each :
      (now later : ℕ) (k : Text) (m : ExpiredMap V)
      → IsMap m
      → now ≤ later
      → (get later k (do_for_each now m).1).0 ≡ (get later k m).0
  unfolding get
  get-do_for_each now later k m h le = ground (arith, lookup-do_for_each now k m h)

  -- In a map that holds each key once, neither a read nor a walk over all entries, with their
  -- removal of what has expired, changes any read of any key at the same time or later.
  pub get_after_purges :
      (now later : ℕ) (k j : Text) (m : ExpiredMap V)
      → IsMap m
      → now ≤ later
      → ((get later j (get now k m).1).0 ≡ (get later j m).0)
        × ((get later j (do_for_each now m).1).0 ≡ (get later j m).0)
  get_after_purges now later k j m h le =
      (get-get now later k j m le, get-do_for_each now later j m h le)
