-- ===== src/Cache.antt =====
-- cache/expiredMap.go: a map whose entries expire. Time is in seconds, as `time.Now().Unix()`, and
-- an argument of each call; a time to live below 0 acts like 0, and is not modelled.
pub mod Laws
pub mod Keys
use passport.Base.{
  ℕ, ◌+◌, ◌-◌, Bool, Option, none, some, List, [], ◌∷◌, not, leb, ltb, ◌==◌, if◌then◌else◌, keep_if,
  length,
}
use passport.Text.{Text, text_eq}

pub record Entry (V : Type 0) : Type 0 where
  pub val : V
  pub expired_at : ℕ

abbrev pub ExpiredMap : Type 0 → Type 0
ExpiredMap V = List (Text × Entry V)

-- A time to live up to `now` is relative, any other is a time.
unfoldable pub expiry : ℕ → ℕ → ℕ
expiry now alive_second = if leb alive_second now then now + alive_second else alive_second

module _ {V : Type 0} where
  -- `e.m[key]`
  unfoldable pub lookup : Text → ExpiredMap V → Option (Entry V)
  lookup key [] = none
  lookup key ((k, v) ∷ m) = if text_eq k key then some v else lookup key m

  -- `delete(e.m, key)`
  unfoldable pub remove : Text → ExpiredMap V → ExpiredMap V
  remove key [] = []
  remove key ((k, v) ∷ m) = let rest = remove key m in if text_eq k key then rest else (k, v) ∷ rest

  -- `e.m[key] = v`
  unfoldable pub put : Text → Entry V → ExpiredMap V → ExpiredMap V
  put key v m = (key, v) ∷ remove key m

  unfoldable pub set : ℕ → Text → V → ℕ → ExpiredMap V → ExpiredMap V
  unfolding put expiry
  set now key value alive_second m =
      if alive_second == 0
      then m
      else put key (record { val = value; expired_at = expiry now alive_second }) m

  unfoldable pub delete : Text → ExpiredMap V → ExpiredMap V
  unfolding remove
  delete key m = remove key m

  -- An expired entry is removed by the read that meets it.
  unfoldable pub get : ℕ → Text → ExpiredMap V → Option V × ExpiredMap V
  unfolding lookup delete
  get now key m = elim (lookup key m) [
    | none ↦ (none, m)
    | some e ↦ if leb e.expired_at now then (none, delete key m) else (some e.val, m)
  ]

  -- `none` is the source's -1.
  unfoldable pub ttl : ℕ → Text → ExpiredMap V → Option ℕ × ExpiredMap V
  unfolding lookup delete
  ttl now key m = elim (lookup key m) [
    | none ↦ (none, m)
    | some e ↦ if ltb e.expired_at now then (none, delete key m) else (some (e.expired_at - now), m)
  ]

  pub count : ExpiredMap V → ℕ
  count m = length m

  pub clear : ExpiredMap V → ExpiredMap V
  clear m = []

  -- DoForEach: the entries that the handler is called on, and the map that is left.
  unfoldable pub do_for_each : ℕ → ExpiredMap V → List (Text × V) × ExpiredMap V
  do_for_each now [] = ([], [])
  do_for_each now ((k, e) ∷ m) =
      let (called, rest) = do_for_each now m in
      if leb e.expired_at now then (called, rest) else ((k, e.val) ∷ called, (k, e) ∷ rest)

  -- DoForEachWithBreak: the handler stops the walk by returning true.
  unfoldable pub do_for_each_with_break :
      ℕ → (Text → V → Bool) → ExpiredMap V → List (Text × V) × ExpiredMap V
  do_for_each_with_break now handler [] = ([], [])
  do_for_each_with_break now handler ((k, e) ∷ m) =
      let (called, rest) = do_for_each_with_break now handler m in
      if leb e.expired_at now
      then (called, rest)
      else if handler k e.val
      then ((k, e.val) ∷ [], (k, e) ∷ m)
      else ((k, e.val) ∷ called, (k, e) ∷ rest)
