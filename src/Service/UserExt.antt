-- ===== src/Service/UserExt.antt =====
-- The lists of ids in a user's `ext` (service/datascope.go), and what the JSON column makes of a
-- value that is written to it.
use passport.Base.{
  Bool, true, false, ℕ, zero, suc, ◌+◌, ◌*◌, ◌/◌, ◌%◌, ◌<◌, ◌≡◌, refl, Option, none, some, List, [],
  ◌∷◌, ◌&&◌, ◌||◌, ltb, ◌==◌, if◌then◌else◌, if_true, arith,
}
use passport.Text.{Text, text_eq}
use passport.Text.Decimal.{parse_uint}
unfoldable pub use passport.Protos.{value_of}
use passport.Protos.{Value, Values, MapStruct}

-- asUint64
unfoldable pub as_uint64 : Value → Option ℕ
as_uint64 Value.nil = none
as_uint64 (Value.bool b) = none
as_uint64 (Value.uint64 n) = some n
as_uint64 (Value.int64 negative n) = if negative then none else some n
as_uint64 (Value.float64 negative whole has_rest) = if negative then none else some whole
as_uint64 (Value.text s) = parse_uint s
as_uint64 (Value.uint64s ns) = none
as_uint64 (Value.values vs) = none

-- `if n, ok := asUint64(item); ok && n > 0 { out = append(out, n) }`
cons_positive : Option ℕ → List ℕ → List ℕ
cons_positive none ns = ns
cons_positive (some n) ns = if ltb 0 n then n ∷ ns else ns

ids_of : Values → List ℕ
unfolding as_uint64 cons_positive
ids_of Values.none = []
ids_of (Values.more v vs) = cons_positive (as_uint64 v) (ids_of vs)

-- parseUint64Slice; a []float64 is never the value of a key
unfoldable pub parse_uint64_slice : Value → List ℕ
unfolding as_uint64 cons_positive ids_of
parse_uint64_slice Value.nil = []
parse_uint64_slice (Value.uint64s ns) = ns
parse_uint64_slice (Value.values vs) = ids_of vs
parse_uint64_slice (Value.bool b) = []
parse_uint64_slice (Value.uint64 n) = cons_positive (some n) []
parse_uint64_slice (Value.int64 negative n) = cons_positive (as_uint64 (Value.int64 negative n)) []
parse_uint64_slice (Value.float64 negative whole has_rest) =
    cons_positive (as_uint64 (Value.float64 negative whole has_rest)) []
parse_uint64_slice (Value.text s) = cons_positive (parse_uint s) []

-- The multiple of `unit` nearest to a number; of two that are as near, the even multiple.
round_half_even : ℕ → ℕ → ℕ
round_half_even unit n =
    let q = n / unit in
    let r = n % unit in
    if ltb unit (2 * r) || (2 * r == unit && q % 2 == 1) then (q + 1) * unit else q * unit

-- `unit` is the distance of neighbouring float64 values where a number has 53 bits above it; each
-- unit of fuel doubles it.
round_at : ℕ → ℕ → ℕ → ℕ
unfolding round_half_even
round_at zero unit n = n
round_at (suc fuel) unit n =
    let rest = round_at fuel (2 * unit) n in
    if ltb n (unit * 9007199254740992) then round_half_even unit n else rest

-- The float64 that a number of 64 bits is read as. Below 2 ^ 53 = 9007199254740992 it is exact;
-- from there to 2 ^ 64 the unit is one of the 11 powers from 2 to 2 ^ 11.
unfoldable pub float64_of : ℕ → ℕ
unfolding round_at
float64_of n = if ltb n 9007199254740992 then n else round_at 11 2 n

-- MapStruct.Value and MapStruct.Scan: a value that is written to a JSON column and read back. Any
-- number is a float64 then.
json_numbers : List ℕ → Values
unfolding float64_of
json_numbers [] = Values.none
json_numbers (n ∷ ns) = Values.more (Value.float64 false (float64_of n) false) (json_numbers ns)

unfoldable mutual
  unfolding json_numbers float64_of

  pub as_json : Value → Value
  as_json Value.nil = Value.nil
  as_json (Value.bool b) = Value.bool b
  as_json (Value.uint64 n) = Value.float64 false (float64_of n) false
  as_json (Value.int64 negative n) = Value.float64 negative (float64_of n) false
  as_json (Value.float64 negative whole has_rest) = Value.float64 negative whole has_rest
  as_json (Value.text s) = Value.text s
  as_json (Value.uint64s ns) = Value.values (json_numbers ns)
  as_json (Value.values vs) = Value.values (all_as_json vs)

  pub all_as_json : Values → Values
  all_as_json Values.none = Values.none
  all_as_json (Values.more v vs) = Values.more (as_json v) (all_as_json vs)

unfoldable pub ext_as_json : MapStruct → MapStruct
unfolding as_json
ext_as_json [] = []
ext_as_json ((k, v) ∷ m) = (k, as_json v) ∷ ext_as_json m

-- `v == nil`
unfoldable pub is_nil : Value → Bool
is_nil Value.nil = true
is_nil _ = false

-- `delete(m, k)` and `m[k] = v`
unfoldable pub drop_key : Text → MapStruct → MapStruct
drop_key k [] = []
drop_key k ((j, v) ∷ m) = let rest = drop_key k m in if text_eq j k then rest else (j, v) ∷ rest

unfoldable pub set_key : Text → Value → MapStruct → MapStruct
unfolding drop_key
set_key k v m = (k, v) ∷ drop_key k m

-- Every id is positive, and below 2 ^ 53.
unfoldable pub AllExact : List ℕ → Type 0
AllExact [] = Unit
AllExact (n ∷ ns) = (0 < n) × ((n < 9007199254740992) × AllExact ns)

float64_of_small : (n : ℕ) → n < 9007199254740992 → float64_of n ≡ n
unfolding float64_of
float64_of_small n h = if_true {b = ltb n 9007199254740992} _ _ (ground (arith, h))

cons_positive_lem :
    (n m : ℕ) (ns ms : List ℕ) → m ≡ n → 0 < n → ms ≡ ns → cons_positive (some m) ms ≡ n ∷ ns
unfolding cons_positive
cons_positive_lem n m ns ms e h t = ground arith

ids_of-json_numbers : (ns : List ℕ) → AllExact ns → ids_of (json_numbers ns) ≡ ns
unfolding ids_of json_numbers AllExact as_uint64
ids_of-json_numbers [] h = refl
ids_of-json_numbers (n ∷ ns) h =
    cons_positive_lem n (float64_of n) ns _ (float64_of_small n h.1.0) h.0
      (ids_of-json_numbers ns h.1.1)

-- A list of ids, each above 0 and below 2 ^ 53, that is written to `ext` is read back as it is.
pub parse_uint64_slice-as_json :
    (ns : List ℕ) → AllExact ns → parse_uint64_slice (as_json (Value.uint64s ns)) ≡ ns
unfolding parse_uint64_slice as_json
parse_uint64_slice-as_json ns h = ids_of-json_numbers ns h
