-- ===== src/Text/Decimal.antt =====
-- `fmt.Sprintf("%v", n)` and `strconv.ParseUint(s, 10, 64)` of an unsigned number.
use passport.Base.{
  ℕ, zero, suc, ◌+◌, ◌-◌, ◌*◌, ◌/◌, ◌%◌, ◌^◌, ◌≤◌, ◌<◌, ◌≡◌, refl, sym, ap, ◌∙◌, ◌≢◌, inl, inr,
  Bool, true, false, ◌&&◌, Option, none, some, List, [], ◌∷◌, ◌++◌, arith, ltb, leb, if◌then◌else◌,
  Bool-cases,
}

abbrev Text : Type 0
Text = List ℕ

abbrev pub is_digit : ℕ → Bool
is_digit c = leb b'0' c && leb c b'9'

-- Digits from the last one on, with fuel; `decimal` gives enough.
decimal_fuel : ℕ → ℕ → Text
decimal_fuel zero n = []
decimal_fuel (suc f) n =
    let rest = decimal_fuel f (n / 10) ++ (b'0' + n % 10) ∷ [] in
    if ltb n 10 then (b'0' + n) ∷ [] else rest

-- `%v` and `%d` of a `uint64`
unfoldable pub decimal : ℕ → Text
unfolding decimal_fuel
decimal n = decimal_fuel (suc n) n

read_digits : ℕ → Text → ℕ
read_digits acc [] = acc
read_digits acc (c ∷ s) = read_digits (acc * 10 + (c - b'0')) s

abbrev pub max_uint64 : ℕ
max_uint64 = 2 ^ 64 - 1

-- The loop of `ParseUint`: a byte that is no digit, or a value past 64 bits, is an error.
scan_digits : ℕ → Text → Option ℕ
scan_digits acc [] = some acc
scan_digits acc (c ∷ s) =
    let n = acc * 10 + (c - b'0') in
    let rest = scan_digits n s in
    if is_digit c then (if ltb max_uint64 n then none else rest) else none

-- `strconv.ParseUint(s, 10, 64)`
unfoldable pub parse_uint : Text → Option ℕ
unfolding scan_digits
parse_uint [] = none
parse_uint (c ∷ s) = scan_digits 0 (c ∷ s)

abbrev pub AllDigits : Text → Type 0
AllDigits [] = Unit
AllDigits (c ∷ s) = (is_digit c ≡ true) × AllDigits s

AllDigits-append : (s t : Text) → AllDigits s → AllDigits t → AllDigits (s ++ t)
AllDigits-append [] t hs ht = ht
AllDigits-append (c ∷ s) t hs ht = (hs.0, AllDigits-append s t hs.1 ht)

decimal_fuel-AllDigits : (f n : ℕ) → AllDigits (decimal_fuel f n)
unfolding decimal_fuel
decimal_fuel-AllDigits zero n = tt
decimal_fuel-AllDigits (suc f) n = elim (Bool-cases (ltb n 10)) [
  | inl small ↦ rw small (ground arith, tt)
  | inr large ↦ rw large (
      AllDigits-append (decimal_fuel f (n / 10)) _ (decimal_fuel-AllDigits f (n / 10))
        (ground arith, tt))
]

pub decimal-AllDigits : (n : ℕ) → AllDigits (decimal n)
unfolding decimal
decimal-AllDigits n = decimal_fuel-AllDigits (suc n) n

read_digits-append :
    (acc : ℕ) (s t : Text) → read_digits acc (s ++ t) ≡ read_digits (read_digits acc s) t
unfolding read_digits
read_digits-append acc [] t = refl
read_digits-append acc (c ∷ s) t = read_digits-append (acc * 10 + (c - b'0')) s t

read_digits-decimal_fuel : (f n : ℕ) → n < f → read_digits 0 (decimal_fuel f n) ≡ n
unfolding decimal_fuel
read_digits-decimal_fuel zero n h = elim h [ ]
read_digits-decimal_fuel (suc f) n h = elim (Bool-cases (ltb n 10)) [
  | inl small ↦ rw small (unfold read_digits in omega arith)
  | inr large ↦ rw large (
      read_digits-append 0 (decimal_fuel f (n / 10)) _
      ∙ rw (read_digits-decimal_fuel f (n / 10) (ground arith)) (unfold read_digits in omega arith))
]

read_digits-decimal : (n : ℕ) → read_digits 0 (decimal n) ≡ n
unfolding decimal
read_digits-decimal n = read_digits-decimal_fuel (suc n) n (omega arith)

-- Two numbers that print alike are equal.
pub decimal-injective : (m n : ℕ) → decimal m ≡ decimal n → m ≡ n
decimal-injective m n e = sym (read_digits-decimal m) ∙ ap (read_digits 0) e ∙ read_digits-decimal n

-- What follows the digits of a number is found again, if it does not start with a digit.
pub digits-split :
    (s t : Text) (c d : ℕ) (x y : Text)
    → AllDigits s
    → AllDigits t
    → is_digit c ≡ false
    → is_digit d ≡ false
    → s ++ c ∷ x ≡ t ++ d ∷ y
    → (s ≡ t) × (c ∷ x ≡ d ∷ y)
digits-split [] [] c d x y hs ht hc hd e = (refl, e)
digits-split [] (b ∷ t) c d x y hs ht hc hd e = absurd (ground (arith, ht.0))
digits-split (a ∷ s) [] c d x y hs ht hc hd e = absurd (ground (arith, hs.0))
digits-split (a ∷ s) (b ∷ t) c d x y hs ht hc hd e =
    let r = digits-split s t c d x y hs.1 ht.1 hc hd (cc) in (cc (r.0), r.1)

read_digits_mono : (s : Text) (acc : ℕ) → acc ≤ read_digits acc s
unfolding read_digits
read_digits_mono [] acc = omega arith
read_digits_mono (c ∷ s) acc = omega (arith, read_digits_mono s (acc * 10 + (c - b'0')))

scan_digits-eq-some :
    (s : Text) (acc : ℕ)
    → AllDigits s
    → read_digits acc s ≤ max_uint64
    → scan_digits acc s ≡ some (read_digits acc s)
unfolding scan_digits read_digits
scan_digits-eq-some [] acc hs h = refl
scan_digits-eq-some (c ∷ s) acc hs h = ground (
  arith,
  scan_digits-eq-some s (acc * 10 + (c - b'0')) hs.1 h,
  read_digits_mono s (acc * 10 + (c - b'0')),
)

parse_uint-eq-scan : (s : Text) → s ≢ [] → parse_uint s ≡ scan_digits 0 s
unfolding parse_uint
parse_uint-eq-scan [] h = absurd (h refl)
parse_uint-eq-scan (c ∷ s) h = refl

append-ne-nil : (s : Text) (c : ℕ) → s ++ c ∷ [] ≢ []
append-ne-nil [] c e = cc
append-ne-nil (a ∷ s) c e = cc

decimal-ne-nil : (n : ℕ) → decimal n ≢ []
unfolding decimal
decimal-ne-nil n e = elim (Bool-cases (ltb n 10)) [
  | inl small ↦ cc small
  | inr large ↦ append-ne-nil (decimal_fuel n (n / 10)) _ (rw large at e)
]

-- A 64-bit number is read back from its decimal print.
pub parse_uint-decimal : (n : ℕ) → n ≤ max_uint64 → parse_uint (decimal n) ≡ some n
parse_uint-decimal n h =
    parse_uint-eq-scan (decimal n) (decimal-ne-nil n)
    ∙ scan_digits-eq-some (decimal n) 0 (decimal-AllDigits n) (rw (read_digits-decimal n) h)
    ∙ ap some (read_digits-decimal n)
