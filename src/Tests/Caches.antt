-- ===== src/Tests/Caches.antt =====
-- The expiring map.
use passport.Base.{ℕ, ◌-◌, leb, ◌≡◌, refl, none, some, [], ◌∷◌, arith, ltb, if◌then◌else◌}
use passport.Text.{codes, text_eq}
use passport.Cache.{Entry, ExpiredMap, expiry, lookup, set, get, ttl, do_for_each}
use passport.Cache.Keys.{of_member, cache_key-injective}
use passport.Cache.Laws.{IsMap, is_found, has_seconds, get-set, ttl-set, get_after_purges}

abbrev short : Entry ℕ
short = record { val = 7; expired_at = 105 }

abbrev long : Entry ℕ
long = record { val = 8; expired_at = 400 }

abbrev map_of_two : ExpiredMap ℕ
map_of_two = (codes "a", short) ∷ (codes "b", long) ∷ []

-- A time to live of 5 seconds from time 100 has passed at time 105.
set_example : (get {V = ℕ} 105 (codes "a") (set 100 (codes "a") 7 5 [])).0 ≡ none
unfolding get set codes text_eq
set_example = refl

get-set_example : (get 104 (codes "b") (set 100 (codes "a") 9 5 map_of_two)).0 ≡ (
    if text_eq (codes "a") (codes "b")
    then (if ltb 104 (expiry 100 5) then some 9 else none)
    else (get 104 (codes "b") map_of_two).0)
get-set_example = get-set 100 104 5 (codes "a") (codes "b") 9 map_of_two (omega arith)

ttl-set_example :
    ((ttl 105 (codes "b") (set 100 (codes "a") 9 5 map_of_two)).0 ≡ (
      if text_eq (codes "a") (codes "b")
      then (if leb 105 (expiry 100 5) then some (expiry 100 5 - 105) else none)
      else (ttl 105 (codes "b") map_of_two).0))
    × (is_found (get 105 (codes "b") map_of_two).0 ≡ has_seconds (ttl 105 (codes "b") map_of_two).0)
ttl-set_example = ttl-set 100 105 5 (codes "a") (codes "b") 9 map_of_two (omega arith)

map_of_two-IsMap : IsMap map_of_two
unfolding lookup codes text_eq
map_of_two-IsMap = (refl, (refl, tt))

get_after_purges_example :
    ((get 300 (codes "b") (get 200 (codes "a") map_of_two).1).0
      ≡ (get 300 (codes "b") map_of_two).0)
    × ((get 300 (codes "b") (do_for_each 200 map_of_two).1).0 ≡ (get 300 (codes "b") map_of_two).0)
get_after_purges_example =
    get_after_purges 200 300 (codes "a") (codes "b") map_of_two map_of_two-IsMap (omega arith)

cache_key-injective_example : of_member 1 23 ≡ of_member 1 23
cache_key-injective_example = cache_key-injective (of_member 1 23) (of_member 1 23) refl
