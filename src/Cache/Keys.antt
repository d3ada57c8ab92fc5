-- ===== src/Cache/Keys.antt =====
-- The keys of cache/cache.go: "tenant-%d", "org-%d" and "org-member-%d-%d".
use passport.Base.{ℕ, ◌≡◌, ◌≢◌, refl, sym, ap, [], ◌∷◌, ◌++◌, arith, drop}
use passport.Text.{Text, codes}
use passport.Text.Decimal.{decimal, decimal-injective, decimal-AllDigits, AllDigits, digits-split}

-- tenantCacheKey
unfoldable pub tenant_cache_key : ℕ → Text
tenant_cache_key id = codes "tenant-" ++ decimal id

-- orgCacheKey
unfoldable pub org_cache_key : ℕ → Text
org_cache_key id = codes "org-" ++ decimal id

-- orgMemberCacheKey
unfoldable pub org_member_cache_key : ℕ → ℕ → Text
org_member_cache_key org_id uid =
    codes "org-member-" ++ (decimal org_id ++ (codes "-" ++ decimal uid))

abbrev first : Text → ℕ
first [] = 0
first (c ∷ s) = c

-- Each family of keys determines its numbers, and no two families meet.
pub tenant_cache_key-injective : (i j : ℕ) → tenant_cache_key i ≡ tenant_cache_key j → i ≡ j
unfolding tenant_cache_key codes
tenant_cache_key-injective i j e = decimal-injective i j (ap (drop 7) e)

pub org_cache_key-injective : (i j : ℕ) → org_cache_key i ≡ org_cache_key j → i ≡ j
unfolding org_cache_key codes
org_cache_key-injective i j e = decimal-injective i j (ap (drop 4) e)

pub tenant_cache_key-ne-org_cache_key : (i j : ℕ) → tenant_cache_key i ≢ org_cache_key j
unfolding tenant_cache_key org_cache_key codes
tenant_cache_key-ne-org_cache_key i j e = omega (arith, ap first e)

pub tenant_cache_key-ne-org_member_cache_key :
    (i o u : ℕ) → tenant_cache_key i ≢ org_member_cache_key o u
unfolding tenant_cache_key org_member_cache_key codes
tenant_cache_key-ne-org_member_cache_key i o u e = omega (arith, ap first e)

-- A number does not start with the "m" of "member".
digits-ne-member : (s t : Text) → AllDigits s → s ≢ b'm' ∷ t
digits-ne-member [] t h e = cc
digits-ne-member (c ∷ s) t h e = ground (arith, h.0)

pub org_cache_key-ne-org_member_cache_key : (i o u : ℕ) → org_cache_key i ≢ org_member_cache_key o u
unfolding org_cache_key org_member_cache_key codes
org_cache_key-ne-org_member_cache_key i o u e =
    digits-ne-member (decimal i) (drop 5 (org_member_cache_key o u)) (decimal-AllDigits i)
      (ap (drop 4) e)

pub org_member_cache_key-injective :
    (o u p v : ℕ) → org_member_cache_key o u ≡ org_member_cache_key p v → (o ≡ p) × (u ≡ v)
unfolding org_member_cache_key codes
org_member_cache_key-injective o u p v e =
    let parts =
      digits-split (decimal o) (decimal p) b'-' b'-' (decimal u) (decimal v) (decimal-AllDigits o)
        (decimal-AllDigits p) refl refl (ap (drop 11) e) in
    (decimal-injective o p parts.0, decimal-injective u v (ap (drop 1) parts.1))

-- The families of keys.
pub data CacheKey : Type 0 where
  of_tenant : ℕ → CacheKey
  of_org : ℕ → CacheKey
  of_member : ℕ → ℕ → CacheKey

unfoldable pub cache_key : CacheKey → Text
unfolding tenant_cache_key org_cache_key org_member_cache_key
cache_key (of_tenant id) = tenant_cache_key id
cache_key (of_org id) = org_cache_key id
cache_key (of_member org_id uid) = org_member_cache_key org_id uid

-- A key of defaultCache determines what it is for: two keys that are equal as strings are keys of
-- the same kind, for the same ids.
pub cache_key-injective : (k j : CacheKey) → cache_key k ≡ cache_key j → k ≡ j
unfolding cache_key
cache_key-injective (of_tenant i) (of_tenant j) e = ap of_tenant (tenant_cache_key-injective i j e)
cache_key-injective (of_tenant i) (of_org j) e = absurd (tenant_cache_key-ne-org_cache_key i j e)
cache_key-injective (of_tenant i) (of_member o u) e =
    absurd (tenant_cache_key-ne-org_member_cache_key i o u e)
cache_key-injective (of_org i) (of_tenant j) e =
    absurd (tenant_cache_key-ne-org_cache_key j i (sym e))
cache_key-injective (of_org i) (of_org j) e = ap of_org (org_cache_key-injective i j e)
cache_key-injective (of_org i) (of_member o u) e =
    absurd (org_cache_key-ne-org_member_cache_key i o u e)
cache_key-injective (of_member o u) (of_tenant j) e =
    absurd (tenant_cache_key-ne-org_member_cache_key j o u (sym e))
cache_key-injective (of_member o u) (of_org j) e =
    absurd (org_cache_key-ne-org_member_cache_key j o u (sym e))
cache_key-injective (of_member o u) (of_member p v) e =
    let same = org_member_cache_key-injective o u p v e in rw (same.0, same.1) refl
