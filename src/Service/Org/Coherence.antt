-- ===== src/Service/Org/Coherence.antt =====
-- The invariant of defaultCache: what it holds is found under the key of its kind, and agrees with
-- the tables.
use passport.Base.{
  ℕ, ◌≡◌, ◌⊎◌, inl, inr, refl, subst, true, none, some, arith, leb, ◌==◌, Option-cases, Bool-cases,
}
use passport.Text.{Text, text_eq, text_eq_iff}
use passport.World.{World, Cached, tenant, org, member}
use passport.Cache.{Entry, ExpiredMap, lookup, get, set, delete, expiry}
use passport.Cache.Laws.{lookup-remove, lookup-put}
use passport.Cache.Keys.{tenant_cache_key, org_cache_key, org_member_cache_key}
use passport.Dao.Org.{org_by_id, is_member}

-- What a cached value says.
abbrev pub Agrees : {P : Type 0} → World P → Text → Cached → Type 0
Agrees w k (tenant t) = k ≡ tenant_cache_key t.id
Agrees w k (org o) = (k ≡ org_cache_key o.id) × (org_by_id o.id w.orgs ≡ some o)
Agrees w k (member b) =
    (o : ℕ) × (u : ℕ) × (k ≡ org_member_cache_key o u)
    × (b ≡ true)
    × (is_member o u w.members ≡ true)

pub record IsCoherent {P : Type 0} (w : World P) : Type 0 where
  pub agrees : (k : Text) (e : Entry Cached) → lookup k w.cache ≡ some e → Agrees w k e.val

-- A read finds what is stored, or nothing.
get-cases :
    (now : ℕ) (k : Text) (m : ExpiredMap Cached)
    → ((get now k m).0 ≡ none)
      ⊎ ((e : Entry Cached) × (lookup k m ≡ some e) × ((get now k m).0 ≡ some e.val))
unfolding get
get-cases now k m = elim (Option-cases (lookup k m)) [
  | inl e ↦ inl (rw (e, get))
  | inr (v, e) ↦ elim (Bool-cases (leb v.expired_at now)) [
    | inl gone ↦ inl (ground arith)
    | inr live ↦ inr (v, e, ground arith)
  ]
]

-- It leaves no entry that was not there.
lookup-get :
    (now : ℕ) (k j : Text) (m : ExpiredMap Cached) (e : Entry Cached)
    → lookup j (get now k m).1 ≡ some e
    → lookup j m ≡ some e
unfolding get delete
lookup-get now k j m e h = ground (arith, lookup-remove k j m)

module _ {P : Type 0} where
  -- The cache holds nothing new and the tables are as before.
  pub shrink-IsCoherent :
      (w v : World P)
      → IsCoherent w
      → v.orgs ≡ w.orgs
      → v.members ≡ w.members
      → ((k : Text) (e : Entry Cached) → lookup k v.cache ≡ some e → lookup k w.cache ≡ some e)
      → IsCoherent v
  shrink-IsCoherent w v c same_orgs same_members sub = record {
    agrees = λ k e h. go k e.val (c.agrees k e (sub k e h));
  }
    where
      go : (k : Text) (x : Cached) → Agrees w k x → Agrees v k x
      go k (tenant t) a = a
      go k (org o) a = (a.0, rw same_orgs a.1)
      go k (member b) (o, u, e, t, m) = (o, u, e, t, rw same_members m)

  store-Agrees :
      (w : World P) (k j : Text) (x : Cached) (alive : ℕ) (e : Entry Cached)
      → IsCoherent w
      → Agrees w k x
      → lookup j (set w.now k x alive w.cache) ≡ some e
      → Agrees w j e.val
  unfolding set
  store-Agrees w k j x alive e c a h = elim (Bool-cases (alive == 0)) [
    | inl no_time ↦ c.agrees j e (ground arith)
    | inr lives ↦ elim (Bool-cases (text_eq k j)) [
      | inl same ↦
          subst (λ y. Agrees w j y)
            (ground
              (arith, lookup-put k j (record { val = x; expired_at = expiry w.now alive }) w.cache))
            (subst (λ i. Agrees w i x) ((text_eq_iff k j).0 same) a)
      | inr differ ↦ c.agrees j e (
          ground
            (arith, lookup-put k j (record { val = x; expired_at = expiry w.now alive }) w.cache))
    ]
  ]

  pub store-IsCoherent :
      (w : World P) (k : Text) (x : Cached) (alive : ℕ)
      → IsCoherent w
      → Agrees w k x
      → IsCoherent (record w { cache = set w.now k x alive w.cache })
  store-IsCoherent w k x alive c a = record {
    agrees = λ j e h. go j e.val (store-Agrees w k j x alive e c a h);
  }
    where
      go :
          (j : Text) (y : Cached)
          → Agrees w j y
          → Agrees (record w { cache = set w.now k x alive w.cache }) j y
      go j (tenant t) a' = a'
      go j (org o) a' = a'
      go j (member b) a' = a'

  -- What a read of the cache finds under a key agrees with the tables.
  pub load-Agrees :
      (w : World P) (k : Text)
      → IsCoherent w
      → ((get w.now k w.cache).0 ≡ none)
        ⊎ ((x : Cached) × ((get w.now k w.cache).0 ≡ some x) × Agrees w k x)
  load-Agrees w k c = elim (get-cases w.now k w.cache) [
    | inl e ↦ inl e
    | inr (v, found, e) ↦ inr (v.val, e, c.agrees k v found)
  ]

  pub load-IsCoherent :
      (w : World P) (k : Text)
      → IsCoherent w
      → IsCoherent (record w { cache = (get w.now k w.cache).1 })
  load-IsCoherent w k c =
      shrink-IsCoherent w _ c refl refl (λ j e h. lookup-get w.now k j w.cache e h)

  pub evict-IsCoherent :
      (w : World P) (k : Text) → IsCoherent w → IsCoherent (record w { cache = delete k w.cache })
  unfolding delete
  evict-IsCoherent w k c =
      shrink-IsCoherent w _ c refl refl (λ j e h. ground (arith, lookup-remove k j w.cache))
