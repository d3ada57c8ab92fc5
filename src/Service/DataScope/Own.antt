-- ===== src/Service/DataScope/Own.antt =====
-- The departments that resolveUserDeptIDs finds, and the users that memberUIDsInDeps notes.
use passport.Base.{
  Option, some, none, refl, ℕ, ◌≡◌, sym, subst, ◌⊎◌, inl, inr, Bool, true, List, [], ◌∷◌, ◌++◌,
  ◌&&◌, arith, ◌==◌, keep_if, contains, exists, All, All-map, All-append, All-take, All-drop,
  Bool-cases, take, drop,
}
use passport.Protos.{User, Member, Department}
use passport.Dao.Closure.{add_new}
use passport.Dao.User.{user_by_id}
use passport.Dao.Department.{matches_department}
use passport.Dao.Listing.{org_users, in_order}
use passport.Dao.Listing.Order.{in_order-All}
use passport.Service.DataScope.{
  contains_uint64, departments_in_ext, is_leader, add_id, add_own, add_led, own_departments,
  note_user, note_users, with_self,
}
use passport.Service.DataScope.Members.{is_in, note_user_lem, meets}

-- The departments of an organization.
abbrev pub departments_in : ℕ → ℕ → List Department → List Department
departments_in tenant_id org_id ds = keep_if (matches_department 0 tenant_id org_id) ds

module _ (us : List User) (ms : List Member) (ds : List Department) (uid tenant_id org_id : ℕ) where
  -- A department of the organization that the user, as one of the tenant, has, or that the user
  -- leads.
  abbrev pub IsOwn : ℕ → Type 0
  IsOwn id =
      ((exists (λ d. d.id == id) (departments_in tenant_id org_id ds) ≡ true)
        × ((u : User) × (user_by_id uid us ≡ some u)
            × (u.tenant_id ≡ tenant_id)
            × (contains id (departments_in_ext u) ≡ true)))
      ⊎ (exists (λ d. d.id == id && is_leader uid d) (departments_in tenant_id org_id ds) ≡ true)

  -- A user of the tenant and the organization who is in one of the departments.
  abbrev pub IsColleague : List ℕ → ℕ → Type 0
  IsColleague dep_ids id =
      exists (λ u. u.uid == id && is_in dep_ids u) (org_users tenant_id org_id [] [] ms us) ≡ true

-- A department of a user's own is named by the user, who is of the tenant.
own_departments_named :
    (tenant_id id : ℕ) (found : Option User)
    → contains id (own_departments tenant_id found) ≡ true
    → (u : User) × (found ≡ some u)
      × (u.tenant_id ≡ tenant_id)
      × (contains id (departments_in_ext u) ≡ true)
unfolding own_departments
own_departments_named tenant_id id none h = absurd (cc h)
own_departments_named tenant_id id (some u) h = elim (Bool-cases (u.tenant_id == tenant_id)) [
  | inl e ↦ (u, refl, ground (arith, e), ground (arith, e, h))
  | inr e ↦ absurd (ground (arith, e, h))
]

-- An element that passes a test makes it hold of some element.
exists_self :
    {A : Type 0} (xs : List A) → All (λ x. (p : A → Bool) → p x ≡ true → exists p xs ≡ true) xs
exists_self [] = tt
exists_self (x ∷ xs) =
    (λ p h. ground (arith, h), All-map _ xs (λ y k p h. ground (arith, k p h)) (exists_self xs))

contains_self : (xs : List ℕ) → All (λ x. contains x xs ≡ true) xs
contains_self [] = tt
contains_self (x ∷ xs) = (ground arith, All-map _ xs (λ y k. ground (arith, k)) (contains_self xs))

add_id-All : (Q : ℕ → Type 0) (id : ℕ) (ids : List ℕ) → Q id → All Q ids → All Q (add_id id ids)
unfolding add_id add_new
add_id-All Q id ids h hs = elim (Bool-cases (id == 0)) [
  | inl e ↦ rw e hs
  | inr e ↦ elim (Bool-cases (contains id ids)) [
    | inl k ↦ rw (e, k) hs
    | inr k ↦ rw (e, k) (All-append Q ids (id ∷ []) hs (h, tt))
  ]
]

add_own-All :
    (Q : ℕ → Type 0) (deps : List Department) (own ids : List ℕ)
    → All (λ id. exists (λ d. d.id == id) deps ≡ true → Q id) own
    → All Q ids
    → All Q (add_own deps own ids)
unfolding add_own
add_own-All Q deps [] ids ks hs = hs
add_own-All Q deps (id ∷ own) ids ks hs = elim (Bool-cases (exists (λ d. d.id == id) deps)) [
  | inl e ↦ rw e (add_own-All Q deps own (add_id id ids) ks.1 (add_id-All Q id ids (ks.0 e) hs))
  | inr e ↦ rw e (add_own-All Q deps own ids ks.1 hs)
]

add_led-All :
    (Q : ℕ → Type 0) (uid : ℕ) (deps : List Department) (ids : List ℕ)
    → All (λ d. is_leader uid d ≡ true → Q d.id) deps
    → All Q ids
    → All Q (add_led uid deps ids)
unfolding add_led
add_led-All Q uid [] ids ks hs = hs
add_led-All Q uid (d ∷ deps) ids ks hs = elim (Bool-cases (is_leader uid d)) [
  | inl e ↦ rw e (add_led-All Q uid deps (add_id d.id ids) ks.1 (add_id-All Q d.id ids (ks.0 e) hs))
  | inr e ↦ rw e (add_led-All Q uid deps ids ks.1 hs)
]

note_user-All :
    (Q : ℕ → Type 0) (dep_ids : List ℕ) (u : User) (out : List ℕ)
    → (is_in dep_ids u ≡ true → Q u.uid)
    → All Q out
    → All Q (note_user dep_ids u.uid (departments_in_ext u) out)
unfolding is_in add_new
note_user-All Q dep_ids u out k hs =
    subst (All Q) (sym (note_user_lem dep_ids u.uid (departments_in_ext u) out))
      (elim (Bool-cases (meets dep_ids (departments_in_ext u))) [
        | inr e ↦ rw e hs
        | inl e ↦ elim (Bool-cases (contains u.uid out)) [
          | inl h ↦ rw (e, h) hs
          | inr h ↦ rw (e, h) (All-append Q out (u.uid ∷ []) hs (k e, tt))
        ]
      ])

pub note_users-All :
    (Q : ℕ → Type 0) (dep_ids : List ℕ) (us : List User) (out : List ℕ)
    → All (λ u. is_in dep_ids u ≡ true → Q u.uid) us
    → All Q out
    → All Q (note_users dep_ids us out)
unfolding note_users
note_users-All Q dep_ids [] out ks hs = hs
note_users-All Q dep_ids (u ∷ us) out ks hs =
    note_users-All Q dep_ids us (note_user dep_ids u.uid (departments_in_ext u) out) ks.1
      (note_user-All Q dep_ids u out ks.0 hs)

contains_uint64-append : (xs : List ℕ) (x : ℕ) → contains_uint64 (xs ++ x ∷ []) x ≡ true
unfolding contains_uint64
contains_uint64-append [] x = ground arith
contains_uint64-append (y ∷ xs) x = ground (arith, contains_uint64-append xs x)

pub contains_uint64-with_self :
    (uid : ℕ) (xs : List ℕ) → contains_uint64 (with_self uid xs) uid ≡ true
unfolding with_self
contains_uint64-with_self uid xs = elim (Bool-cases (contains_uint64 xs uid)) [
  | inl e ↦ rw e e
  | inr e ↦ rw e (contains_uint64-append xs uid)
]

pub with_self-All :
    (Q : ℕ → Type 0) (uid : ℕ) (xs : List ℕ) → Q uid → All Q xs → All Q (with_self uid xs)
unfolding with_self
with_self-All Q uid xs h hs = elim (Bool-cases (contains_uint64 xs uid)) [
  | inl e ↦ rw e hs
  | inr e ↦ rw e (All-append Q xs (uid ∷ []) hs (h, tt))
]

module _ (us : List User) (ms : List Member) (ds : List Department) (uid tenant_id org_id : ℕ) where
  pub add_led-IsOwn : All (IsOwn us ms ds uid tenant_id org_id) (
      add_led uid (departments_in tenant_id org_id ds) (
        add_own
          (departments_in tenant_id org_id ds)
          (own_departments tenant_id (user_by_id uid us))
          []))
  add_led-IsOwn =
      let deps = departments_in tenant_id org_id ds in
      let own = own_departments tenant_id (user_by_id uid us) in
      let Q = IsOwn us ms ds uid tenant_id org_id in
      add_led-All Q uid deps (add_own deps own [])
        (All-map _ deps
          (λ d k h. inr (k (λ e. e.id == d.id && is_leader uid e) (ground (arith, h))))
          (exists_self deps))
        (add_own-All Q deps own []
          (All-map _ own
            (λ id k h. inl (h, own_departments_named tenant_id id (user_by_id uid us) k))
            (contains_self own))
          tt)

  pub rows-IsColleague :
      (dep_ids : List ℕ) (rank : ℕ → ℕ) (size offset : ℕ)
      → All
          (λ u. is_in dep_ids u ≡ true → IsColleague us ms ds uid tenant_id org_id dep_ids u.uid)
          (take size (drop offset (in_order rank (org_users tenant_id org_id [] [] ms us))))
  rows-IsColleague dep_ids rank size offset =
      let rows = org_users tenant_id org_id [] [] ms us in
      All-take _ size (drop offset (in_order rank rows)) (
        All-drop _ offset (in_order rank rows) (
          in_order-All rank _ rows (
            All-map _ rows (λ u k h. k (λ v. v.uid == u.uid && is_in dep_ids v) (ground (arith, h)))
              (exists_self rows))))
