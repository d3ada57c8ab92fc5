-- ===== src/Service/Department/Rows.antt =====
-- What the statements on departments do to the departments of a tenant.
use passport.Base.{
  ℕ, ◌≡◌, ◌≢◌, refl, sym, ap, ◌∙◌, inl, inr, Bool, true, List, [], ◌∷◌, ◌++◌, not, arith, ◌==◌,
  if◌then◌else◌, keep_if, Bool-cases, All, ==_true,
}
use passport.Protos.{Department}
use passport.Dao.Department.{is_department, change_departments}

-- The departments of a tenant.
unfoldable pub departments_of : ℕ → List Department → List Department
departments_of t [] = []
departments_of t (d ∷ ds) =
    let rest = departments_of t ds in if d.tenant_id == t then d ∷ rest else rest

pub departments_of-append :
    (t : ℕ) (ds : List Department) (d : Department)
    → d.tenant_id ≢ t
    → departments_of t (ds ++ d ∷ []) ≡ departments_of t ds
unfolding departments_of
departments_of-append t [] d h = ground (arith, h)
departments_of-append t (e ∷ ds) d h = ground (arith, h, departments_of-append t ds d h)

pub departments_of-delete :
    (t id tenant_id : ℕ) (ds : List Department)
    → tenant_id ≢ t
    → departments_of t (keep_if (λ d. not (is_department id tenant_id d)) ds) ≡ departments_of t ds
unfolding departments_of is_department
departments_of-delete t id tenant_id [] h = refl
departments_of-delete t id tenant_id (e ∷ ds) h =
    ground (arith, h, departments_of-delete t id tenant_id ds h)

-- A change of rows of another tenant, which leaves their tenant.
pub departments_of-change :
    (t tenant_id : ℕ) (p : Department → Bool) (f : Department → Department) (ds : List Department)
    → tenant_id ≢ t
    → All (λ d. p d ≡ true → d.tenant_id ≡ tenant_id) ds
    → ((d : Department) → (f d).tenant_id ≡ d.tenant_id)
    → departments_of t (change_departments p f ds) ≡ departments_of t ds
unfolding departments_of change_departments
departments_of-change t tenant_id p f [] h hs k = refl
departments_of-change t tenant_id p f (e ∷ ds) h hs k = elim (Bool-cases (p e)) [
  | inl q ↦ ground (arith, h, k e, hs.0 q, departments_of-change t tenant_id p f ds h hs.1 k, q)
  | inr q ↦ ground (arith, departments_of-change t tenant_id p f ds h hs.1 k, q)
]

pub is_department-All :
    (id tenant_id : ℕ) (ds : List Department)
    → All (λ d. is_department id tenant_id d ≡ true → d.tenant_id ≡ tenant_id) ds
unfolding is_department
is_department-All id tenant_id [] = tt
is_department-All id tenant_id (d ∷ ds) =
    (λ h. ground (arith, h), is_department-All id tenant_id ds)

-- The rows of an id are of the tenant of that id.
pub owned-All :
    (owner : ℕ → ℕ) (d : Department) (ds : List Department)
    → owner d.id ≡ d.tenant_id
    → All (λ e. owner e.id ≡ e.tenant_id) ds
    → All (λ e. (e.id == d.id) ≡ true → e.tenant_id ≡ d.tenant_id) ds
owned-All owner d [] h hs = tt
owned-All owner d (e ∷ ds) h hs =
    (λ same. sym hs.0 ∙ (ap owner (==_true e.id d.id same) ∙ h), owned-All owner d ds h hs.1)

pub found-All :
    (Q : Department → Type 0) (p : Department → Bool) (ds : List Department)
    → All Q ds
    → All Q (keep_if p ds)
found-All Q p [] hs = tt
found-All Q p (d ∷ ds) hs = elim (Bool-cases (p d)) [
  | inl e ↦ rw e (hs.0, found-All Q p ds hs.1)
  | inr e ↦ rw e (found-All Q p ds hs.1)
]
