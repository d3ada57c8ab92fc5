-- ===== src/Access/Domains.antt =====
-- The names of domains and subjects.
use passport.Base.{ℕ, ◌≡◌, refl, ap, ◌++◌, drop}
use passport.Text.{codes}
use passport.Text.Decimal.{decimal, decimal-injective, decimal-AllDigits, digits-split}
use passport.Access.{domain}

-- Two organizations share a domain only if they are the same organization of the same tenant.
pub domain-injective :
    (tenant_id org_id tenant_id' org_id' : ℕ)
    → domain tenant_id org_id ≡ domain tenant_id' org_id'
    → (tenant_id ≡ tenant_id') × (org_id ≡ org_id')
unfolding domain codes
domain-injective tenant_id org_id tenant_id' org_id' e =
    let parts =
      digits-split (decimal tenant_id) (decimal tenant_id') b'-' b'-'
        (codes "org-" ++ decimal org_id) (codes "org-" ++ decimal org_id')
        (decimal-AllDigits tenant_id) (decimal-AllDigits tenant_id') refl refl (ap (drop 7) e) in
    (
      decimal-injective tenant_id tenant_id' parts.0,
      decimal-injective org_id org_id' (ap (drop 5) parts.1),
    )
