-- ===== src/Access.antt =====
-- accessctl/: roles and policies in the domain of an organization. The enforcer (Casbin) is a
-- library: its state `P` and its calls are a parameter. It is taken to be initialised (the source tests
-- it for nil).
pub mod Domains
use passport.Base.{ℕ, Bool, Option, none, some, List, [], ◌∷◌, ◌++◌, ◌||◌, ◌==◌, if◌then◌else◌}
use passport.Text.{Text, codes, text_eq}
use passport.Text.Decimal.{decimal}
use passport.Errors.{Error, Result, ok, err, panic}
use passport.Protos.{User}
use passport.World.{Exec, pure, raise, ◌>>◌}
use passport.Dao.User.{user_query_by_id}

-- The calls of casbin.SyncedEnforcer; `none` is an error.
pub record Enforcer (P : Type 0) : Type 0 where
  -- subject, domain, object, action
  pub enforce : Text → Text → Text → Text → P → Option Bool
  pub add_policy : Text → Text → Text → Text → P → Option P
  pub remove_policy : Text → Text → Text → Text → P → Option P
  -- the rules whose field 1 is the domain
  pub filtered_policy : Text → P → Option (List (List Text))
  -- user, role, domain
  pub add_role : Text → Text → Text → P → Option P
  pub delete_role : Text → Text → Text → P → Option P
  -- user, domain
  pub delete_roles : Text → Text → P → Option P
  pub roles : Text → Text → P → List Text
  -- all rules and all groupings of a domain
  pub remove_filtered_policy : Text → P → Option P
  pub remove_filtered_grouping : Text → P → Option P

-- genUserByUID
unfoldable pub gen_user_by_uid : ℕ → Text
gen_user_by_uid uid = codes "uid-" ++ decimal uid

-- Domain
unfoldable pub domain : ℕ → ℕ → Text
domain tenant_id org_id =
    codes "tenant-" ++ (decimal tenant_id ++ (codes "-org-" ++ decimal org_id))

-- LegacyTenantDomain
unfoldable pub legacy_tenant_domain : ℕ → Text
legacy_tenant_domain tenant_id = codes "tenant-" ++ decimal tenant_id

-- A rule that CopyPolicies copies, as its role, object and action.
copied_rule : List Text → Option (Text × Text × Text)
copied_rule (sub ∷ dom ∷ obj ∷ act ∷ more) =
    if text_eq sub [] || text_eq obj [] || text_eq act [] then none else some (sub, obj, act)
copied_rule _ = none

module _ {P : Type 0} where
  -- What a call of the enforcer that changes its state returns.
  unfoldable pub call_result : Option P → Exec P (Unit {0})
  call_result none w = (err Error.db, w)
  call_result (some p) w = (ok tt, record w { policy = p })

  unfoldable pub enforcer_call : (P → Option P) → Exec P (Unit {0})
  unfolding call_result
  enforcer_call f w = call_result (f w.policy) w

  -- What a question to the enforcer returns.
  unfoldable pub enforced : Option Bool → Exec P Bool
  enforced none w = (err Error.db, w)
  enforced (some b) w = (ok b, w)

  module _ (c : Enforcer P) where
    -- Enforce
    unfoldable pub enforce : ℕ → ℕ → ℕ → Text → Text → Exec P Bool
    unfolding gen_user_by_uid domain enforced
    enforce uid tenant_id org_id obj act = if org_id == 0 then raise Error.org_required else λ w.
        enforced (c.enforce (gen_user_by_uid uid) (domain tenant_id org_id) obj act w.policy) w

    -- AddRoleForUserInDomain
    unfoldable pub add_role_for_user : ℕ → ℕ → ℕ → Text → Exec P (Unit {0})
    unfolding gen_user_by_uid domain enforcer_call
    add_role_for_user uid tenant_id org_id role =
        if org_id == 0
        then raise Error.org_required
        else enforcer_call (c.add_role (gen_user_by_uid uid) role (domain tenant_id org_id))

    -- DeleteRoleForUserInDomain
    unfoldable pub delete_role_for_user : ℕ → ℕ → ℕ → Text → Exec P (Unit {0})
    unfolding gen_user_by_uid domain enforcer_call
    delete_role_for_user uid tenant_id org_id role =
        if org_id == 0
        then raise Error.org_required
        else enforcer_call (c.delete_role (gen_user_by_uid uid) role (domain tenant_id org_id))

    -- DeleteRolesForUserInDomain
    unfoldable pub delete_roles_for_user : ℕ → ℕ → ℕ → Exec P (Unit {0})
    unfolding gen_user_by_uid domain enforcer_call
    delete_roles_for_user uid tenant_id org_id =
        if org_id == 0
        then raise Error.org_required
        else enforcer_call (c.delete_roles (gen_user_by_uid uid) (domain tenant_id org_id))

    -- What GetRoleForUserInDomain returns once the user has been looked up.
    unfoldable pub roles_of_found : ℕ → ℕ → ℕ → Result (Option User) → Exec P (List Text)
    roles_of_found uid tenant_id org_id (err e) w = (ok [], w)
    roles_of_found uid tenant_id org_id panic w = (panic, w)
    roles_of_found uid tenant_id org_id (ok none) w = (ok [], w)
    roles_of_found uid tenant_id org_id (ok (some u)) w =
        if u.tenant_id == tenant_id
        then (ok (c.roles (gen_user_by_uid uid) (domain tenant_id org_id) w.policy), w)
        else (ok [], w)

    -- GetRoleForUserInDomain: no role without an organization, for a user that is not found, or for
    -- one of another tenant
    unfoldable pub get_role_for_user : ℕ → ℕ → ℕ → Exec P (List Text)
    unfolding roles_of_found user_query_by_id gen_user_by_uid domain
    get_role_for_user uid tenant_id org_id w =
        if org_id == 0
        then (ok [], w)
        else let (found, w') = user_query_by_id uid w in
          roles_of_found uid tenant_id org_id found w'

    -- AddPolicyToRole
    unfoldable pub add_policy_to_role : ℕ → ℕ → Text → Text → Text → Exec P (Unit {0})
    unfolding domain enforcer_call
    add_policy_to_role tenant_id org_id role obj act =
        if org_id == 0
        then raise Error.org_required
        else enforcer_call (c.add_policy role (domain tenant_id org_id) obj act)

    -- RemovePolicyFromRole
    unfoldable pub remove_policy_from_role : ℕ → ℕ → Text → Text → Text → Exec P (Unit {0})
    unfolding domain enforcer_call
    remove_policy_from_role tenant_id org_id role obj act =
        if org_id == 0
        then raise Error.org_required
        else enforcer_call (c.remove_policy role (domain tenant_id org_id) obj act)

    -- The loop of CopyPolicies: it stops at the first rule that cannot be added.
    unfoldable pub copy_rules : Text → List (List Text) → Exec P (Unit {0})
    unfolding copied_rule enforcer_call
    copy_rules to_domain [] = pure tt
    copy_rules to_domain (p ∷ ps) =
        let rest = copy_rules to_domain ps in
        elim (copied_rule p) [
          | none ↦ rest
          | some r ↦ enforcer_call (c.add_policy r.0 to_domain r.1 r.2) >> rest
        ]

    -- CopyPolicies
    unfoldable pub copy_policies : Text → Text → Exec P (Unit {0})
    unfolding copy_rules
    copy_policies from_domain to_domain w =
        if text_eq from_domain [] || text_eq to_domain [] || text_eq from_domain to_domain
        then (ok tt, w)
        else elim (c.filtered_policy from_domain w.policy) [
          | none ↦ (err Error.db, w)
          | some ps ↦ copy_rules to_domain ps w
        ]

    -- RemoveDomain
    unfoldable pub remove_domain : Text → Exec P (Unit {0})
    unfolding enforcer_call
    remove_domain dom = if text_eq dom [] then pure tt else do
      enforcer_call (c.remove_filtered_policy dom)
      enforcer_call (c.remove_filtered_grouping dom)
