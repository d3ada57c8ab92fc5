-- ===== src/Dao/Org.antt =====
-- dao/org.dao.go: `organizations` and `org_members`.
use passport.Base.{
  ℕ, ◌+◌, Bool, false, Option, none, some, List, [], ◌∷◌, ◌++◌, not, ◌&&◌, ◌||◌, ltb, ◌==◌,
  if◌then◌else◌, keep_if, exists, length,
}
use passport.Text.{Text, text_eq, trim_space}
use passport.Errors.{Error}
use passport.Protos.{Organization, Member}
use passport.World.{Exec, pure, raise, query, statement, exec}

-- SELECT … WHERE id = i
unfoldable pub org_by_id : ℕ → List Organization → Option Organization
org_by_id id [] = none
org_by_id id (o ∷ os) = if o.id == id then some o else org_by_id id os

-- SELECT … WHERE tenant_id = t AND name = n
unfoldable pub org_by_name : ℕ → Text → List Organization → Option Organization
org_by_name tenant_id name [] = none
org_by_name tenant_id name (o ∷ os) =
    if o.tenant_id == tenant_id && text_eq o.name name
    then some o
    else org_by_name tenant_id name os

-- SELECT 1 FROM org_members WHERE org_id = o AND uid = u
unfoldable pub is_member : ℕ → ℕ → List Member → Bool
is_member org_id uid ms = exists (λ m. m.org_id == org_id && m.uid == uid) ms

-- The members of an organization, as the ids of users.
unfoldable pub member_uids : ℕ → List Member → List ℕ
member_uids org_id [] = []
member_uids org_id (m ∷ ms) =
    let rest = member_uids org_id ms in
    if m.org_id == org_id && ltb 0 m.uid then m.uid ∷ rest else rest

-- ORDER BY id
insert_by_id : Organization → List Organization → List Organization
insert_by_id o [] = o ∷ []
insert_by_id o (p ∷ os) = if ltb p.id o.id then p ∷ insert_by_id o os else o ∷ p ∷ os

pub order_by_id : List Organization → List Organization
unfolding insert_by_id
order_by_id [] = []
order_by_id (o ∷ os) = insert_by_id o (order_by_id os)

is_empty : Text → Bool
is_empty s = text_eq s []

module _ {P : Type 0} where
  -- OrgInsert; a second organization of one name in a tenant violates the unique index
  unfoldable pub org_insert : ℕ → Text → Exec P ℕ
  unfolding statement org_by_name is_empty trim_space
  org_insert tenant_id name =
      if tenant_id == 0 || is_empty (trim_space name)
      then raise Error.param
      else statement (λ w. elim (org_by_name tenant_id (trim_space name) w.orgs) [
        | some _ ↦ raise Error.duplicate (record w { next_org_id = w.next_org_id + 1 })
        | none ↦ pure w.next_org_id (record w {
          orgs =
              w.orgs
              ++ record { id = w.next_org_id; tenant_id = tenant_id; name = trim_space name } ∷ [];
          next_org_id = w.next_org_id + 1;
        })
      ])

  -- OrgGetByTenantName
  unfoldable pub org_get_by_tenant_name : ℕ → Text → Exec P (Option Organization)
  unfolding query org_by_name is_empty trim_space
  org_get_by_tenant_name tenant_id name =
      if tenant_id == 0 || is_empty (trim_space name)
      then pure none
      else query (λ w. org_by_name tenant_id (trim_space name) w.orgs)

  -- OrgGetByID
  unfoldable pub org_get_by_id : ℕ → Exec P (Option Organization)
  unfolding query org_by_id
  org_get_by_id id = if id == 0 then pure none else query (λ w. org_by_id id w.orgs)

  -- OrgListByTenant
  unfoldable pub org_list_by_tenant : ℕ → Exec P (List Organization)
  unfolding query order_by_id
  org_list_by_tenant tenant_id =
      if tenant_id == 0
      then raise Error.param
      else query (λ w. order_by_id (keep_if (λ o. o.tenant_id == tenant_id) w.orgs))

  -- OrgListByUser
  unfoldable pub org_list_by_user : ℕ → ℕ → Exec P (List Organization)
  unfolding query order_by_id is_member
  org_list_by_user uid tenant_id =
      if uid == 0 || tenant_id == 0
      then raise Error.param
      else query (λ w.
        order_by_id
          (keep_if (λ o. is_member o.id uid w.members && o.tenant_id == tenant_id) w.orgs))

  -- OrgMemberInsert, ON CONFLICT (org_id, uid) DO NOTHING
  unfoldable pub org_member_insert : ℕ → ℕ → ℕ → Exec P (Unit {0})
  unfolding exec is_member
  org_member_insert org_id uid tenant_id =
      if org_id == 0 || uid == 0 || tenant_id == 0
      then raise Error.param
      else exec (λ w. if is_member org_id uid w.members then w else record w {
        members = record { org_id = org_id; uid = uid; tenant_id = tenant_id } ∷ w.members;
      })

  -- OrgMemberDelete
  unfoldable pub org_member_delete : ℕ → ℕ → Exec P (Unit {0})
  unfolding exec
  org_member_delete org_id uid =
      if org_id == 0 || uid == 0
      then raise Error.param
      else exec (λ w. record w {
        members = keep_if (λ m. not (m.org_id == org_id && m.uid == uid)) w.members;
      })

  -- OrgMemberDeleteByOrg
  unfoldable pub org_member_delete_by_org : ℕ → Exec P (Unit {0})
  unfolding exec
  org_member_delete_by_org org_id =
      if org_id == 0
      then raise Error.param
      else exec (λ w. record w { members = keep_if (λ m. not (m.org_id == org_id)) w.members })

  -- OrgDelete
  unfoldable pub org_delete : ℕ → ℕ → Exec P (Unit {0})
  unfolding exec
  org_delete id tenant_id =
      if id == 0 || tenant_id == 0
      then raise Error.param
      else exec (λ w. record w {
        orgs = keep_if (λ o. not (o.id == id && o.tenant_id == tenant_id)) w.orgs;
      })

  -- OrgMemberExists
  unfoldable pub org_member_exists : ℕ → ℕ → Exec P Bool
  unfolding query is_member
  org_member_exists org_id uid =
      if org_id == 0 || uid == 0 then pure false else query (λ w. is_member org_id uid w.members)

  -- OrgMemberCountByUser
  unfoldable pub org_member_count_by_user : ℕ → ℕ → Exec P ℕ
  unfolding query
  org_member_count_by_user uid tenant_id =
      query (λ w. length (keep_if (λ m. m.uid == uid && m.tenant_id == tenant_id) w.members))

  -- OrgMemberUIDs
  unfoldable pub org_member_uids : ℕ → Exec P (List ℕ)
  unfolding query member_uids
  org_member_uids org_id =
      if org_id == 0 then raise Error.param else query (λ w. member_uids org_id w.members)
