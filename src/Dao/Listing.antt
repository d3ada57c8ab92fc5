-- ===== src/Dao/Listing.antt =====
-- The pages of users that dao/tenant.dao.go and dao/org.dao.go select, and their numbers. The
-- queries of the pages have no ORDER BY.
pub mod Order
use passport.Base.{
  ℕ, Bool, true, none, List, [], ◌∷◌, ◌++◌, ◌&&◌, ◌||◌, ◌==◌, if◌then◌else◌, keep_if, length, leb,
  exists,
}
use passport.Text.{Text, text_eq}
use passport.Text.Like.{like_around}
use passport.Errors.{Error}
use passport.Protos.{User, Member}
use passport.World.{Exec, raise, query, statement}
use passport.Dao.Page.{select_page}

-- The columns that the listings select.
unfoldable pub listed_user : User → User
listed_user u = record u { password = []; wx_openid = []; login_time = none }

listed_users : List User → List User
unfolding listed_user
listed_users [] = []
listed_users (u ∷ us) = listed_user u ∷ listed_users us

-- The filter by a part of the nickname, or else by ids.
matches_filter : Text → List ℕ → User → Bool
unfolding like_around
matches_filter nickname [] u = if text_eq nickname [] then true else like_around nickname u.nickname
matches_filter nickname (uid ∷ uids) u =
    if text_eq nickname []
    then exists (λ i. u.uid == i) (uid ∷ uids)
    else like_around nickname u.nickname

-- A user once for each row of org_members that joins.
joined_users : ℕ → List Member → User → List User
joined_users org_id [] u = []
joined_users org_id (m ∷ ms) u =
    let rest = joined_users org_id ms u in
    if m.uid == u.uid && m.org_id == org_id then u ∷ rest else rest

org_rows : ℕ → List Member → List User → List User
unfolding joined_users
org_rows org_id ms [] = []
org_rows org_id ms (u ∷ us) = joined_users org_id ms u ++ org_rows org_id ms us

-- The rows of UserQueryByOrg, and of UserQueryByTenant.
unfoldable pub org_users : ℕ → ℕ → Text → List ℕ → List Member → List User → List User
unfolding listed_users org_rows matches_filter
org_users tenant_id org_id nickname uids ms us = listed_users (
    keep_if (λ u. u.tenant_id == tenant_id && matches_filter nickname uids u)
      (org_rows org_id ms us))

unfoldable pub tenant_users : ℕ → Text → List ℕ → List User → List User
unfolding listed_users matches_filter
tenant_users tenant_id nickname uids us =
    listed_users (keep_if (λ u. u.tenant_id == tenant_id && matches_filter nickname uids u) us)

-- Rows in an order that is given by a rank of their ids.
insert_ranked : (ℕ → ℕ) → User → List User → List User
insert_ranked rank u [] = u ∷ []
insert_ranked rank u (v ∷ us) =
    let rest = insert_ranked rank u us in
    if leb (rank u.uid) (rank v.uid) then u ∷ v ∷ us else v ∷ rest

unfoldable pub in_order : (ℕ → ℕ) → List User → List User
unfolding insert_ranked
in_order rank [] = []
in_order rank (u ∷ us) = insert_ranked rank u (in_order rank us)

unfoldable pub or_default : ℕ → ℕ → ℕ
or_default n default = if n == 0 then default else n

module _ {P : Type 0} where
  -- UserQueryByTenant
  unfoldable pub user_query_by_tenant : ℕ → ℕ → ℕ → Text → List ℕ → Exec P (List User)
  unfolding statement select_page tenant_users in_order
  user_query_by_tenant tenant_id page page_size nickname uids = statement (
      select_page page page_size
        (λ w. in_order (w.row_order page) (tenant_users tenant_id nickname uids w.users)))

  -- UserCountByTenant
  unfoldable pub user_count_by_tenant : ℕ → Text → List ℕ → Exec P ℕ
  unfolding query tenant_users
  user_count_by_tenant tenant_id nickname uids =
      query (λ w. length (tenant_users tenant_id nickname uids w.users))

  -- UserQueryByOrg
  unfoldable pub user_query_by_org : ℕ → ℕ → ℕ → ℕ → Text → List ℕ → Exec P (List User)
  unfolding statement select_page org_users or_default in_order
  user_query_by_org tenant_id org_id page page_size nickname uids =
      if tenant_id == 0 || org_id == 0
      then raise Error.param
      else statement (
          select_page (or_default page 1) (or_default page_size 100) (λ w.
            in_order (w.row_order (or_default page 1))
              (org_users tenant_id org_id nickname uids w.members w.users)))

  -- UserCountByOrg
  unfoldable pub user_count_by_org : ℕ → ℕ → Text → List ℕ → Exec P ℕ
  unfolding query org_users
  user_count_by_org tenant_id org_id nickname uids =
      if tenant_id == 0 || org_id == 0
      then raise Error.param
      else query (λ w. length (org_users tenant_id org_id nickname uids w.members w.users))
