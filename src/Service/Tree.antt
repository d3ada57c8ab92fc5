-- ===== src/Service/Tree.antt =====
-- service/tenant_tree.service.go: the tenants below a tenant, for a user that may see them; and
-- collectTenantSubtree of service/admin.service.go, which reads all pages of them.
pub mod Sight
pub mod Pages
use passport.Base.{
  ℕ, zero, suc, ◌+◌, Bool, true, false, Option, none, some, List, [], ◌∷◌, ◌++◌, ltb, ◌==◌,
  if◌then◌else◌, length,
}
use passport.Errors.{Error}
use passport.Protos.{User, Tenant}
use passport.World.{Exec, pure, raise, gets, ◌>>=◌, ◌>>◌, or_error, require}
use passport.DefaultCache.{get_tenant_cache, set_tenant_cache}
use passport.Paging.{pages}
use passport.Dao.Tenant.{tenant_get_by_id}
use passport.Dao.Closure.{tenant_closure_is_descendant}
use passport.Dao.Tree.{
  TreeRow, tenant_list_by_ancestor_id, tenant_count, tenant_count_by_ancestor_id,
}

pub record PageResponse : Type 0 where
  pub list : List TreeRow
  pub total : ℕ

unfoldable pub is_some : Option ℕ → Bool
is_some none = false
is_some (some k) = true

module _ {P : Type 0} where
  -- Only a user of the root tenant may ask for any tenant.
  may_see : User → ℕ → ℕ → Exec P (Unit {0})
  unfolding tenant_closure_is_descendant is_some
  may_see session_user ancestor_id root = if session_user.tenant_id == root then pure tt else do
    depth ← or_error (tenant_closure_is_descendant session_user.tenant_id ancestor_id) Error.service
    require (is_some depth) Error.no_auth

  unfoldable pub some_rows : List TreeRow → Exec P (List TreeRow)
  some_rows [] = raise Error.null
  some_rows (r ∷ rows) = pure (r ∷ rows)

  total_of : User → ℕ → ℕ → Bool → Exec P ℕ
  unfolding tenant_count tenant_count_by_ancestor_id
  total_of session_user ancestor_id root false = pure 0
  total_of session_user ancestor_id root true =
      or_error
        (if session_user.tenant_id == root
          then tenant_count
          else tenant_count_by_ancestor_id ancestor_id)
        Error.service

  tree_list_of : User → ℕ → ℕ → ℕ → Bool → ℕ → Exec P PageResponse
  unfolding may_see tenant_list_by_ancestor_id some_rows total_of
  tree_list_of session_user ancestor_id page page_size has_total root = do
    may_see session_user ancestor_id root
    rr ← or_error (tenant_list_by_ancestor_id ancestor_id page page_size) Error.service
    list ← some_rows rr
    total ← total_of session_user ancestor_id root has_total
    pure (record { list = list; total = total })

  -- TenantTreeList
  unfoldable pub tenant_tree_list : User → ℕ → ℕ → ℕ → Bool → Exec P PageResponse
  unfolding tree_list_of
  tenant_tree_list session_user ancestor_id page page_size has_total = do
    root ← gets (λ w. w.root_tenant_id)
    tree_list_of session_user ancestor_id page page_size has_total root

  take_or_cache : Option Tenant → Exec P (Option Tenant)
  unfolding set_tenant_cache
  take_or_cache none = pure none
  take_or_cache (some t) = do set_tenant_cache t; pure (some t)

  take_or_query : ℕ → Option Tenant → Exec P (Option Tenant)
  unfolding tenant_get_by_id take_or_cache
  take_or_query tenant_id (some t) = pure (some t)
  take_or_query tenant_id none = do
    found ← or_error (tenant_get_by_id tenant_id) Error.service
    take_or_cache found

  -- AdminTenantTake
  unfoldable pub admin_tenant_take : ℕ → Exec P (Option Tenant)
  unfolding get_tenant_cache take_or_query
  admin_tenant_take tenant_id = do hit ← get_tenant_cache tenant_id; take_or_query tenant_id hit

  -- collectTenantSubtree
  unfoldable pub collect_tenant_subtree : ℕ → ℕ → Exec P (Option (List TreeRow))
  unfolding pages tenant_list_by_ancestor_id
  collect_tenant_subtree fuel ancestor_id =
      pages (λ page. tenant_list_by_ancestor_id ancestor_id page 500) 500 (λ list out. out ++ list)
        fuel 1 []
