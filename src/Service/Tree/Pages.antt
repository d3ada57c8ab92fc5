-- ===== src/Service/Tree/Pages.antt =====
-- collectTenantSubtree: enough fuel reads every row.
use passport.Base.{ℕ, ◌*◌, ◌<◌, ◌≡◌, refl, some, [], ◌++◌, arith, length}
use passport.World.{World}
use passport.Live.{Returns, IsCalm}
use passport.Dao.Page.Safe.{select_page-Returns}
use passport.Dao.Tree.{tree_rows, tenant_list_by_ancestor_id}
use passport.Paging.Whole.{pages-Returns}
use passport.Service.Tree.{collect_tenant_subtree}

-- When no statement fails and the rows below a tenant are fewer than 2 ^ 63, then with fuel for more
-- pages of 500 than the rows fill, collectTenantSubtree returns exactly the rows, in their order,
-- and leaves the state as it was.
pub collect_tenant_subtree-Returns :
    {P : Type 0} (fuel a : ℕ) (w : World P)
    → IsCalm w
    → length (tree_rows a w.closure w.tenants) < 9223372036854775808
    → length (tree_rows a w.closure w.tenants) < fuel * 500
    → Returns
        (collect_tenant_subtree fuel a)
        w
        (λ out v. (out ≡ some (tree_rows a w.closure w.tenants)) × (v ≡ w))
unfolding collect_tenant_subtree tenant_list_by_ancestor_id
collect_tenant_subtree-Returns fuel a w calm small enough =
    pages-Returns (λ page. tenant_list_by_ancestor_id a page 500) 500 (λ list out. out ++ list)
      (tree_rows a w.closure w.tenants) w [] (λ ys zs. refl) refl (omega arith) fuel
      (λ j h.
        select_page-Returns (λ v. tree_rows a v.closure v.tenants) w 500 j calm (omega arith) small
          h)
      enough
