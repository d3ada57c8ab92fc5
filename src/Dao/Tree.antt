-- ===== src/Dao/Tree.antt =====
-- dao/tenant.dao.go: the tenants below a tenant, by pages, and their numbers.
pub mod Below
use passport.Base.{
  ℕ, zero, suc, ◌*◌, ◌%◌, Bool, List, [], ◌∷◌, ◌++◌, map, ◌&&◌, ltb, leb, ◌==◌, if◌then◌else◌,
  length, take, drop, Option, none, some, false, ◌||◌, keep_if, exists,
}
use passport.Errors.{Error}
use passport.Text.{Text, text_eq, codes}
use passport.Text.Like.{like_around}
use passport.Protos.{Tenant, Value, value_of}
use passport.Closure.{Table, is_key}
use passport.Dao.Page.{select_page}
use passport.World.{Exec, gets, raise, query, statement}

-- A tenant as TenantListByAncestorID selects it.
pub record TreeRow : Type 0 where
  pub tenant : Tenant
  pub parent_id : ℕ
  pub depth : ℕ

-- tp: the rows of the parents of a tenant
parents : ℕ → Table → List ℕ
parents d [] = []
parents d (r ∷ t) =
    let rest = parents d t in if r.descendant == d && r.depth == 1 then r.ancestor ∷ rest else rest

-- The LEFT JOIN with tp; COALESCE gives parent 0 to a tenant without one.
with_parents : Tenant → ℕ → List ℕ → List TreeRow
with_parents t k [] = record { tenant = t; parent_id = 0; depth = k } ∷ []
with_parents t k (p ∷ ps) = map (λ q. record { tenant = t; parent_id = q; depth = k }) (p ∷ ps)

-- The JOIN with tc, for one tenant.
with_depths : ℕ → Tenant → List ℕ → Table → List TreeRow
unfolding with_parents
with_depths a t ps [] = []
with_depths a t ps (tc ∷ rest) =
    let others = with_depths a t ps rest in
    if is_key a t.id tc then with_parents t tc.depth ps ++ others else others

joined_rows : ℕ → Table → List Tenant → List TreeRow
unfolding with_depths parents
joined_rows a closure [] = []
joined_rows a closure (t ∷ ts) =
    with_depths a t (parents t.id closure) closure ++ joined_rows a closure ts

-- ORDER BY t.id
insert_row : TreeRow → List TreeRow → List TreeRow
insert_row r [] = r ∷ []
insert_row r (s ∷ rows) =
    let rest = insert_row r rows in if leb r.tenant.id s.tenant.id then r ∷ s ∷ rows else s ∷ rest

order_by_id : List TreeRow → List TreeRow
unfolding insert_row
order_by_id [] = []
order_by_id (r ∷ rows) = insert_row r (order_by_id rows)

-- All the rows that the query gives, without OFFSET and LIMIT.
unfoldable pub tree_rows : ℕ → Table → List Tenant → List TreeRow
unfolding joined_rows order_by_id
tree_rows a closure ts = order_by_id (joined_rows a closure ts)

-- The rows of TenantList: each tenant with its parents.
unfoldable pub listed_rows : Table → List Tenant → List TreeRow
unfolding with_parents parents
listed_rows closure [] = []
listed_rows closure (t ∷ ts) = with_parents t 0 (parents t.id closure) ++ listed_rows closure ts

-- The filters of TenantQuery. `json_text` is the operator ->> of the database, on a value of a JSON
-- column; `none` is NULL.
fits_cellphone : Text → Option Text → Bool
unfolding like_around
fits_cellphone cellphone none = false
fits_cellphone cellphone (some s) = like_around cellphone s

fits_query : (Value → Option Text) → Text → Text → Tenant → Bool
unfolding like_around text_eq fits_cellphone value_of codes
fits_query json_text tenant_name cellphone t =
    (text_eq tenant_name [] || like_around tenant_name t.tenant_name)
    && (text_eq cellphone []
        || fits_cellphone cellphone (json_text (value_of (codes "adminCellphone") t.info)))

-- The columns of tenant_closure, of createTenantClosureTable.
abbrev closure_columns : List Text
closure_columns = codes "ancestor_id" ∷ codes "descendant_id" ∷ codes "depth" ∷ []

-- Whether tenant_closure has the column that TenantCountByAncestorID counts, `id`.
unfoldable pub counted : Bool
unfolding text_eq codes
counted = exists (text_eq (codes "id")) closure_columns

module _ {P : Type 0} where
  -- TenantList
  unfoldable pub tenant_list : ℕ → ℕ → Exec P (List TreeRow)
  unfolding statement select_page listed_rows order_by_id
  tenant_list page page_size =
      statement (select_page page page_size (λ w. order_by_id (listed_rows w.closure w.tenants)))

  -- TenantQuery
  unfoldable pub tenant_query : (Value → Option Text) → Text → Text → ℕ → ℕ → Exec P (List TreeRow)
  unfolding statement select_page listed_rows order_by_id fits_query
  tenant_query json_text tenant_name cellphone page page_size = statement (
      select_page page page_size (λ w.
        order_by_id
          (listed_rows w.closure (keep_if (fits_query json_text tenant_name cellphone) w.tenants))))

  -- TenantListByAncestorID
  unfoldable pub tenant_list_by_ancestor_id : ℕ → ℕ → ℕ → Exec P (List TreeRow)
  unfolding statement select_page tree_rows
  tenant_list_by_ancestor_id ancestor_id page page_size =
      statement (select_page page page_size (λ w. tree_rows ancestor_id w.closure w.tenants))

  -- TenantCount
  unfoldable pub tenant_count : Exec P ℕ
  unfolding query
  tenant_count = query (λ w. length w.tenants)

  -- TenantCountByAncestorID: a SELECT of a column that the table does not have is an error.
  unfoldable pub tenant_count_by_ancestor_id : ℕ → Exec P ℕ
  unfolding statement counted
  tenant_count_by_ancestor_id ancestor_id = statement (
      if counted
      then gets (λ w. length (keep_if (λ r. r.ancestor == ancestor_id) w.closure))
      else raise Error.db)
