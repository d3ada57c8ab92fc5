-- ===== src/Dao/User.antt =====
-- dao/user.dao.go: the statements on `users` that the tenant and organization services call.
use passport.Base.{
  ℕ, Option, none, some, List, [], ◌∷◌, not, ◌&&◌, ◌==◌, if◌then◌else◌, keep_if, length,
}
use passport.Protos.{User, MapStruct}
use passport.World.{Exec, query, statement}
use passport.Errors.{ok}

-- SELECT … WHERE uid = id, the first row
unfoldable pub user_by_id : ℕ → List User → Option User
user_by_id id [] = none
user_by_id id (u ∷ us) = if u.uid == id then some u else user_by_id id us

unfoldable pub set_tenant_of : ℕ → ℕ → ℕ → List User → List User
set_tenant_of id tenant_id curr [] = []
set_tenant_of id tenant_id curr (u ∷ us) =
    (if u.uid == id && u.tenant_id == curr then record u { tenant_id = tenant_id } else u)
    ∷ set_tenant_of id tenant_id curr us

set_ext_of : ℕ → MapStruct → List User → List User
set_ext_of id ext [] = []
set_ext_of id ext (u ∷ us) =
    (if u.uid == id then record u { ext = ext } else u) ∷ set_ext_of id ext us

module _ {P : Type 0} where
  -- UserQueryByID
  unfoldable pub user_query_by_id : ℕ → Exec P (Option User)
  unfolding user_by_id query
  user_query_by_id uid = query (λ w. user_by_id uid w.users)

  -- UPDATE users SET tenant_id = t WHERE uid = u AND tenant_id = c, with the number of rows
  unfoldable pub move_user : ℕ → ℕ → ℕ → Exec P ℕ
  unfolding set_tenant_of
  move_user uid tenant_id curr w = (
    ok (length (keep_if (λ u. u.uid == uid && u.tenant_id == curr) w.users)),
    record w { users = set_tenant_of uid tenant_id curr w.users },
  )

  -- UserUpdateTenantID
  unfoldable pub user_update_tenant_id : ℕ → ℕ → ℕ → Exec P ℕ
  unfolding move_user statement
  user_update_tenant_id uid tenant_id curr = statement (move_user uid tenant_id curr)

  -- DELETE FROM users WHERE uid = u AND tenant_id = t, with the number of rows
  unfoldable pub delete_user : ℕ → ℕ → Exec P ℕ
  delete_user uid tid w = (
    ok (length (keep_if (λ u. u.uid == uid && u.tenant_id == tid) w.users)),
    record w { users = keep_if (λ u. not (u.uid == uid && u.tenant_id == tid)) w.users },
  )

  -- UserDelete
  unfoldable pub user_delete : ℕ → ℕ → Exec P ℕ
  unfolding statement delete_user
  user_delete uid tid = statement (delete_user uid tid)

  -- UserUpdateExt
  unfoldable pub user_update_ext : ℕ → MapStruct → Exec P ℕ
  unfolding set_ext_of statement
  user_update_ext uid ext = statement (λ w. (
    ok (length (keep_if (λ u. u.uid == uid) w.users)),
    record w { users = set_ext_of uid ext w.users },
  ))
