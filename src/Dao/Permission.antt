-- ===== src/Dao/Permission.antt =====
-- dao/permission.dao.go: the statements on `permission`.
use passport.Base.{
  ℕ, ◌+◌, Bool, List, [], ◌∷◌, ◌++◌, not, ◌&&◌, ◌||◌, ◌==◌, if◌then◌else◌, keep_if, length, exists,
}
use passport.Text.{Text, text_eq}
use passport.Errors.{Error, Result, ok, err, panic}
use passport.Protos.{PermissionStruct}
use passport.World.{Exec, pure, raise, ◌>>=◌, query, statement, attempt}

-- The UNIQUE constraints: on tenant, domain and title, and on tenant, domain and value.
unfoldable pub is_same_permission : PermissionStruct → PermissionStruct → Bool
unfolding text_eq
is_same_permission m p =
    p.tenant_id == m.tenant_id
    && text_eq p.domain m.domain
    && (text_eq p.title m.title || text_eq p.value m.value)

unfoldable pub is_permission : ℕ → ℕ → PermissionStruct → Bool
is_permission id tenant_id p = p.id == id && p.tenant_id == tenant_id

-- `pgErr.Code == "23505"` becomes ErrPgDupKey.
or_dup_key : Error → Error
or_dup_key Error.duplicate = Error.pg_dup_key
or_dup_key e = e

module _ {P : Type 0} where
  -- INSERT INTO permission, with the number of rows; the id of a refused row is used up.
  unfoldable pub insert_permission : PermissionStruct → Exec P ℕ
  unfolding is_same_permission
  insert_permission m w =
      let w' = record w { next_permission_id = w.next_permission_id + 1 } in
      if exists (is_same_permission m) w.permissions then (err Error.duplicate, w') else (
        ok 1,
        record w' { permissions = w.permissions ++ record m { id = w.next_permission_id } ∷ [] },
      )

  permission_created : Result ℕ → Exec P ℕ
  unfolding or_dup_key
  permission_created (ok rows) = pure rows
  permission_created (err e) = raise (or_dup_key e)
  permission_created panic = λ w. (panic, w)

  -- PermissionCreate; its result is the number of rows, not the id
  unfoldable pub permission_create : PermissionStruct → Exec P ℕ
  unfolding statement insert_permission permission_created
  permission_create m = do rows ← attempt (statement (insert_permission m)); permission_created rows

  -- PermissionDelete
  unfoldable pub permission_delete : ℕ → ℕ → Exec P ℕ
  unfolding statement is_permission
  permission_delete id tenant_id = statement (λ w. (
    ok (length (keep_if (is_permission id tenant_id) w.permissions)),
    record w { permissions = keep_if (λ p. not (is_permission id tenant_id p)) w.permissions },
  ))

  -- PermissionList
  unfoldable pub permission_list : ℕ → Text → Exec P (List PermissionStruct)
  unfolding query text_eq
  permission_list tenant_id domain =
      query (λ w. keep_if (λ p. p.tenant_id == tenant_id && text_eq p.domain domain) w.permissions)
