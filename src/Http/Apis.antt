-- ===== src/Http/Apis.antt =====
-- The table of APIs of face/http/wx_api.go.
use passport.Base.{Bool, true, false, Option, none, some, List, [], ◌∷◌, if◌then◌else◌}
use passport.Text.{Text, codes, text_eq}

-- Api, without its handler: that is known by the name in the table.
pub record Api : Type 0 where
  pub need_login : Bool
  pub need_access : Bool

abbrev pub open_api : Api
open_api = record { need_login = false; need_access = false }

abbrev pub login_api : Api
login_api = record { need_login = true; need_access = false }

abbrev pub access_api : Api
access_api = record { need_login = true; need_access = true }

-- The entry of a name in a map.
unfoldable pub entry_of : {A : Type 0} → Text → List (Text × A) → Option A
entry_of name [] = none
entry_of name ((k, v) ∷ m) = let rest = entry_of name m in if text_eq k name then some v else rest

-- apis
unfoldable pub apis : List (Text × Api)
apis =
    (codes "user/register", open_api)
    ∷ (codes "user/login", open_api)
    ∷ (codes "user/auth", login_api)
    ∷ (codes "user/logout", login_api)
    ∷ (codes "user/info", login_api)
    ∷ (codes "user/infoByUID", login_api)
    ∷ (codes "user/modify", login_api)
    ∷ (codes "user/modify/password", login_api)
    ∷ (codes "user/modify/getbackpwd", open_api)
    ∷ (codes "user/modify/avatarForm", login_api)
    ∷ (codes "user/s/1", open_api)
    ∷ (codes "access/addRoleForUser", access_api)
    ∷ (codes "access/updateRoleForUser", access_api)
    ∷ (codes "access/removeRoleForUser", access_api)
    ∷ (codes "access/getRolesForMe", login_api)
    ∷ (codes "access/getRolesForUser", access_api)
    ∷ (codes "access/getUsersForRole", access_api)
    ∷ (codes "access/addPolicyToRole", access_api)
    ∷ (codes "access/removePolicyFromRole", access_api)
    ∷ (codes "access/getPolicy", access_api)
    ∷ (codes "access/getPolicyForUser", login_api)
    ∷ (codes "access/createPermission", access_api)
    ∷ (codes "access/deletePermission", access_api)
    ∷ (codes "access/listPermission", access_api)
    ∷ (codes "tenant/add", login_api)
    ∷ (codes "tenant/user/add", access_api)
    ∷ (codes "tenant/delUser", access_api)
    ∷ (codes "tenant/getUsers", access_api)
    ∷ (codes "tenant/userDisableByUID", access_api)
    ∷ (codes "tenant/userModifyExtInfo", access_api)
    ∷ (codes "tenant/modifyUserPassword", access_api)
    ∷ (codes "tenant/user/setDepartment", access_api)
    ∷ (codes "tenant/addRole", access_api)
    ∷ (codes "tenant/delRole", access_api)
    ∷ (codes "tenant/getRoles", access_api)
    ∷ (codes "tenant/updateConfiguration", access_api)
    ∷ (codes "tenant/loadConfiguration", login_api)
    ∷ (codes "tenant/tree/list", login_api)
    ∷ (codes "tenant/department/add", access_api)
    ∷ (codes "tenant/department/delete", access_api)
    ∷ (codes "tenant/department/update", access_api)
    ∷ (codes "tenant/department/updatecfg", access_api)
    ∷ (codes "tenant/department/list", login_api)
    ∷ (codes "admin/tenant/new", login_api)
    ∷ (codes "admin/user/list", login_api)
    ∷ (codes "admin/user/add", login_api)
    ∷ (codes "admin/user/del", login_api)
    ∷ (codes "admin/user/edit", login_api)
    ∷ (codes "admin/tenant/query", login_api)
    ∷ (codes "admin/tenant/setParent", login_api)
    ∷ (codes "admin/tenant/delete", login_api)
    ∷ (codes "admin/tenant/update", login_api)
    ∷ (codes "admin/updateTenantConfiguration", login_api)
    ∷ (codes "admin/modifyUserPassword", login_api)
    ∷ (codes "admin/tenant/update_config", login_api)
    ∷ (codes "sms/sendUserAddSmsCode", open_api)
    ∷ (codes "sms/sendUserLoginSms", open_api)
    ∷ (codes "sms/sendGetBackPwdSms", open_api)
    ∷ (codes "sms/sendWxBindSms", open_api)
    ∷ (codes "wx/bindCellphone", login_api)
    ∷ (codes "wx/miniapp/updateInfo", login_api)
    ∷ []
