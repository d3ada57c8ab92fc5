-- ===== src/Http.antt =====
-- face/http/wx_api.go and face/core/api_context.go: what a request passes before a handler. The
-- session store is a library: what it says of a request is a field of the request.
pub mod Apis
pub mod Granting
pub mod Accepting
pub mod Visits
pub mod Unguarded
pub mod Dispatch
pub mod AdminTenant
use passport.Base.{
  ℕ, ◌-◌, Bool, true, false, Option, none, some, List, [], ◌∷◌, not, ◌&&◌, ◌||◌, ltb, ◌==◌,
  if◌then◌else◌,
}
use passport.Text.{Text, text_eq, codes, has_prefix, trim_space}
use passport.Text.Decimal.{parse_uint}
use passport.Errors.{Error, Result, ok, err, panic}
use passport.Protos.{User, is_real_user_uid}
use passport.World.{World, Exec, pure, raise, gets, ◌>>=◌, ◌>>◌, attempt}
use passport.Access.{Enforcer, enforce}
use passport.Service.Org.{user_in_org}
use passport.Service.User.{get_user_info}
use passport.Service.Login.{is_disabled}
use passport.Http.Apis.{Api, apis, entry_of}

-- What the session store gives: an error, or a session whose value for the user is missing, of
-- another type, or a user.
pub data Session : Type 0 where
  broken no_value other_value : Session
  of_user : User → Session

-- Of the headers, those that the filters read.
pub record Request : Type 0 where
  pub method : Text
  pub x_api : Text
  pub x_requested_by : Text
  pub x_org_id : Text
  -- the path of RequestURI as url.Parse reads it, or `none` if it cannot; and r.URL.Path
  pub uri_path : Option Text
  pub url_path : Text
  pub session : Session

-- What ServeHTTP answers itself, or the name of the API whose handler it calls.
pub data Reply : Type 0 where
  no_content no_name no_such_api unauthorized forbidden : Reply
  handled : Text → Reply

unfoldable pub or_text : Text → Text → Text
or_text s t = if text_eq s [] then t else s

-- `if err != nil || v == 0 { return 0 }`
or_zero : Option ℕ → ℕ
or_zero none = 0
or_zero (some n) = n

-- ParseOrgID
unfoldable pub parse_org_id : Request → ℕ
unfolding trim_space parse_uint or_zero
parse_org_id r = or_zero (parse_uint (trim_space r.x_org_id))

-- The entry of loginUserCache for a user.
unfoldable pub login_entry : ℕ → List (User × ℕ) → Option (User × ℕ)
login_entry uid [] = none
login_entry uid (e ∷ es) = let rest = login_entry uid es in if e.0.uid == uid then some e else rest

-- loginUserCache.Store
unfoldable pub store_login : User → ℕ → List (User × ℕ) → List (User × ℕ)
store_login u now es = (u, now) ∷ es

-- The cached user, unless it was last seen more than 600 seconds ago.
unfoldable pub fresh_user : ℕ → Option (User × ℕ) → Option User
fresh_user now none = none
fresh_user now (some (u, t)) = if ltb 600 (now - t) then none else some u

-- The object of an access check: the first of the names that is given.
unfoldable pub access_object : Request → Text
unfolding or_text
access_object r = or_text r.x_requested_by (or_text r.x_api r.url_path)

-- The name of the API. `none`: X-API is not given, and RequestURI cannot be parsed; the error of
-- url.Parse is dropped, and the nil URL beside it is dereferenced.
unfoldable pub api_name : Request → Option Text
unfolding text_eq
api_name r = if text_eq r.x_api [] then r.uri_path else some r.x_api

abbrev pub no_user : User
no_user = record {
  uid = 0;
  tenant_id = 0;
  password = [];
  cellphone = [];
  email = [];
  nickname = [];
  wx_openid = [];
  avatar_url = [];
  addr = [];
  gender = 0;
  login_time = none;
  ext = [];
}

unfoldable pub user_or_zero : Option User → User
user_or_zero none = no_user
user_or_zero (some u) = u

-- A user that has been loaded; an error counts as none.
unfoldable pub loaded_user : Result User → Option User
loaded_user (ok u) = some u
loaded_user (err e) = none
loaded_user panic = none

-- The answer of Enforce; an error is a refusal.
unfoldable pub granted : Result Bool → Bool
granted (ok b) = b
granted (err e) = false
granted panic = false

unfoldable pub need_or_conf : List (Text × Bool) → Text → Option Api → Option Bool
unfolding entry_of
need_or_conf conf obj (some api) = some api.need_access
need_or_conf conf obj none = elim (entry_of obj conf) [
  | some need ↦ some need
  | none ↦ entry_of (codes "*") conf
]

-- Whether an API wants access, by the table or else by the configuration; `none` is no entry.
unfoldable pub needs_access : List (Text × Bool) → Text → Option Bool
unfolding entry_of need_or_conf
needs_access conf obj = need_or_conf conf obj (entry_of obj apis)

-- An API of the administrators, and a user that is not of the root tenant.
unfoldable pub is_foreign : Text → User → ℕ → Bool
unfolding has_prefix
is_foreign obj u root = has_prefix obj (codes "admin/") && not (u.tenant_id == root)

module _ {P : Type 0} where
  unfoldable pub reload_user : ℕ → Option User → Exec P (Option User)
  unfolding get_user_info loaded_user
  reload_user uid (some u) = pure (some u)
  reload_user uid none = do r ← attempt (get_user_info uid); pure (loaded_user r)

  -- The user is seen now; a disabled one is refused.
  unfoldable pub see_user : User → Option User → Exec P (Option User)
  unfolding store_login is_disabled
  see_user u none w = (ok none, w)
  see_user u (some cached) w = (
    ok (if is_disabled cached.ext then none else some u),
    record w { login_users = store_login cached w.now w.login_users },
  )

  -- AuthFilter: the user of the session, if the session is good; the session that the source
  -- returns beside `false` is always nil.
  unfoldable pub auth_filter : Session → Exec P (Option User)
  unfolding is_real_user_uid fresh_user login_entry reload_user see_user
  auth_filter (of_user u) =
      if is_real_user_uid u.uid
      then (do
        fresh ← gets (λ w. fresh_user w.now (login_entry u.uid w.login_users))
        cached ← reload_user u.uid fresh
        see_user u cached)
      else pure none
  auth_filter _ = pure none

  -- GetSessionUser: the user of the session that AuthFilter returns; without one, the zero value.
  unfoldable pub get_session_user : Session → Exec P User
  unfolding auth_filter user_or_zero
  get_session_user s = do found ← auth_filter s; pure (user_or_zero found)

  module _ (c : Enforcer P) where
    -- A member of the organization whom the enforcer allows the object.
    unfoldable pub allowed : Result (Unit {0}) → User → ℕ → Text → Text → Exec P Bool
    unfolding enforce granted
    allowed (ok _) u org_id obj method = do
      r ← attempt (enforce c u.uid u.tenant_id org_id obj method)
      pure (granted r)
    allowed (err e) u org_id obj method = pure false
    allowed panic u org_id obj method = pure false

    unfoldable pub check_access : User → Text → Request → Exec P Bool
    unfolding parse_org_id user_in_org allowed
    check_access u obj r = if parse_org_id r == 0 then pure false else do
      is_in ← attempt (user_in_org u.uid u.tenant_id (parse_org_id r))
      allowed is_in u (parse_org_id r) obj r.method

    unfoldable pub access_of_user : User → Text → Request → Option Bool → Exec P Bool
    unfolding check_access
    access_of_user u obj r none = pure false
    access_of_user u obj r (some need) = if need then check_access u obj r else pure true

    -- AccessFilter. `conf` is ServConfig.ApiConf.
    unfoldable pub access_filter : List (Text × Bool) → Request → Session → Exec P Bool
    unfolding access_object access_of_user needs_access is_foreign
    access_filter conf r (of_user u) =
        let obj = access_object r in
        if u.uid == 0 || text_eq obj [] then pure false else do
          root ← gets (λ w. w.root_tenant_id)
          if is_foreign obj u root
              then pure false
              else access_of_user u obj r (needs_access conf obj)
    access_filter conf r _ = pure false

    -- The filters of an API.
    unfoldable pub filter_access : List (Text × Bool) → Request → Text → Bool → Exec P Reply
    unfolding access_filter
    filter_access conf r name need =
        if need
        then (do
          access ← access_filter conf r r.session
          pure (if access then handled name else forbidden))
        else pure (handled name)

    unfoldable pub filter_logged_in :
        List (Text × Bool) → Request → Text → Bool → Option User → Exec P Reply
    unfolding filter_access
    filter_logged_in conf r name need none = pure unauthorized
    filter_logged_in conf r name need (some u) = filter_access conf r name need

    unfoldable pub filter_api : List (Text × Bool) → Request → Text → Option Api → Exec P Reply
    unfolding auth_filter filter_logged_in filter_access
    filter_api conf r name none = pure no_such_api
    filter_api conf r name (some api) =
        if api.need_login
        then (do found ← auth_filter r.session; filter_logged_in conf r name api.need_access found)
        else filter_access conf r name api.need_access

    unfoldable pub serve_named : List (Text × Bool) → Request → Option Text → Exec P Reply
    unfolding entry_of filter_api
    serve_named conf r none = λ w. (panic, w)
    serve_named conf r (some name) =
        if text_eq name [] then pure no_name else filter_api conf r name (entry_of name apis)

    -- ServeHTTP
    unfoldable pub serve_http : List (Text × Bool) → Request → Exec P Reply
    unfolding api_name serve_named
    serve_http conf r =
        if text_eq r.method (codes "OPTIONS")
        then pure no_content
        else serve_named conf r (api_name r)
