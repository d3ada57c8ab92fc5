-- ===== src/Tests/Requests.antt =====
-- Requests and their filters.
use passport.Base.{ℕ, ◌≡◌, ◌≢◌, ◌⊎◌, none, refl, true, false, some, [], arith}
use passport.Text.{codes, text_eq, has_prefix}
use passport.Errors.{ok, panic}
use passport.Protos.{User, is_real_user_uid}
use passport.World.{World}
use passport.Hoare.{Outcome}
use passport.Http.Apis.{apis, entry_of, access_api, login_api}
use passport.Http.{
  Request, of_user, handled, auth_filter, serve_http, api_name, serve_named, login_entry,
}
use passport.Http.Dispatch.{IsReadable, PanicsUnnamed, Served, serve_http-Outcome}
use passport.Http.Unguarded.{IsDisguised, serve_http-IsDisguised}
use passport.Http.Visits.{later, visit, stop, IsSeen, auth_filter-Visits}
use passport.Service.Login.{is_disabled}
use passport.Tests.Services.{small_world, small_world-IsCoherent, counting_enforcer}
use passport.Tests.Accounts.{ann, with_ann, ann_enabled}

-- It calls an API that needs access under the name of one that does not.
abbrev disguised : Request
disguised = record {
  method = codes "POST";
  x_api = codes "tenant/delRole";
  x_requested_by = codes "user/info";
  x_org_id = [];
  uri_path = some [];
  url_path = [];
  session = of_user ann;
}

serve_http-Outcome_example :
    PanicsUnnamed counting_enforcer [] disguised small_world
    ⊎ (IsReadable disguised
        × Outcome
            (λ reply _. Served counting_enforcer small_world [] disguised reply)
            (λ _. ⊥)
            (serve_http counting_enforcer [] disguised small_world).0
            (serve_http counting_enforcer [] disguised small_world).1)
serve_http-Outcome_example =
    serve_http-Outcome counting_enforcer [] disguised small_world small_world-IsCoherent

disguised-IsDisguised : IsDisguised disguised login_api
unfolding entry_of apis codes text_eq has_prefix
disguised-IsDisguised = record {
  named = λ e. cc e;
  entry = refl;
  no_access = refl;
  no_admin = refl;
}

no_options : text_eq disguised.method (codes "OPTIONS") ≡ false
unfolding text_eq codes
no_options = refl

named : api_name disguised ≡ some (codes "tenant/delRole")
unfolding api_name text_eq codes
named = refl

some_name : codes "tenant/delRole" ≢ []
unfolding codes
some_name e = cc e

del_role : entry_of (codes "tenant/delRole") apis ≡ some access_api
unfolding text_eq codes entry_of apis
del_role = refl

-- Without X-API, a request whose URI cannot be parsed ends in a panic.
unnamed :
    (serve_http counting_enforcer []
      (record disguised { x_api = []; uri_path = none })
      small_world).0
    ≡ panic
unfolding serve_http serve_named api_name text_eq codes
unnamed = refl

-- The state after ann has been let in.
abbrev seen_world : World ℕ
seen_world = (auth_filter (of_user ann) with_ann).1

ann_accepted : auth_filter (of_user ann) with_ann ≡ (ok (some ann), seen_world)
unfolding auth_filter is_disabled
ann_accepted = refl

serve_http-IsDisguised_example :
    (serve_http counting_enforcer [] disguised with_ann).0 ≡ ok (handled (codes "tenant/delRole"))
serve_http-IsDisguised_example =
    serve_http-IsDisguised counting_enforcer [] disguised (codes "tenant/delRole") access_api
      login_api ann with_ann seen_world disguised-IsDisguised no_options named some_name del_role
      refl refl (omega arith) ann_accepted

abbrev seen_ann : User
seen_ann = record ann { password = [] }

ann-IsSeen : IsSeen ann seen_ann seen_world
unfolding auth_filter login_entry
ann-IsSeen = record { entry = refl; same = refl }

seen_at : seen_world.now ≡ 100
unfolding auth_filter
seen_at = refl

ann_real : is_real_user_uid ann.uid ≡ true
unfolding is_real_user_uid
ann_real = refl

visited_at : (auth_filter (of_user ann) (later 640 [] seen_world)).1.now ≡ 640
unfolding auth_filter
visited_at = refl

-- ann is deleted at once; she is still accepted 9 minutes later, and again after 9 more.
auth_filter-Visits_example :
    (auth_filter
      (of_user ann)
      (later 1180 [] (auth_filter (of_user ann) (later 640 [] seen_world)).1)).0
    ≡ ok (some ann)
auth_filter-Visits_example =
    auth_filter-Visits ann seen_ann 1180 [] seen_world
      (auth_filter (of_user ann) (later 640 [] seen_world)).1 ann_real ann_enabled ann-IsSeen
      (visit 640 [] seen_world _ (omega (arith, seen_at)) (omega (arith, seen_at)) (stop _))
      (omega (arith, visited_at))
