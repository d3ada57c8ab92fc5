-- ===== src/Http/Unguarded.antt =====
-- What the filters let pass: an access API under another name, and a user who has been disabled.
use passport.Base.{
  ◌≡◌, ◌≢◌, refl, sym, ap, ◌∙◌, subst, Bool, true, false, some, List, [], ◌||◌, not, ◌&&◌, ◌==◌,
  if◌then◌else◌, if_true, if_false, arith,
}
use passport.Text.{Text, text_eq, text_eq_iff, codes, has_prefix}
use passport.Errors.{Result, ok}
use passport.Protos.{User}
use passport.World.{World, pure, gets}
use passport.Live.{
  Returns, Returns-pure, Returns-bind, Returns-true, Returns-false, Returns-gets, Returns-weaken,
}
use passport.Access.{Enforcer}
use passport.Http.Apis.{Api, apis, entry_of}
use passport.Http.{
  of_user, Request, Reply, handled, access_object, api_name, serve_named, needs_access,
  need_or_conf, access_of_user, is_foreign, access_filter, filter_access, filter_logged_in,
  filter_api, auth_filter, serve_http, forbidden, or_text,
}

access_object-requested_by :
    (r : Request) → r.x_requested_by ≢ [] → access_object r ≡ r.x_requested_by
unfolding access_object or_text
access_object-requested_by r ne =
    if_false {b = text_eq r.x_requested_by []} _ _ (ground (arith, text_eq_iff r.x_requested_by []))

needs_access-apis :
    (conf : List (Text × Bool)) (obj : Text) (api : Api)
    → entry_of obj apis ≡ some api
    → needs_access conf obj ≡ some api.need_access
unfolding needs_access need_or_conf
needs_access-apis conf obj api e = ap (need_or_conf conf obj) e

-- Another entry of the table that needs no access is named by X-Requested-By.
pub record IsDisguised (r : Request) (other : Api) : Type 0 where
  pub named : r.x_requested_by ≢ []
  pub entry : entry_of r.x_requested_by apis ≡ some other
  pub no_access : other.need_access ≡ false
  pub no_admin : has_prefix r.x_requested_by (codes "admin/") ≡ false

module _ {P : Type 0} where
  access_filter-IsDisguised :
      (c : Enforcer P) (conf : List (Text × Bool)) (r : Request) (other : Api) (u : User)
      (w : World P)
      → IsDisguised r other
      → u.uid ≢ 0
      → Returns (access_filter c conf r (of_user u)) w (λ b v. (b ≡ true) × (v ≡ w))
  unfolding access_filter is_foreign access_of_user
  access_filter-IsDisguised c conf r other u w d ne =
      let obj : access_object r ≡ r.x_requested_by = access_object-requested_by r d.named in
      Returns-false {b = u.uid == 0 || text_eq (access_object r) []} _ _ w
        (ap (λ s. u.uid == 0 || text_eq s []) obj
          ∙ ground (arith, ne, d.named, text_eq_iff r.x_requested_by []))
        (Returns-bind {Q = λ _ v. v ≡ w} (gets (λ w. w.root_tenant_id))
          (λ root.
            if is_foreign (access_object r) u root
            then pure false
            else access_of_user c u (access_object r) r (needs_access conf (access_object r)))
          w (Returns-gets (λ w. w.root_tenant_id) w refl)
          (λ root v same.
            Returns-false {b = is_foreign (access_object r) u root} (pure false) _ v
              (ap (λ s. has_prefix s (codes "admin/") && not (u.tenant_id == root)) obj
                ∙ ap (λ b. b && not (u.tenant_id == root)) d.no_admin)
              (subst
                (λ need.
                  Returns (access_of_user c u (access_object r) r need) v
                    (λ b x. (b ≡ true) × (x ≡ w)))
                (sym (
                  ap (needs_access conf) obj
                  ∙ needs_access-apis conf r.x_requested_by other d.entry
                  ∙ ap some d.no_access))
                (Returns-pure true v (refl, same)))))

  filter_access-IsDisguised :
      (c : Enforcer P) (conf : List (Text × Bool)) (r : Request) (other : Api) (u : User)
      (w : World P) (name : Text) (need : Bool)
      → IsDisguised r other
      → u.uid ≢ 0
      → r.session ≡ of_user u
      → Returns (filter_access c conf r name need) w (λ reply _. reply ≡ handled name)
  unfolding filter_access
  filter_access-IsDisguised c conf r other u w name true d ne session =
      Returns-bind {Q = λ b v. b ≡ true} (access_filter c conf r r.session) _ w
        (subst (λ s. Returns (access_filter c conf r s) w (λ b v. b ≡ true)) (sym session)
          (Returns-weaken (access_filter-IsDisguised c conf r other u w d ne) (λ b v h. h.0)))
        (λ b v h. Returns-pure (if b then handled name else forbidden) v (if_true _ _ h))
  filter_access-IsDisguised c conf r other u w name false d ne session =
      Returns-pure (handled name) w refl

  filter_api-IsDisguised :
      (c : Enforcer P) (conf : List (Text × Bool)) (r : Request) (name : Text) (api other : Api)
      (u : User) (w v : World P)
      → IsDisguised r other
      → api.need_login ≡ true
      → r.session ≡ of_user u
      → u.uid ≢ 0
      → auth_filter r.session w ≡ (ok (some u), v)
      → Returns (filter_api c conf r name (some api)) w (λ reply _. reply ≡ handled name)
  unfolding filter_api filter_logged_in
  filter_api-IsDisguised c conf r name api other u w v d login session ne auth =
      Returns-true _ _ w login (
        Returns-bind {Q = λ found x. found ≡ some u} (auth_filter r.session)
          (filter_logged_in c conf r name api.need_access) w
          (record { value = some u; state = v; runs = auth; holds = refl })
          (λ found x h.
            subst
              (λ f.
                Returns (filter_logged_in c conf r name api.need_access f) x
                  (λ reply _. reply ≡ handled name))
              (sym h)
              (filter_access-IsDisguised c conf r other u x name api.need_access d ne session)))

  -- A request that names in X-Requested-By an entry of the table that needs no access (and is not
  -- of the administrators') reaches the handler of any entry that needs a login, for a user of a
  -- session with an id other than 0 that AuthFilter accepts; the organization and the enforcer are
  -- not asked, whether or not the called entry needs access.
  pub serve_http-IsDisguised :
      (c : Enforcer P) (conf : List (Text × Bool)) (r : Request) (name : Text) (api other : Api)
      (u : User) (w v : World P)
      → IsDisguised r other
      → text_eq r.method (codes "OPTIONS") ≡ false
      → api_name r ≡ some name
      → name ≢ []
      → entry_of name apis ≡ some api
      → api.need_login ≡ true
      → r.session ≡ of_user u
      → u.uid ≢ 0
      → auth_filter r.session w ≡ (ok (some u), v)
      → (serve_http c conf r w).0 ≡ ok (handled name)
  unfolding serve_http serve_named
  serve_http-IsDisguised c conf r name api other u w v d method named ne_name entry login session ne
        auth =
      let h : Returns (serve_http c conf r) w (λ reply _. reply ≡ handled name) =
        Returns-false _ _ w method (
          subst (λ o. Returns (serve_named c conf r o) w (λ reply _. reply ≡ handled name))
            (sym named)
            (Returns-false {b = text_eq name []} _ _ w (ground (arith, text_eq_iff name [])) (
              subst
                (λ found.
                  Returns (filter_api c conf r name found) w (λ reply _. reply ≡ handled name))
                (sym entry)
                (filter_api-IsDisguised c conf r name api other u w v d login session ne auth)))) in
      ap (λ (x : Result Reply × World P). x.0) h.runs ∙ ap ok h.holds
