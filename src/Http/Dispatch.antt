-- ===== src/Http/Dispatch.antt =====
-- Which requests ServeHTTP passes to a handler.
use passport.Base.{
  ◌≡◌, ◌≢◌, ◌⊎◌, inl, inr, refl, sym, ap, ◌∙◌, subst, Bool, true, false, Option, none, some, List,
  [], if◌then◌else◌, if_true, if_false, Option-cases, Bool-cases,
}
use passport.Text.{Text, text_eq, codes}
use passport.Errors.{Result, panic}
use passport.Protos.{User}
use passport.World.{World, Exec, pure}
use passport.Hoare.{Outcome, Triple, returned, Triple-bind, Triple-pure, Triple-if}
use passport.Access.{Enforcer}
use passport.Service.Org.Coherence.{IsCoherent}
use passport.Service.Org.Membership.{Reads}
use passport.Http.Apis.{Api, apis, entry_of}
use passport.Http.{
  Request, Reply, no_content, no_name, no_such_api, unauthorized, forbidden, handled, api_name,
  access_filter, filter_access, filter_logged_in, filter_api, auth_filter, serve_named, serve_http,
}
use passport.Http.Granting.{FilterPasses, access_filter-Triple}
use passport.Http.Accepting.{IsAccepted, Starts, auth_filter-Triple}

module _ {P : Type 0} (c : Enforcer P) (w : World P) where
  abbrev Keeps : World P → Type 0
  Keeps = Reads w.orgs w.members w.policy

  -- The state at the start, but for its faults.
  abbrev AtStart : World P → Type 0
  AtStart = Starts w.orgs w.members w.policy w

  -- No state: what never comes about.
  abbrev Never : World P → Type 0
  Never v = ⊥

  -- What is known of a request that a handler is called for.
  abbrev pub Served : List (Text × Bool) → Request → Reply → Type 0
  Served conf r (handled name) =
      (api_name r ≡ some name)
      × ((api : Api) × (entry_of name apis ≡ some api)
          × (api.need_login ≡ true → IsAccepted w r.session)
          × (api.need_access ≡ true → FilterPasses c w.orgs w.members w.policy conf r r.session))
  Served conf r _ = Unit

  filter_access-Triple :
      (conf : List (Text × Bool)) (r : Request) (name : Text) (api : Api)
      → api_name r ≡ some name
      → entry_of name apis ≡ some api
      → (api.need_login ≡ true → IsAccepted w r.session)
      → Triple Keeps
          (filter_access c conf r name api.need_access)
          (λ reply _. Served conf r reply)
          Never
  unfolding filter_access
  filter_access-Triple conf r name api named e login =
      Triple-if api.need_access _ _
        (λ _.
          Triple-bind
            (λ b v.
              Keeps v × (b ≡ true → FilterPasses c w.orgs w.members w.policy conf r r.session))
            (access_filter c conf r r.session) _
            (access_filter-Triple c w.orgs w.members w.policy conf r r.session)
            (λ access. reply-Triple access))
        (λ off.
          Triple-pure (handled name) (λ v h. (named, (api, e, login, λ t. absurd (cc (off, t))))))
    where
      reply-Triple :
          (access : Bool)
          → Triple
              (λ v.
                Keeps v
                × (access ≡ true → FilterPasses c w.orgs w.members w.policy conf r r.session))
              (pure (if access then handled name else forbidden))
              (λ reply _. Served conf r reply)
              Never
      reply-Triple true = Triple-pure _ (λ v h. (named, (api, e, login, λ _. h.1 refl)))
      reply-Triple false = Triple-pure _ (λ v h. tt)

  filter_api-Triple :
      (conf : List (Text × Bool)) (r : Request) (name : Text) (found : Option Api)
      → api_name r ≡ some name
      → entry_of name apis ≡ found
      → Triple AtStart (filter_api c conf r name found) (λ reply _. Served conf r reply) Never
  unfolding filter_api filter_logged_in
  filter_api-Triple conf r name none named e = Triple-pure no_such_api (λ v h. tt)
  filter_api-Triple conf r name (some api) named e =
      Triple-if {Pre = AtStart} api.need_login _ _
        (λ _.
          Triple-bind (λ found v. Keeps v × ((u : User) → found ≡ some u → IsAccepted w r.session))
            (auth_filter r.session) _ (auth_filter-Triple w.orgs w.members w.policy w r.session)
            (λ found. logged_in-Triple found))
        (λ off. record {
          at = λ v h.
              (filter_access-Triple conf r name api named e (λ t. absurd (cc (off, t)))).at v h.0;
        })
    where
      logged_in-Triple :
          (found : Option User)
          → Triple
              (λ v. Keeps v × ((u : User) → found ≡ some u → IsAccepted w r.session))
              (filter_logged_in c conf r name api.need_access found)
              (λ reply _. Served conf r reply)
              Never
      logged_in-Triple none = Triple-pure unauthorized (λ v h. tt)
      logged_in-Triple (some u) = record {
        at = λ v h. (filter_access-Triple conf r name api named e (λ _. h.1 u refl)).at v h.0;
      }

  serve_named-Triple :
      (conf : List (Text × Bool)) (r : Request) (name : Text)
      → api_name r ≡ some name
      → Triple AtStart (serve_named c conf r (some name)) (λ reply _. Served conf r reply) Never
  unfolding serve_named
  serve_named-Triple conf r name named =
      Triple-if {Pre = AtStart} (text_eq name []) _ _ (λ _. Triple-pure no_name (λ v k. tt))
        (λ _. filter_api-Triple conf r name (entry_of name apis) named refl)

-- No name is needed, or it can be read.
abbrev pub IsReadable : Request → Type 0
IsReadable r = (text_eq r.method (codes "OPTIONS") ≡ true) ⊎ (api_name r ≢ none)

module _ {P : Type 0} (c : Enforcer P) (conf : List (Text × Bool)) (r : Request) (w : World P) where
  -- ServeHTTP has panicked at once, for a request whose name cannot be read.
  abbrev pub PanicsUnnamed : Type 0
  PanicsUnnamed =
      (text_eq r.method (codes "OPTIONS") ≡ false)
      × ((api_name r ≡ none) × (serve_http c conf r w ≡ (panic, w)))

module _ {P : Type 0} (c : Enforcer P) (conf : List (Text × Bool)) (r : Request) (w : World P)
    (h : IsCoherent w) where
  abbrev Serves : (Result Reply × World P) → Type 0
  Serves x = Outcome (λ reply _. Served c w conf r reply) (λ _. ⊥) x.0 x.1

  serve_http_named : (name : Text) → api_name r ≡ some name → Serves (serve_http c conf r w)
  unfolding serve_http
  serve_http_named name named =
      (Triple-if {Pre = Starts w.orgs w.members w.policy w} (text_eq r.method (codes "OPTIONS"))
          (pure no_content) (serve_named c conf r (api_name r))
          (λ _. Triple-pure no_content (λ v k. tt))
          (λ _.
            subst
              (λ o.
                Triple (Starts w.orgs w.members w.policy w) (serve_named c conf r o)
                  (λ reply _. Served c w conf r reply) (λ _. ⊥))
              (sym named) (serve_named-Triple c w conf r name named))).at
        w
        (record { coherent = h; orgs = refl; members = refl; policy = refl }, (refl, (refl, refl)))

  serve_http_options : text_eq r.method (codes "OPTIONS") ≡ true → Serves (serve_http c conf r w)
  unfolding serve_http
  serve_http_options e =
      subst Serves (sym (ap (λ (m : Exec P Reply). m w) (if_true _ _ e)))
        (returned {a = no_content} tt)

  serve_http_unnamed :
      text_eq r.method (codes "OPTIONS") ≡ false → api_name r ≡ none → PanicsUnnamed c conf r w
  unfolding serve_http serve_named
  serve_http_unnamed off e = (
    off,
    (e, ap (λ (m : Exec P Reply). m w) (if_false _ _ off) ∙ ap (λ o. serve_named c conf r o w) e),
  )

  -- From a coherent state, with any enforcer and configuration, and whatever statements fail,
  -- ServeHTTP gives a reply and does not panic, unless the method is not OPTIONS, X-API is not
  -- given and RequestURI cannot be parsed: then it panics, and nothing has changed. If it calls a
  -- handler, that is the handler of an entry of the table under the name that the request gives. If
  -- the entry needs a login, the session is of a user with a real id, and the copy of that user in
  -- loginUserCache, if it is at most 600 seconds old, or else the user's row, is there and is not
  -- disabled. If it needs access, the session is of a user, and either the object that the request
  -- names (by X-Requested-By, X-API or its path) needs no access, or the user is a member of the
  -- organization in X-Org-Id, that is an organization of the user's tenant, and the enforcer allows
  -- the user that object there by the request's method.
  pub serve_http-Outcome :
      PanicsUnnamed c conf r w
      ⊎ (IsReadable r
          × Outcome
              (λ reply _. Served c w conf r reply)
              (λ _. ⊥)
              (serve_http c conf r w).0
              (serve_http c conf r w).1)
  serve_http-Outcome = elim (Bool-cases (text_eq r.method (codes "OPTIONS"))) [
    | inl e ↦ inr (inl e, serve_http_options e)
    | inr off ↦ elim (Option-cases (api_name r)) [
      | inl e ↦ inl (serve_http_unnamed off e)
      | inr (name, e) ↦ inr (inr (λ no. absurd (cc (no, e))), serve_http_named name e)
    ]
  ]
