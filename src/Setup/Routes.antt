-- ===== src/Setup/Routes.antt =====
-- The handlers that `New` gives to `http.ServeMux`, with their middleware.
use interactsh_lite.Endpoints.{Reply}
use interactsh_lite.Http.{
  HttpLibrary, HttpRequest, ResponseRecorder, Handler, header_get, header_set, write_header,
  clamp_status_code,
}
use interactsh_lite.Http.Middleware.{
  cors_middleware, auth_middleware, response_headers_middleware, interaction_cors_middleware,
  hostname_middleware, logger_middleware, on_http_interaction,
}
use interactsh_lite.Prelude.Text.{codes, ends_with}
use interactsh_lite.Server.{Server, Library, Meets}
use interactsh_lite.Setup.{SetupConfig}
use interactsh_lite.Prelude.{
  ℕ, Bool, true, false, not, ◌&&◌, ◌||◌, ◌≤◌, ◌<◌, Option, none, some, List, [], ◌∷◌, if◌then◌else◌,
  Bytes, length, starts_with, equal, equal_iff, All, if-elim, ◌≡◌, ◌≢◌, ◌⊎◌, inl, inr, refl, sym,
  subst, ◌∙◌, arith, &&_parts,
}

-- The handlers that `New` registers.
pub data Route : Type 0 where
  register_route poll_route deregister_route metrics_route default_route : Route

-- A pattern of the mux: a method, or none, and a path.
pub record Pattern : Type 0 where
  pub method : Bytes
  pub path : Bytes
  pub route : Route

abbrev pub deregister_pattern : Pattern
deregister_pattern = record {
  method = codes "POST";
  path = codes "/deregister";
  route = deregister_route;
}

abbrev metrics_pattern : Pattern
metrics_pattern = record { method = codes "GET"; path = codes "/metrics"; route = metrics_route }

abbrev default_pattern : Pattern
default_pattern = record { method = []; path = codes "/"; route = default_route }

-- The calls of `mux.Handle`.
abbrev pub patterns : SetupConfig → List Pattern
patterns c =
    record { method = codes "POST"; path = codes "/register"; route = register_route }
    ∷ record { method = codes "GET"; path = codes "/poll"; route = poll_route }
    ∷ deregister_pattern
    ∷ (if c.metrics then metrics_pattern ∷ default_pattern ∷ [] else default_pattern ∷ [])

-- The handlers behind the middleware.
pub record Handlers (S : Type 0) : Type 0 where
  pub register : Handler S
  pub poll : Handler S
  pub deregister : Handler S
  pub metrics : Handler S
  pub serve_default : Handler S

-- A handler of the API: what Endpoints makes of the request, and the writing of the reply.
abbrev pub api_handler :
    {S : Type 0}
    → (HttpRequest → S → Reply × S)
    → (Reply → ResponseRecorder → ResponseRecorder)
    → Handler S
api_handler call render req (s, w) = let (reply, s') = call req s in (s', render reply w)

-- `serverHeader`.
abbrev pub server_header : {H : Type 0} → SetupConfig → Server H → Bytes
server_header c s =
    if not (equal c.server_header [])
    then c.server_header
    else elim s.cfg.domains [ [] ↦ [] | d ∷ ds ↦ d ]

-- `http.ServeMux`: the pattern that it picks for a request, and what it answers itself to one for
-- which it picks none, as to one with a path that is not clean.
pub record Mux : Type 0 where
  pub picks : List Pattern → HttpRequest → Option Pattern
  pub answers : HttpRequest → ResponseRecorder → ResponseRecorder

module _ (http : HttpLibrary) (c : SetupConfig) (header : Bytes) where
  unfoldable pub wrap_api : {S : Type 0} → Handler S → Handler S
  wrap_api h =
      response_headers_middleware http header c.version c.disable_version true
        (cors_middleware http c.acao_url (auth_middleware http c.auth c.token h))

module _ {H : Type 0} (http : HttpLibrary) (c : SetupConfig) (header : Bytes) (lib : Library)
    (meets : Meets H) (now : ℕ) where
  unfoldable pub wrap_default : Handler (Server H) → Handler (Server H)
  wrap_default h = logger_middleware http c.origin_ip_header (on_http_interaction lib meets now) (
      hostname_middleware http (
        response_headers_middleware http header c.version c.disable_version false
          (interaction_cors_middleware http h)))

  unfoldable pub route_handler : Handlers (Server H) → Route → Handler (Server H)
  unfolding wrap_api wrap_default
  route_handler hs register_route = wrap_api http c header hs.register
  route_handler hs poll_route = wrap_api http c header hs.poll
  route_handler hs deregister_route = wrap_api http c header hs.deregister
  route_handler hs metrics_route = wrap_api http c header hs.metrics
  route_handler hs default_route = wrap_default hs.serve_default

  -- The request that a mux gets.
  unfoldable pub handle : Mux → Handlers (Server H) → Handler (Server H)
  unfolding route_handler
  handle mux hs req (s, w) = elim (mux.picks (patterns c) req) [
    | none ↦ (s, mux.answers req w)
    | some p ↦ route_handler hs p.route req (s, w)
  ]

abbrev pub is_api : Route → Bool
is_api default_route = false
is_api _ = true

-- An answer that leaves everything but the status and the headers.
pub record Refused {S : Type 0} (status : ℕ) (before after : S × ResponseRecorder) : Type 0 where
  pub state : after.0 ≡ before.0
  pub body : after.1.body ≡ before.1.body
  pub status_code : before.1.wrote_header ≡ false → after.1.status_code ≡ status

module _ (http : HttpLibrary) (c : SetupConfig) (header : Bytes) where
  wrap_api-Refused :
      {S : Type 0} (h : Handler S) (req : HttpRequest) (s : S) (w : ResponseRecorder)
      → c.auth ≡ true
      → header_get http req.header (codes "Authorization") ≢ c.token
      → Refused
          (if equal req.method (codes "OPTIONS") then 204 else 401)
          (s, w)
          (wrap_api http c header h req (s, w))
  unfolding wrap_api response_headers_middleware cors_middleware auth_middleware header_set
      write_header clamp_status_code
  wrap_api-Refused h req s w a t =
      let wrong : equal (header_get http req.header (codes "Authorization")) c.token ≡ false =
        ground (arith, t, equal_iff (header_get http req.header (codes "Authorization")) c.token) in
      record {
        state = ground (arith, a, wrong);
        body = ground (arith, a, wrong);
        status_code = λ f. ground (arith, a, wrong, f);
      }

abbrev pub Among : Pattern → List Pattern → Type 0
Among p [] = ⊥
Among p (q ∷ qs) = (p ≡ q) ⊎ Among p qs

-- A pattern of GET is one of HEAD too.
abbrev method_matches : Bytes → Bytes → Bool
method_matches wanted method =
    equal wanted []
    || equal wanted method
    || (equal wanted (codes "GET") && equal method (codes "HEAD"))

-- A path that ends in a slash is one of all paths below it.
abbrev pub is_match : Pattern → HttpRequest → Bool
is_match p req =
    method_matches p.method req.method
    && (equal p.path req.path || (ends_with p.path (codes "/") && starts_with req.path p.path))

-- What net/http documents of a mux: it picks a pattern that matches, none with a longer path
-- matches, and it picks one for a request to the very path of a pattern that matches.
pub record Picks (mux : Mux) : Type 0 where
  pub matching :
      (ps : List Pattern) (req : HttpRequest) (p : Pattern)
      → mux.picks ps req ≡ some p
      → Among p ps × (is_match p req ≡ true)
  pub specific :
      (ps : List Pattern) (req : HttpRequest) (p q : Pattern)
      → mux.picks ps req ≡ some p
      → Among q ps
      → is_match q req ≡ true
      → length q.path ≤ length p.path
  pub found :
      (ps : List Pattern) (req : HttpRequest) (q : Pattern)
      → Among q ps
      → is_match q req ≡ true
      → q.path ≡ req.path
      → (p : Pattern) × (mux.picks ps req ≡ some p)

abbrev IsApi : Pattern → Type 0
IsApi p =
    (is_api p.route ≡ true)
    × (1 < length p.path)
    × ((p.method ≡ codes "POST") ⊎ (p.method ≡ codes "GET"))

abbrev IsKnown : Pattern → Type 0
IsKnown p = IsApi p ⊎ ((is_api p.route ≡ false) × (length p.path ≡ 1))

patterns-IsKnown : (c : SetupConfig) → All IsKnown (patterns c)
patterns-IsKnown c = (
  inl (refl, omega arith, inl refl),
  (
    inl (refl, omega arith, inr refl),
    (
      inl (refl, omega arith, inl refl),
      if-elim (All IsKnown) c.metrics (metrics_pattern ∷ default_pattern ∷ [])
          (default_pattern ∷ []) (λ _. (inl (refl, omega arith, inr refl), (inr (refl, refl), tt)))
          (λ _. (inr (refl, refl), tt)),
    ),
  ),
)

Among-All : (P : Pattern → Type 0) (p : Pattern) (ps : List Pattern) → All P ps → Among p ps → P p
Among-All P p [] a m = absurd m
Among-All P p (q ∷ qs) a (inl e) = subst P (sym e) a.0
Among-All P p (q ∷ qs) a (inr m) = Among-All P p qs a.1 m

options_methods :
    (method_matches (codes "POST") (codes "OPTIONS") ≡ false)
    × (method_matches (codes "GET") (codes "OPTIONS") ≡ false)
unfolding equal
options_methods = (refl, refl)

not_method_options :
    (wanted method : Bytes)
    → (wanted ≡ codes "POST") ⊎ (wanted ≡ codes "GET")
    → method_matches wanted method ≡ true
    → method ≢ codes "OPTIONS"
not_method_options wanted method (inl w) m e = absurd (
    ground (
      arith,
      sym (
            subst (λ x. method_matches x (codes "OPTIONS") ≡ true) w
              (subst (λ y. method_matches wanted y ≡ true) e m))
          ∙ options_methods.0,
    ))
not_method_options wanted method (inr w) m e = absurd (
    ground (
      arith,
      sym (
            subst (λ x. method_matches x (codes "OPTIONS") ≡ true) w
              (subst (λ y. method_matches wanted y ≡ true) e m))
          ∙ options_methods.1,
    ))

-- No pattern of the API is one of OPTIONS.
not_options :
    (p : Pattern) (req : HttpRequest)
    → IsApi p
    → is_match p req ≡ true
    → equal req.method (codes "OPTIONS") ≡ false
not_options p req a m =
    let ok : method_matches p.method req.method ≡ true = (&&_parts _ _ m).0 in
    ground
      (arith, not_method_options p.method req.method a.2 ok, equal_iff req.method (codes "OPTIONS"))

module _ {H : Type 0} (http : HttpLibrary) (c : SetupConfig) (header : Bytes) (lib : Library)
    (meets : Meets H) (now : ℕ) where
  route_handler-Refused :
      (hs : Handlers (Server H)) (r : Route) (req : HttpRequest) (s : Server H)
      (w : ResponseRecorder)
      → is_api r ≡ true
      → c.auth ≡ true
      → header_get http req.header (codes "Authorization") ≢ c.token
      → Refused
          (if equal req.method (codes "OPTIONS") then 204 else 401)
          (s, w)
          (route_handler http c header lib meets now hs r req (s, w))
  unfolding route_handler
  route_handler-Refused hs register_route req s w k a t =
      wrap_api-Refused http c header hs.register req s w a t
  route_handler-Refused hs poll_route req s w k a t =
      wrap_api-Refused http c header hs.poll req s w a t
  route_handler-Refused hs deregister_route req s w k a t =
      wrap_api-Refused http c header hs.deregister req s w a t
  route_handler-Refused hs metrics_route req s w k a t =
      wrap_api-Refused http c header hs.metrics req s w a t
  route_handler-Refused hs default_route req s w k a t = absurd (ground (arith, k))

  -- With authentication, a request without the token to the path of a pattern of the API, with the
  -- pattern's method (or HEAD for GET), is answered with 401 and no body and changes nothing on the
  -- server, whatever the handler behind it does: the mux hands it to no other handler, if it does
  -- what net/http documents. The status is that of a response whose header was not written.
  pub handle-Refused :
      (mux : Mux) (hs : Handlers (Server H)) (q : Pattern) (req : HttpRequest) (s : Server H)
      (w : ResponseRecorder)
      → Picks mux
      → Among q (patterns c)
      → is_api q.route ≡ true
      → is_match q req ≡ true
      → q.path ≡ req.path
      → c.auth ≡ true
      → header_get http req.header (codes "Authorization") ≢ c.token
      → Refused 401 (s, w) (handle http c header lib meets now mux hs req (s, w))
  unfolding handle
  handle-Refused mux hs q req s w picks m api ok at_path a t =
      let (p, e) = picks.found (patterns c) req q m ok at_path in
      let (among, matches) = picks.matching (patterns c) req p e in
      let longest = picks.specific (patterns c) req p q e m ok in
      let kinds = patterns-IsKnown c in
      elim (Among-All IsKnown q (patterns c) kinds m) [
        | inr d ↦ absurd (ground (arith, d, api))
        | inl known ↦ elim (Among-All IsKnown p (patterns c) kinds among) [
          | inr d ↦ absurd (omega (arith, d.1, longest, known.1))
          | inl good ↦
              let refused = route_handler-Refused hs p.route req s w good.0 a t in
              rw (handle, e)
                (subst
                  (λ b.
                    Refused (if b then 204 else 401) (s, w)
                      (route_handler http c header lib meets now hs p.route req (s, w)))
                  (not_options p req good matches) refused)
        ]
      ]
