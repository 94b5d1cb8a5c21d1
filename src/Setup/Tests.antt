-- ===== src/Setup/Tests.antt =====
-- A configuration with two domains, and a stranger's call of the API.
use interactsh_lite.Dns.Zone.{IsLongest, matched_domain}
use interactsh_lite.Endpoints.{KeyLibrary, handle_deregister}
use interactsh_lite.Http.Tests.{http, visitor}
use interactsh_lite.Http.{Handler, HttpRequest, new_response_recorder}
use interactsh_lite.Prelude.Int.{ℤ, is_positive}
use interactsh_lite.Prelude.Text.{codes, no_unicode, to_lower, is_ascii, lower_byte}
use interactsh_lite.Server.{Server}
use interactsh_lite.Server.Tests.{library, meets, server}
use interactsh_lite.Setup.Ready.{Sorts, Outcome, new-Outcome, new_matches}
use interactsh_lite.Setup.Routes.{
  Pattern, deregister_pattern, Mux, Handlers, api_handler, Among, is_match, Picks, handle, Refused,
  handle-Refused,
}
use interactsh_lite.Setup.Valid.{IsValidConfig}
use interactsh_lite.Setup.{
  SetupConfig, Startup, default_config, compare_length, sorted_domains, new, new_server,
}
use interactsh_lite.Storage.Tests.{no_hooks}
use interactsh_lite.Prelude.{
  true, false, if-elim, Option, none, some, ltb, ◌≤◌, length, List, [], ◌∷◌, map, if◌then◌else◌,
  Bytes, equal, ◌≡◌, ◌≢◌, refl, arith, inl, inr, sym, subst, ap, ◌∙◌, Bool-cases, Option-cases,
  lookup,
}

abbrev insert_sorted : (Bytes → Bytes → ℤ) → Bytes → List Bytes → List Bytes
insert_sorted cmp d [] = d ∷ []
insert_sorted cmp d (e ∷ es) =
    let rest = insert_sorted cmp d es in if is_positive (cmp d e) then e ∷ rest else d ∷ e ∷ es

abbrev insertion_sort : (Bytes → Bytes → ℤ) → List Bytes → List Bytes
insertion_sort cmp [] = []
insertion_sort cmp (d ∷ ds) = insert_sorted cmp d (insertion_sort cmp ds)

abbrev env : Startup (Unit {0})
env = record {
  unicode = no_unicode;
  sort_func = insertion_sort;
  custom_records = some [];
  disk_storage = none;
  memory_hook = tt;
  now = 0;
}

unfoldable cfg : SetupConfig
unfolding default_config
cfg = record default_config {
  domains = codes "OOB.test" ∷ codes "a.oob.test" ∷ [];
  auth = true;
  token = codes "t";
  ldap = true;
}

cfg-Sorts : Sorts compare_length (map (to_lower env.unicode) cfg.domains) (sorted_domains env cfg)
unfolding cfg to_lower is_ascii lower_byte
cfg-Sorts = record { ordered = ((refl, tt), (tt, tt)); members = λ d. ground arith; size = refl }

new-Outcome_example : Outcome env cfg (new env cfg)
new-Outcome_example = new-Outcome env cfg cfg-Sorts

cfg-IsValidConfig : IsValidConfig cfg
unfolding cfg
cfg-IsValidConfig = record {
  domain = λ e. ground (arith, e);
  id_length = omega arith;
  disk_path = λ e. absurd (ground (arith, e));
  guarded = λ e. refl;
  token = λ h e. ground (arith, e);
  strategy = inl refl;
}

new_matches_example :
    (s : Server (Unit {0})) × (new env cfg ≡ new_server s)
    × IsLongest s.cfg.domains
        (codes "x.a.oob.test")
        (matched_domain s.cfg.domains (codes "x.a.oob.test"))
unfolding cfg
new_matches_example =
    new_matches env cfg [] (codes "x.a.oob.test") cfg-Sorts cfg-IsValidConfig refl refl

abbrev keys : KeyLibrary
keys = record {
  parse_public_key = λ s. some s;
  encrypt_aes_key = λ key public. some public;
  base64 = λ s. s;
}

-- Every handler of the API deregisters.
abbrev deregisters : Handler (Server (Unit {0}))
deregisters =
    api_handler
      (λ req s.
        handle_deregister no_hooks library keys
          (some (record { correlation_id = codes "abc"; secret_key = codes "s" })) s)
      (λ reply w. w)

abbrev handlers : Handlers (Server (Unit {0}))
handlers = record {
  register = deregisters;
  poll = deregisters;
  deregister = deregisters;
  metrics = deregisters;
  serve_default = deregisters;
}

no_token : [] ≢ cfg.token
unfolding cfg
no_token e = ground (arith, e)

longer : Pattern → Option Pattern → Pattern
longer p none = p
longer p (some q) = if ltb (length p.path) (length q.path) then q else p

-- The longest pattern that matches.
best : List Pattern → HttpRequest → Option Pattern
best [] req = none
best (p ∷ ps) req = let rest = best ps req in if is_match p req then some (longer p rest) else rest

abbrev mux : Mux
mux = record { picks = best; answers = λ req w. w }

-- A best pattern, if one matches.
abbrev IsBest : List Pattern → HttpRequest → Option Pattern → Type 0
IsBest ps req none = (q : Pattern) → Among q ps → is_match q req ≡ true → ⊥
IsBest ps req (some p) =
    Among p ps
    × (is_match p req ≡ true)
    × ((q : Pattern) → Among q ps → is_match q req ≡ true → length q.path ≤ length p.path)

path_eq : {p q : Pattern} → p ≡ q → length p.path ≡ length q.path
path_eq e = ap (λ (x : Pattern). length x.path) e

longer-IsBest :
    (r : Pattern) (ps : List Pattern) (req : HttpRequest) (o : Option Pattern)
    → is_match r req ≡ true
    → IsBest ps req o
    → IsBest (r ∷ ps) req (some (longer r o))
unfolding longer
longer-IsBest r ps req none ok b =
    (inl refl, ok, λ q m k. elim m [ inl e ↦ omega (arith, path_eq e) | inr n ↦ absurd (b q n k) ])
longer-IsBest r ps req (some p) ok b =
    if-elim (λ x. IsBest (r ∷ ps) req (some x)) (ltb (length r.path) (length p.path)) p r
      (λ l. (
        inr b.0,
        b.1,
        λ q m k. elim m [ inl e ↦ ground (arith, path_eq e, l) | inr n ↦ b.2 q n k ],
      ))
      (λ l. (
        inl refl,
        ok,
        λ q m k. elim m [ inl e ↦ omega (arith, path_eq e) | inr n ↦ ground (arith, b.2 q n k, l) ],
      ))

skip-IsBest :
    (r : Pattern) (ps : List Pattern) (req : HttpRequest) (o : Option Pattern)
    → is_match r req ≡ false
    → IsBest ps req o
    → IsBest (r ∷ ps) req o
skip-IsBest r ps req none other b = λ q m k. elim m [
  | inl e ↦ absurd (ground (arith, sym (subst (λ x. is_match x req ≡ true) e k) ∙ other))
  | inr n ↦ b q n k
]
skip-IsBest r ps req (some p) other b = (
  inr b.0,
  b.1,
  λ q m k. elim m [
    | inl e ↦ absurd (ground (arith, sym (subst (λ x. is_match x req ≡ true) e k) ∙ other))
    | inr n ↦ b.2 q n k
  ],
)

best-IsBest : (ps : List Pattern) (req : HttpRequest) → IsBest ps req (best ps req)
unfolding best
best-IsBest [] req = λ q m k. m
best-IsBest (r ∷ ps) req = elim (Bool-cases (is_match r req)) [
  | inl ok ↦ rw ok (longer-IsBest r ps req (best ps req) ok (best-IsBest ps req))
  | inr other ↦ rw other (skip-IsBest r ps req (best ps req) other (best-IsBest ps req))
]

picked :
    (ps : List Pattern) (req : HttpRequest) (p : Pattern)
    → best ps req ≡ some p
    → IsBest ps req (some p)
picked ps req p e = subst (IsBest ps req) e (best-IsBest ps req)

mux-Picks : Picks mux
mux-Picks = record {
  matching = λ ps req p e. let b = picked ps req p e in (b.0, b.1);
  specific = λ ps req p q e m ok. (picked ps req p e).2 q m ok;
  found = λ ps req q m ok at_path. elim (Option-cases (best ps req)) [
    | inl n ↦ absurd (subst (IsBest ps req) n (best-IsBest ps req) q m ok)
    | inr found ↦ found
  ];
}

-- A stranger asks to deregister.
abbrev stranger : HttpRequest
stranger = record visitor { method = codes "POST"; path = codes "/deregister" }

handle-Refused_example :
    Refused 401
      (server, new_response_recorder)
      (handle http cfg
        (codes "oob.test")
        library
        meets
        160
        mux
        handlers
        stranger
        (server, new_response_recorder))
unfolding cfg equal lookup
handle-Refused_example =
    handle-Refused http cfg (codes "oob.test") library meets 160 mux handlers deregister_pattern
      stranger server new_response_recorder mux-Picks (inr (inr (inl refl))) refl refl refl refl
      no_token
