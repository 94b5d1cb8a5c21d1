-- ===== src/Http/Respond.antt =====
-- The answers that httpapi.go makes of a query or of a response configuration:
-- `applyDynamicParams`, `serveDynamicResponse`, `writeResponseConfig` and `serveResponse`. A delay
-- is a result, in nanoseconds; durations have 64 bits.
use interactsh_lite.Http.{
  HttpLibrary, HttpRequest, ResponseRecorder, clamp_status_code, write_header, write, query_get,
  header_add,
}
use interactsh_lite.Oobclient.Response.{ResponseConfig, is_allowed_unauthenticated}
use interactsh_lite.Prelude.Int.{ℤ, pos, is_nat, is_positive, to_nat}
use interactsh_lite.Prelude.Text.{codes, cut, cut_suffix, trim_space, equal_fold}
use interactsh_lite.Prelude.{
  ℕ, ◌*◌, ◌%◌, ◌^◌, min, Bool, not, ◌&&◌, ◌||◌, Option, none, some, List, [], ◌∷◌, ◌++◌,
  if◌then◌else◌, ltb, ◌==◌, Bytes, equal, length, drop, starts_with, Map, lookup, is_some, get_or,
}

-- `maxDynamicDelay`.
abbrev pub max_dynamic_delay : ℕ
max_dynamic_delay = 7_200_000_000_000

-- `strings.CutPrefix`.
unfoldable pub cut_prefix : Bytes → Bytes → Option Bytes
unfolding starts_with
cut_prefix s prefix = if starts_with s prefix then some (drop (length prefix) s) else none

unfoldable pub redirect_location_scheme : Bytes → Bool → Bytes
unfolding starts_with
redirect_location_scheme value tls =
    if starts_with value (codes "http://") || starts_with value (codes "https://")
    then value
    else if starts_with value (codes "//")
    then value
    else (if tls then codes "https://" else codes "http://") ++ value

-- `url.Values.Has`.
abbrev pub has_param : Map (List Bytes) → Bytes → Bool
has_param q name = is_some (lookup name q)

module _ (lib : HttpLibrary) where
  -- `time.Duration(secs)*time.Second` wraps around; a timer of no positive duration fires at once.
  unfoldable pub delay_for : ℕ → ℕ
  delay_for secs =
      let d = secs * 1_000_000_000 % 2 ^ 64 in if ltb d (2 ^ 63) then min d max_dynamic_delay else 0

  unfoldable pub delay_of : Map (List Bytes) → ℕ
  unfolding equal delay_for
  delay_of q =
      let d = query_get q (codes "delay") in
      if equal d [] then 0 else elim (lib.atoi d) [
        | none ↦ 0
        | some secs ↦ if is_positive secs then delay_for (to_nat secs) else 0
      ]

  -- A positive number in the query; 0 for none.
  unfoldable pub status_of : Map (List Bytes) → ℤ
  unfolding equal
  status_of q =
      let st = query_get q (codes "status") in
      if equal st [] then pos 0 else elim (lib.atoi st) [
        | none ↦ pos 0
        | some code ↦ if is_positive code then code else pos 0
      ]

  -- A round of the loop over header lines.
  unfoldable pub add_header_line : Bool → Bool → Bytes → ResponseRecorder → ResponseRecorder
  unfolding cut trim_space equal_fold redirect_location_scheme header_add
  add_header_line is_redirect tls h r =
      let (name, value, ok) = cut b':' h in
      let name' = trim_space lib.unicode name in
      let value' = trim_space lib.unicode value in
      let value'' =
        if is_redirect && equal_fold name' (codes "location")
        then redirect_location_scheme value' tls
        else value' in
      if not ok then r else header_add lib name' value'' r

  -- The loop, in `applyDynamicParams` and in `writeResponseConfig`.
  unfoldable pub add_headers : Bool → Bool → List Bytes → ResponseRecorder → ResponseRecorder
  unfolding add_header_line
  add_headers is_redirect tls [] r = r
  add_headers is_redirect tls (h ∷ hs) r =
      add_headers is_redirect tls hs (add_header_line is_redirect tls h r)

  -- The status, clamped if there is one.
  abbrev pub dynamic_status : Map (List Bytes) → ℕ
  dynamic_status q = if is_positive (status_of q) then clamp_status_code (status_of q) else 0

  unfoldable pub apply_dynamic_params : HttpRequest → ResponseRecorder → ℕ × ResponseRecorder
  unfolding delay_of status_of add_headers write_header clamp_status_code lookup
  apply_dynamic_params req r =
      let status_code = dynamic_status req.query in
      let is_redirect = status_code == 302 || status_code == 307 in
      let r' = add_headers is_redirect req.tls (get_or [] (lookup (codes "header") req.query)) r in
      (delay_of req.query, if ltb 0 status_code then write_header (pos status_code) r' else r')

  -- The body in the path.
  unfoldable pub path_body : Bytes → Option Bytes
  unfolding cut_prefix cut_suffix
  path_body path = elim (cut_prefix path (codes "/b64_body:")) [
    | none ↦ none
    | some encoded ↦ lib.decode_base64 (get_or encoded (cut_suffix encoded (codes "/")))
  ]

  abbrev pub has_any_body : HttpRequest → Bool
  has_any_body req =
      is_some (path_body req.path)
      || has_param req.query (codes "body")
      || has_param req.query (codes "b64_body")

  abbrev pub has_non_delay : HttpRequest → Bool
  has_non_delay req =
      has_any_body req
      || has_param req.query (codes "header")
      || has_param req.query (codes "status")

  -- The configuration that the query asks for, with a mark for a body.
  abbrev pub asked_config : HttpRequest → ResponseConfig
  asked_config req = record {
    status_code = status_of req.query;
    headers = get_or [] (lookup (codes "header") req.query);
    body = if has_any_body req then codes "-" else [];
  }

  unfoldable pub write_dynamic_body : HttpRequest → Bytes → ResponseRecorder → ResponseRecorder
  unfolding path_body write lookup
  write_dynamic_body req reflection r = elim (path_body req.path) [
    | some body ↦ write body r
    | none ↦
        if has_param req.query (codes "b64_body")
        then elim (lib.decode_base64 (query_get req.query (codes "b64_body"))) [
          | none ↦ r
          | some decoded ↦ write decoded r
        ]
        else if has_param req.query (codes "body")
        then write (query_get req.query (codes "body")) r
        else write reflection r
  ]

  -- `none`: the response is not dynamic.
  unfoldable pub serve_dynamic_response :
      Bool → HttpRequest → Bytes → ResponseRecorder → Option (ℕ × ResponseRecorder)
  unfolding path_body status_of is_allowed_unauthenticated apply_dynamic_params write_dynamic_body
      lookup
  serve_dynamic_response auth req reflection r =
      if not (has_non_delay req) && not (has_param req.query (codes "delay"))
      then none
      else if not auth
          && has_non_delay req
          && not (is_allowed_unauthenticated lib.unicode (some (asked_config req)))
      then none
      else let (delay, r') = apply_dynamic_params req r in
        some (delay, write_dynamic_body req reflection r')

  unfoldable pub write_response_config :
      HttpRequest → ResponseConfig → Bytes → ResponseRecorder → ResponseRecorder
  unfolding add_headers write_header write equal clamp_status_code
  write_response_config req cfg reflection r =
      let is_redirect = is_nat cfg.status_code 302 || is_nat cfg.status_code 307 in
      let r' = add_headers is_redirect req.tls cfg.headers r in
      let status_code =
        if is_nat cfg.status_code 0 then 200 else clamp_status_code cfg.status_code in
      let r'' = write_header (pos status_code) r' in
      if not (equal cfg.body []) then write cfg.body r'' else write reflection r''

  -- `stored` is what `GetResponse` returns for the correlation ID, `none` too if there is no ID.
  unfoldable pub serve_response :
      (auth dynamic_resp : Bool)
      → Option ResponseConfig
      → HttpRequest
      → Bytes
      → ResponseRecorder
      → Option (ℕ × ResponseRecorder)
  unfolding serve_dynamic_response is_allowed_unauthenticated write_response_config
  serve_response auth dynamic_resp stored req reflection r =
      let dynamic = if dynamic_resp then serve_dynamic_response auth req reflection r else none in
      elim dynamic [
        | some answer ↦ some answer
        | none ↦ elim stored [
          | none ↦ none
          | some cfg ↦
              if auth || is_allowed_unauthenticated lib.unicode (some cfg)
              then some (0, write_response_config req cfg reflection r)
              else none
        ]
      ]
