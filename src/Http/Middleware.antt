-- ===== src/Http/Middleware.antt =====
-- interactsh-srv/oobsrv/middleware.go, and `hostnameMiddleware` and `onHTTPInteraction` of
-- httpapi.go. The limits on the size of a request body are in the `raw` of the request.
use interactsh_lite.Dns.Zone.{matched_domain}
use interactsh_lite.Http.{
  HttpLibrary, HttpRequest, ResponseRecorder, new_response_recorder, Handler, write_header, write,
  header_get, header_set, strip_host_port,
}
use interactsh_lite.Prelude.Int.{pos}
use interactsh_lite.Prelude.Text.{codes, to_lower, to_upper}
use interactsh_lite.Server.{Interaction, Server, Library, Meets, capture_interaction}
use interactsh_lite.Prelude.{
  ℕ, ◌+◌, Bool, not, ◌&&◌, none, some, List, [], ◌∷◌, ◌++◌, any, if◌then◌else◌, Bytes, equal, Map,
  insert, get_or,
}

abbrev pub standard_cors_allow_methods : Bytes
standard_cors_allow_methods = codes "GET, HEAD, POST, PUT, PATCH, DELETE, OPTIONS"

abbrev pub standard_cors_method_set : List Bytes
standard_cors_method_set =
    codes "GET"
    ∷ codes "HEAD"
    ∷ codes "POST"
    ∷ codes "PUT"
    ∷ codes "PATCH"
    ∷ codes "DELETE"
    ∷ codes "OPTIONS"
    ∷ []

abbrev pub standard_cors_expose_headers : Bytes
standard_cors_expose_headers =
    codes "*, Server, X-Interactsh-Version, Location, Content-Disposition, Content-Length, Date"

-- `maps.Copy`.
abbrev pub copy_header : Map (List Bytes) → Map (List Bytes) → Map (List Bytes)
copy_header dst [] = dst
copy_header dst ((name, values) ∷ src) = copy_header (insert name values dst) src

module _ (lib : HttpLibrary) where
  unfoldable pub cors_middleware : {S : Type 0} → Bytes → Handler S → Handler S
  unfolding header_set write_header equal
  cors_middleware acao_url next req (s, w) =
      let w1 = header_set lib (codes "Access-Control-Allow-Origin") acao_url w in
      let w2 =
        header_set lib (codes "Access-Control-Allow-Methods") (codes "GET, POST, OPTIONS") w1 in
      let w3 =
        header_set lib (codes "Access-Control-Allow-Headers") (codes "Content-Type, Authorization")
          w2 in
      if equal req.method (codes "OPTIONS")
      then (s, write_header (pos 204) w3)
      else next req (s, w3)

  -- The methods that a preflight may use.
  unfoldable pub allow_methods : HttpRequest → Bytes
  unfolding equal to_upper
  allow_methods req =
      let req_method =
        to_upper lib.unicode (header_get lib req.header (codes "Access-Control-Request-Method")) in
      if not (equal req_method []) && not (any (equal req_method) standard_cors_method_set)
      then standard_cors_allow_methods ++ (codes ", " ++ req_method)
      else standard_cors_allow_methods

  -- The answer to a preflight.
  unfoldable pub preflight : HttpRequest → ResponseRecorder → ResponseRecorder
  unfolding allow_methods header_set write_header equal
  preflight req w =
      let methods = allow_methods req in
      let w1 = header_set lib (codes "Access-Control-Allow-Methods") methods w in
      let w2 = header_set lib (codes "Allow") methods w1 in
      let h = header_get lib req.header (codes "Access-Control-Request-Headers") in
      let w3 =
        if equal h [] then w2 else header_set lib (codes "Access-Control-Allow-Headers") h w2 in
      let private =
        equal (header_get lib req.header (codes "Access-Control-Request-Private-Network"))
          (codes "true") in
      let w4 =
        if private
        then header_set lib (codes "Access-Control-Allow-Private-Network") (codes "true") w3
        else w3 in
      write_header (pos 204) w4

  unfoldable pub interaction_cors_middleware : {S : Type 0} → Handler S → Handler S
  unfolding preflight header_set equal
  interaction_cors_middleware next req (s, w) =
      let given = header_get lib req.header (codes "Origin") in
      let origin = if equal given [] then codes "*" else given in
      let w1 = header_set lib (codes "Access-Control-Allow-Origin") origin w in
      let w2 = header_set lib (codes "Access-Control-Allow-Credentials") (codes "true") w1 in
      let w3 =
        header_set lib (codes "Access-Control-Expose-Headers") standard_cors_expose_headers w2 in
      let w4 = header_set lib (codes "Cross-Origin-Resource-Policy") (codes "cross-origin") w3 in
      let w5 = header_set lib (codes "Referrer-Policy") (codes "unsafe-url") w4 in
      let vary = codes "Origin, Access-Control-Request-Method, Access-Control-Request-Headers" in
      let w6 = header_set lib (codes "Vary") vary w5 in
      if equal req.method (codes "OPTIONS") then (s, preflight req w6) else next req (s, w6)

  unfoldable pub auth_middleware : {S : Type 0} → Bool → Bytes → Handler S → Handler S
  unfolding write_header equal
  auth_middleware enabled token next req (s, w) =
      if not enabled
      then next req (s, w)
      else if not (equal (header_get lib req.header (codes "Authorization")) token)
      then (s, write_header (pos 401) w)
      else next req (s, w)

  unfoldable pub response_headers_middleware :
      {S : Type 0} → Bytes → Bytes → Bool → Bool → Handler S → Handler S
  unfolding header_set
  response_headers_middleware server_header version disable_version is_api next req (s, w) =
      let w1 = header_set lib (codes "Server") server_header w in
      let w2 =
        if disable_version then w1 else header_set lib (codes "X-Interactsh-Version") version w1 in
      let w3 =
        if is_api
        then header_set lib (codes "X-Content-Type-Options") (codes "nosniff")
            (header_set lib (codes "Content-Type") (codes "application/json; charset=utf-8") w2)
        else w2 in
      next req (s, w3)

  unfoldable pub extract_remote_addr : HttpRequest → Bytes → Bytes
  unfolding equal
  extract_remote_addr req origin_ip_header =
      let val = header_get lib req.header origin_ip_header in
      if not (equal origin_ip_header []) && not (equal val [])
      then val
      else get_or req.remote_addr (lib.split_host_port req.remote_addr)

  -- The text of a response.
  unfoldable pub response_text : ResponseRecorder → Bytes
  unfolding equal
  response_text rec =
      let text = lib.status_text rec.status_code in
      let reason = if equal text [] then codes "OK" else text in
      (codes "HTTP/1.1 " ++ (lib.itoa rec.status_code ++ (codes " " ++ (reason ++ codes "\r\n"))))
      ++ (lib.header_text rec.header ++ (codes "\r\n" ++ rec.body))

  -- The callback gets the request, the texts of the response and of the address, and what the
  -- handler left in the recorder.
  unfoldable pub logger_middleware :
      {S : Type 0}
      → Bytes
      → (HttpRequest → Bytes → Bytes → Bytes → Bytes → S → S)
      → Handler S
      → Handler S
  unfolding response_text extract_remote_addr write_header write
  logger_middleware origin_ip_header on_interaction next req (s, w) =
      let (s', rec) = next req (s, new_response_recorder) in
      let w' =
        write_header (pos rec.status_code)
          (record w { header = copy_header w.header rec.header }) in
      (
        on_interaction req (response_text rec) (extract_remote_addr req origin_ip_header)
            rec.hostname rec.domain s',
        write rec.body w',
      )

module _ (lib : HttpLibrary) {H : Type 0} where
  -- The name is looked up on the recorder of `LoggerMiddleware`.
  unfoldable pub hostname_middleware : Handler (Server H) → Handler (Server H)
  unfolding matched_domain strip_host_port to_lower
  hostname_middleware next req (s, w) =
      let hostname = to_lower lib.unicode (strip_host_port lib req.host) in
      let w1 = record w { hostname = hostname } in
      let w2 : ResponseRecorder = elim (matched_domain s.cfg.domains hostname) [
        | none ↦ w1
        | some d ↦ record w1 { domain = d }
      ] in
      next req (s, w2)

abbrev pub http_interaction : HttpRequest → Bytes → Bytes → ℕ → Bytes → Interaction
http_interaction req raw_response remote_addr now name = record {
  protocol = if req.tls then codes "https" else codes "http";
  unique_id = name;
  full_id = name;
  q_type = [];
  raw_request = req.raw;
  raw_response = raw_response;
  smtp_from = [];
  smtp_to = [];
  remote_address = remote_addr;
  timestamp = now;
}

module _ {H : Type 0} (lib : Library) (meets : Meets H) (now : ℕ) where
  unfoldable pub on_http_interaction :
      HttpRequest → Bytes → Bytes → Bytes → Bytes → Server H → Server H
  unfolding capture_interaction equal
  on_http_interaction req raw_response remote_addr hostname domain s =
      let s' = record s { http_count = s.http_count + 1 } in
      let (matched, s'') =
        capture_interaction lib meets domain hostname req.raw
          (http_interaction req raw_response remote_addr now hostname)
          (http_interaction req raw_response remote_addr now []) s' in
      if equal domain [] && not s.cfg.scan_everywhere
      then s'
      else if matched
      then record s'' { http_matched = s''.http_matched + 1 }
      else s''
