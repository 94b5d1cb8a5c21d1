-- ===== src/Http/Tests.antt =====
-- A request of a visitor, at the concrete server.
use interactsh_lite.Dns.Zone.{matched_domain}
use interactsh_lite.Http.Delivery.{logger_middleware_delivers}
use interactsh_lite.Http.Middleware.{
  http_interaction, on_http_interaction, logger_middleware, hostname_middleware, response_text,
  extract_remote_addr,
}
use interactsh_lite.Http.Recorded.{Call, sets, writes_header, writes}
use interactsh_lite.Http.Respond.{serve_response}
use interactsh_lite.Http.Unauthenticated.{IsHarmless, serve_response-IsHarmless}
use interactsh_lite.Http.{
  HttpLibrary, HttpRequest, new_response_recorder, Handler, write, strip_host_port,
}
use interactsh_lite.Oobclient.Response.{ResponseConfig}
use interactsh_lite.Prelude.Int.{pos, negsuc}
use interactsh_lite.Prelude.Text.{codes, no_unicode, to_lower, ends_with}
use interactsh_lite.Server.Capture.{delivery}
use interactsh_lite.Server.Tests.{library, meets, server}
use interactsh_lite.Server.{Server, capture_matches}
use interactsh_lite.Storage.Tests.{stored-IsValid, stored_abc}
use interactsh_lite.Prelude.{
  false, true, none, some, List, [], ◌∷◌, ◌++◌, equal, lookup, ◌≡◌, refl, if◌then◌else◌, ◌==◌,
}

abbrev pub http : HttpLibrary
http = record {
  unicode = no_unicode;
  canonical = λ name. name;
  atoi = λ s. if equal s (codes "302") then some (pos 302) else none;
  itoa = λ n. if n == 200 then codes "200" else codes "302";
  decode_base64 = λ s. some s;
  split_host_port = λ s. none;
  header_text = λ h. [];
  status_text = λ n. codes "OK";
  reverse_runes = λ s. s;
}

-- A visitor asks for a redirect.
abbrev pub visitor : HttpRequest
visitor = record {
  method = codes "GET";
  host = codes "abcxyz.oob.test";
  path = codes "/";
  query = (codes "status", codes "302" ∷ []) ∷ (codes "header", codes "Location: //x" ∷ []) ∷ [];
  header = [];
  remote_addr = codes "10.0.0.2";
  tls = true;
  raw = codes "GET / HTTP/1.1";
}

-- A stored response with a body.
abbrev page : ResponseConfig
page = record { status_code = pos 200; headers = []; body = codes "<script>" }

serve_response-IsHarmless_example :
    IsHarmless http visitor
      (codes "zyxcba")
      new_response_recorder
      (serve_response http false true (some page) visitor (codes "zyxcba") new_response_recorder)
serve_response-IsHarmless_example =
    serve_response-IsHarmless http visitor true (some page) (codes "zyxcba") new_response_recorder
      refl

abbrev three_calls : List Call
three_calls =
    sets (codes "Server") (codes "x")
    ∷ writes_header (negsuc 4)
    ∷ writes_header (pos 404)
    ∷ writes (codes "hi")
    ∷ []

-- Every request is answered with its reflection.
abbrev reflect : Handler (Server (Unit {0}))
reflect req (s, r) = (s, write (codes "zyxcba") r)

logger_middleware_delivers_example :
    let hostname = codes "abcxyz.oob.test" in
    let begun = record new_response_recorder { hostname = hostname; domain = codes "oob.test" } in
    let i =
      http_interaction visitor
        (response_text http (reflect visitor (server, begun)).1)
        (codes "10.0.0.2")
        150
        [] in
    ((logger_middleware http []
        (on_http_interaction library meets 150)
        (hostname_middleware http reflect)
        visitor
        (server, new_response_recorder)).0.storage.heap
      0).interactions
    ≡ (server.storage.heap 0).interactions
      ++ delivery library meets i
          (capture_matches library meets hostname visitor.raw server)
          (codes "abc")
          (server.storage.heap 0).aes_block
unfolding server write equal lookup extract_remote_addr matched_domain to_lower strip_host_port
    ends_with
logger_middleware_delivers_example =
    logger_middleware_delivers library meets 150 http [] reflect visitor (codes "oob.test")
      (codes "abc") 0 server new_response_recorder refl refl refl refl stored-IsValid stored_abc
