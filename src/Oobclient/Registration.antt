-- ===== src/Oobclient/Registration.antt =====
-- `performRegistration`, `tryRegisterServer` and `tryRegisterServers` of oobclient/client.go. A
-- server answers a URL one way during a registration.
use interactsh_lite.Endpoints.{RegisterRequest}
use interactsh_lite.Oobclient.Poll.{HttpResponse}
use interactsh_lite.Prelude.Text.{codes}
use interactsh_lite.Prelude.{
  ℕ, zero, suc, ◌+◌, ◌%◌, ◌^◌, Bool, true, false, not, ◌&&◌, ◌||◌, Option, none, some, List, [],
  ◌∷◌, ◌++◌, any, ◌==◌, if◌then◌else◌, Bytes, equal, length, starts_with,
}

pub record Url : Type 0 where
  pub scheme : Bytes
  pub host : Bytes

-- The errors of a registration: `unauthorized` is ErrUnauthorized, `no_server` joins those of the
-- servers.
pub data RegisterError : Type 0 where
  bad_request : RegisterError
  request_failed : RegisterError
  unauthorized : RegisterError
  bad_status : ℕ → RegisterError
  bad_json : RegisterError
  bad_message : RegisterError
  bad_url : RegisterError
  no_server : RegisterError

pub data Attempt : Type 0 where
  refused : RegisterError → Attempt
  accepted : Url → Attempt

-- The network and the libraries: the request body, `url.Parse`, the POST with a token, the
-- "message" of a JSON object (its decoder may fail, and there may be no such text), and DNS.
pub record Network : Type 0 where
  pub marshal_register : RegisterRequest → Option Bytes
  pub parse_url : Bytes → Option Url
  pub post : Url → Bytes → Bytes → Option HttpResponse
  pub decode_message : Bytes → Option (Option Bytes)
  pub lookup_host : Bytes → Option (List Bytes)

-- The fields of the client that a registration reads.
pub record Registrant : Type 0 where
  pub request : RegisterRequest
  pub token : Bytes
  pub disable_http_fallback : Bool

abbrev pub is_unauthorized : RegisterError → Bool
is_unauthorized unauthorized = true
is_unauthorized _ = false

-- The answer of the server: `none` is success.
unfoldable pub check_answer : Network → HttpResponse → Option RegisterError
unfolding equal
check_answer net resp =
    if resp.status_code == 401
    then some unauthorized
    else if not (resp.status_code == 200)
    then some (bad_status resp.status_code)
    else elim (net.decode_message resp.body) [
      | none ↦ some bad_json
      | some message ↦ elim message [
        | none ↦ some bad_message
        | some msg ↦ if equal msg (codes "registration successful") then none else some bad_message
      ]
    ]

module _ (net : Network) (c : Registrant) where
  unfoldable pub perform_registration : Url → Option RegisterError
  unfolding check_answer
  perform_registration url = elim (net.marshal_register c.request) [
    | none ↦ some bad_request
    | some body ↦ elim (net.post url c.token body) [
      | none ↦ some request_failed
      | some resp ↦ check_answer net resp
    ]
  ]

  -- A scheme is put in front of a bare host.
  unfoldable pub server_url : Bytes → Bytes
  unfolding starts_with
  server_url server =
      if not (starts_with server (codes "http://")) && not (starts_with server (codes "https://"))
      then codes "https://" ++ server
      else server

  -- HTTPS, and HTTP if that fails and it is allowed.
  unfoldable pub try_url : Url → Attempt
  unfolding perform_registration equal
  try_url parsed =
      let plain = record parsed { scheme = codes "http" } in
      elim (perform_registration parsed) [
        | none ↦ accepted parsed
        | some e ↦
            if c.disable_http_fallback || not (equal parsed.scheme (codes "https"))
            then refused e
            else elim (perform_registration plain) [ none ↦ accepted plain | some e' ↦ refused e' ]
      ]

  unfoldable pub try_register_server : Bytes → Attempt
  unfolding server_url try_url
  try_register_server server = elim (net.parse_url (server_url server)) [
    | none ↦ refused bad_url
    | some parsed ↦ try_url parsed
  ]

  -- The server resolves to an address that has failed, or it does not resolve.
  unfoldable pub is_skipped : List Bytes → Bytes → Bool
  unfolding equal
  is_skipped [] server = false
  is_skipped (f ∷ failed) server = elim (net.lookup_host server) [
    | none ↦ true
    | some ips ↦ any (λ ip. any (λ g. equal g ip) (f ∷ failed)) ips
  ]

  abbrev pub failed_ips : Bytes → List Bytes → List Bytes
  failed_ips server failed = elim (net.lookup_host server) [
    | none ↦ failed
    | some ips ↦ failed ++ ips
  ]

  -- The loop, over the servers in the order of the attempts.
  unfoldable pub try_servers : List Bytes → List Bytes → Attempt
  unfolding try_register_server is_skipped
  try_servers [] failed = refused no_server
  try_servers (server ∷ servers) failed =
      let rest = try_servers servers in
      if is_skipped failed server then rest failed else elim (try_register_server server) [
        | accepted url ↦ accepted url
        | refused e ↦ if is_unauthorized e then refused e else rest (failed_ips server failed)
      ]

abbrev pub nth : ℕ → List Bytes → Bytes
nth i [] = []
nth zero (s ∷ ss) = s
nth (suc i) (s ∷ ss) = nth i ss

-- `serverURLs[(start+i)%n]` for the i from the given one on.
unfoldable pub rotation : List Bytes → ℕ → ℕ → ℕ → List Bytes
rotation servers start i zero = []
rotation servers start i (suc k) =
    nth ((start + i) % length servers) servers ∷ rotation servers start (suc i) k

-- `index` is `serverStartIndex` before the call.
unfoldable pub try_register_servers : Network → Registrant → ℕ → List Bytes → Attempt
unfolding try_servers rotation
try_register_servers net c index servers =
    let start = (index + 1) % 2 ^ 32 % length servers in
    try_servers net c (rotation servers start 0 (length servers)) []
