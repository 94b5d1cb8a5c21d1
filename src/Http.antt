-- ===== src/Http.antt =====
-- The HTTP side of interactsh-srv/oobsrv/: the response recorder of middleware.go and what
-- httpapi.go shares between its handlers. A handler acts on the server's state and the recorder.
pub mod Middleware
pub mod Respond
pub mod Serve
pub mod Recorded
pub mod Unauthenticated
pub mod Delivery
pub mod Tests
use interactsh_lite.Prelude.Int.{ℤ, pos, negsuc}
use interactsh_lite.Prelude.Text.{Unicode, codes}
use interactsh_lite.Prelude.{
  ℕ, Bool, true, false, Option, none, some, List, [], ◌∷◌, ◌++◌, if◌then◌else◌, ltb, Bytes, equal,
  Map, lookup, insert, get_or,
}

-- What is used of the standard library: the canonical form of header names, numbers, base64,
-- `net.SplitHostPort` (the host), the texts of a header and of a status, and the reversal of text
-- that is not ASCII.
pub record HttpLibrary : Type 0 where
  pub unicode : Unicode
  pub canonical : Bytes → Bytes
  pub atoi : Bytes → Option ℤ
  pub itoa : ℕ → Bytes
  pub decode_base64 : Bytes → Option Bytes
  pub split_host_port : Bytes → Option Bytes
  pub header_text : Map (List Bytes) → Bytes
  pub status_text : ℕ → Bytes
  pub reverse_runes : Bytes → Bytes

-- A request: `query` and `header` by name, `raw` what `DumpRequest` makes of it.
pub record HttpRequest : Type 0 where
  pub method : Bytes
  pub host : Bytes
  pub path : Bytes
  pub query : Map (List Bytes)
  pub header : Map (List Bytes)
  pub remote_addr : Bytes
  pub tls : Bool
  pub raw : Bytes

-- `responseRecorder`.
pub record ResponseRecorder : Type 0 where
  pub status_code : ℕ
  pub header : Map (List Bytes)
  pub body : Bytes
  pub wrote_header : Bool
  pub hostname : Bytes
  pub domain : Bytes

abbrev pub new_response_recorder : ResponseRecorder
new_response_recorder = record {
  status_code = 200;
  header = [];
  body = [];
  wrote_header = false;
  hostname = [];
  domain = [];
}

unfoldable pub clamp_status_code : ℤ → ℕ
clamp_status_code (negsuc m) = 100
clamp_status_code (pos m) = if ltb m 100 then 100 else if ltb 999 m then 999 else m

unfoldable pub write_header : ℤ → ResponseRecorder → ResponseRecorder
unfolding clamp_status_code
write_header code r =
    if r.wrote_header
    then r
    else record r { wrote_header = true; status_code = clamp_status_code code }

unfoldable pub write : Bytes → ResponseRecorder → ResponseRecorder
unfolding write_header
write b r =
    let r' = if r.wrote_header then r else write_header (pos 200) r in
    record r' { body = r'.body ++ b }

-- `http.Header.Get` and `url.Values.Get`: the first value.
abbrev pub first_value : List Bytes → Bytes
first_value [] = []
first_value (v ∷ vs) = v

abbrev pub query_get : Map (List Bytes) → Bytes → Bytes
query_get q name = first_value (get_or [] (lookup name q))

module _ (lib : HttpLibrary) where
  abbrev pub header_get : Map (List Bytes) → Bytes → Bytes
  header_get h name = first_value (get_or [] (lookup (lib.canonical name) h))

  unfoldable pub header_set : Bytes → Bytes → ResponseRecorder → ResponseRecorder
  unfolding insert
  header_set name value r = record r { header = insert (lib.canonical name) (value ∷ []) r.header }

  unfoldable pub header_add : Bytes → Bytes → ResponseRecorder → ResponseRecorder
  unfolding insert lookup
  header_add name value r =
      let name' = lib.canonical name in
      record r {
        header = insert name' (get_or [] (lookup name' r.header) ++ (value ∷ [])) r.header;
      }

  unfoldable pub strip_host_port : Bytes → Bytes
  strip_host_port host = elim (lib.split_host_port host) [ none ↦ host | some h ↦ h ]

-- A handler, with the state of the server.
abbrev pub Handler : Type 0 → Type 0
Handler S = HttpRequest → S × ResponseRecorder → S × ResponseRecorder
