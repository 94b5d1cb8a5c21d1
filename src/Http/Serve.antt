-- ===== src/Http/Serve.antt =====
-- `serveDefault` of interactsh-srv/oobsrv/httpapi.go with what it calls. The record `Pages` has the
-- fields of `Server` for pages; the file system is the record `Files`.
use interactsh_lite.Correlation.{scan_labels}
use interactsh_lite.Dns.Zone.{matched_domain}
use interactsh_lite.Http.Respond.{apply_dynamic_params, serve_response, cut_prefix}
use interactsh_lite.Http.{
  HttpLibrary, HttpRequest, ResponseRecorder, write, header_set, strip_host_port,
}
use interactsh_lite.Oobclient.Response.{ResponseConfig}
use interactsh_lite.Prelude.Text.{codes, to_lower, is_ascii, ends_with}
use interactsh_lite.Server.{Server, Meets}
use interactsh_lite.Storage.Access.{get_response}
use mathlib.Core.List.{reverse}
use interactsh_lite.Prelude.{
  ℕ, zero, suc, ◌-◌, Bool, false, not, ◌&&◌, ◌||◌, Option, none, some, [], ◌∷◌, ◌++◌, if◌then◌else◌,
  Bytes, equal, length, starts_with,
}

-- `strings.ReplaceAll` of a text that is not empty, with the bytes to pass over.
unfoldable pub replace_from : ℕ → Bytes → Bytes → Bytes → Bytes
unfolding starts_with
replace_from skip old new [] = []
replace_from (suc k) old new (c ∷ s) = replace_from k old new s
replace_from zero old new (c ∷ s) =
    let replaced = replace_from (length old - 1) old new s in
    let kept = replace_from zero old new s in
    if starts_with (c ∷ s) old then new ++ replaced else c ∷ kept

unfoldable pub fill_domain : Bytes → Bytes → Bytes
unfolding replace_from
fill_domain domain text = replace_from 0 (codes "{DOMAIN}") domain text

unfoldable pub reverse_string : HttpLibrary → Bytes → Bytes
unfolding is_ascii
reverse_string lib s = if is_ascii s then reverse s else lib.reverse_runes s

-- `defaultHTTPResponse`, `httpIndex`, `cfg.HTTPDirectory` and the text of `defaultBannerHTML`.
pub record Pages : Type 0 where
  pub default_response : Option Bytes
  pub index : Option Bytes
  pub directory : Bytes
  pub default_banner : Bytes → Bytes

-- `path.Clean` of a rooted path, `filepath.Join`, `filepath.EvalSymlinks`, a file that can be
-- opened and whether it is a directory, and the two answers that net/http writes.
pub record Files : Type 0 where
  pub clean : Bytes → Bytes
  pub join : Bytes → Bytes → Bytes
  pub eval_symlinks : Bytes → Option Bytes
  pub stat : Bytes → Option Bool
  pub serve_content : Bytes → HttpRequest → ResponseRecorder → ResponseRecorder
  pub not_found : ResponseRecorder → ResponseRecorder

-- The file that a path names below the directory, if it may be served.
unfoldable pub static_file : Files → Bytes → Bytes → Option Bytes
unfolding cut_prefix equal starts_with
static_file files directory path = elim (cut_prefix path (codes "/s/")) [
  | none ↦ none
  | some file_path ↦
      let cleaned = files.clean (b'/' ∷ file_path) in
      if equal file_path [] || equal cleaned (codes "/")
      then none
      else elim (files.eval_symlinks (files.join directory cleaned)) [
        | none ↦ none
        | some resolved ↦ elim (files.eval_symlinks directory) [
          | none ↦ none
          | some root ↦
              if not (equal resolved root) && not (starts_with resolved (root ++ codes "/"))
              then none
              else elim (files.stat resolved) [
                | none ↦ none
                | some is_dir ↦ if is_dir then none else some resolved
              ]
        ]
      ]
]

module _ (lib : HttpLibrary) where
  unfoldable pub serve_static_file :
      Files → Bytes → Bool → HttpRequest → ResponseRecorder → ℕ × ResponseRecorder
  unfolding static_file apply_dynamic_params
  serve_static_file files directory dynamic_resp req r =
      elim (static_file files directory req.path) [
        | none ↦ (0, files.not_found r)
        | some resolved ↦
            let (delay, r') = if dynamic_resp then apply_dynamic_params lib req r else (0, r) in
            (delay, files.serve_content resolved req r')
      ]

  unfoldable pub serve_content_typed :
      HttpRequest → Bytes → ResponseRecorder → Option ResponseRecorder
  unfolding header_set write equal ends_with
  serve_content_typed req reflection r =
      let typed = λ (content_type : Bytes) (body : Bytes).
        some (write body (header_set lib (codes "Content-Type") content_type r)) in
      if equal req.path (codes "/robots.txt")
      then typed (codes "text/plain") (codes "User-agent: *\nDisallow: / # " ++ reflection)
      else if ends_with req.path (codes ".json")
      then typed (codes "application/json") (codes "{\"data\":\"" ++ (reflection ++ codes "\"}"))
      else if ends_with req.path (codes ".xml")
      then typed (codes "application/xml") (codes "<data>" ++ (reflection ++ codes "</data>"))
      else none

  unfoldable pub serve_banner : Pages → Bytes → ResponseRecorder → ResponseRecorder
  unfolding header_set write fill_domain
  serve_banner pages domain r =
      let r' = header_set lib (codes "Content-Type") (codes "text/html") r in
      elim pages.index [
        | none ↦ write (pages.default_banner domain) r'
        | some text ↦ write (fill_domain domain text) r'
      ]

  -- The correlation ID and the reflection of the label that holds it: the scan ends there.
  unfoldable pub reflect_match : Bytes × Bytes → Bytes → Bytes → (Bytes × Bytes) × Bool
  unfolding reverse_string
  reflect_match s candidate label = ((candidate, reverse_string lib label), false)

  -- The last case: nothing is special about the path.
  unfoldable pub serve_reflection :
      (auth dynamic_resp : Bool)
      → Pages
      → Bytes
      → Option ResponseConfig
      → HttpRequest
      → Bytes
      → ResponseRecorder
      → ℕ × ResponseRecorder
  unfolding serve_response serve_banner header_set write equal
  serve_reflection auth dynamic_resp pages domain stored req reflection r =
      let page = header_set lib (codes "Content-Type") (codes "text/html") r in
      if equal reflection []
      then (0, serve_banner pages domain r)
      else elim (serve_response lib auth dynamic_resp stored req reflection r) [
        | some answer ↦ answer
        | none ↦ (
          0,
          write (codes "<html><head></head><body>" ++ (reflection ++ codes "</body></html>")) page,
        )
      ]

  abbrev pub match_domain : {H : Type 0} → Server H → Bytes → Bytes
  match_domain s host = elim (matched_domain s.cfg.domains (to_lower lib.unicode host)) [
    | some d ↦ d
    | none ↦ elim s.cfg.domains [ [] ↦ [] | d ∷ ds ↦ d ]
  ]

  -- `now` is when the stored response is looked up; the first number is the delay.
  unfoldable pub serve_default :
      {H : Type 0}
      → Pages
      → Files
      → Meets H
      → ℕ
      → HttpRequest
      → Server H × ResponseRecorder
      → Server H × (ℕ × ResponseRecorder)
  unfolding scan_labels reflect_match fill_domain serve_static_file serve_content_typed
      serve_reflection get_response strip_host_port to_lower equal starts_with write matched_domain
  serve_default pages files meets now req (s, r) =
      let hostname = to_lower lib.unicode (strip_host_port lib req.host) in
      let domain = match_domain s hostname in
      let (correlation_id, reflection) =
        scan_labels (λ _ c. meets.has_correlation_id c) reflect_match s.cfg.correlation_id_length
          hostname ([], []) in
      let s' = record s { storage = meets.others s.storage } in
      let stored =
        if equal correlation_id [] then none else get_response correlation_id now s'.storage in
      let answer : ℕ × ResponseRecorder = elim pages.default_response [
        | some text ↦ (0, write (fill_domain domain text) r)
        | none ↦
            if not (equal pages.directory []) && starts_with req.path (codes "/s/")
            then serve_static_file files pages.directory s.cfg.dynamic_resp req r
            else elim (serve_content_typed req reflection r) [
              | some r' ↦ (0, r')
              | none ↦
                  serve_reflection s.cfg.auth s.cfg.dynamic_resp pages domain stored req reflection
                    r
            ]
      ] in
      (s', answer)
