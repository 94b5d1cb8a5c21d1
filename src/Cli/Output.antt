-- ===== src/Cli/Output.antt =====
-- output.go: the formats of an interaction, the patterns, and which interactions are shown.
use interactsh_lite.Cli.Settings.{parse_comma_separated}
use interactsh_lite.Prelude.Text.{Unicode, codes, to_lower, to_upper, trim_space}
use interactsh_lite.Server.{Interaction}
use interactsh_lite.Prelude.{
  ℕ, Bool, true, false, not, ◌&&◌, ◌||◌, Option, none, some, List, [], ◌∷◌, ◌++◌, ltb,
  if◌then◌else◌, Bytes, equal, length, any, starts_with,
}

abbrev ansi_reset : Bytes
ansi_reset = 27 ∷ codes "[0m"

abbrev ansi_bold : Bytes
ansi_bold = 27 ∷ codes "[1m"

abbrev ansi_cyan : Bytes
ansi_cyan = 27 ∷ codes "[36m"

-- `styleWrap`, and what `styleAppend` appends.
unfoldable pub style_wrap : Bool → Bytes → Bytes → Bytes
style_wrap use_color code s = if use_color then code ++ (s ++ ansi_reset) else s

-- A part of a verbose output.
abbrev section_text : Bytes → Bytes → Bytes → Bytes → Bytes
section_text rule protocol title raw =
    rule ++ (protocol ++ (title ++ (rule ++ (codes "\n" ++ (raw ++ codes "\n")))))

-- The text of `formatStandard`; `format_time` is `Format(time.DateTime)`.
unfoldable pub format_standard : Unicode → (ℕ → Bytes) → Bool → Bool → Interaction → Bytes
unfolding to_lower to_upper style_wrap equal
format_standard u format_time use_color verbose i =
    let style = style_wrap use_color in
    let protocol = style ansi_bold (to_upper u i.protocol) in
    let lowered = to_lower u i.protocol in
    let origin = codes " from " ++ style ansi_bold i.remote_address in
    let details =
      if equal lowered (codes "dns")
      then codes " " ++ (style ansi_bold (codes "(" ++ (i.q_type ++ codes ")")) ++ origin)
      else if equal lowered (codes "smb") || equal lowered (codes "responder")
      then []
      else origin in
    let request =
      if verbose && not (equal i.raw_request [])
      then section_text (codes "-----------\n") protocol (codes " Request\n") i.raw_request
      else [] in
    let response =
      if verbose && not (equal i.raw_response [])
      then section_text (codes "------------\n") protocol (codes " Response\n") i.raw_response
      else [] in
    codes "["
    ++ (style ansi_cyan i.full_id
        ++ (codes "] "
            ++ (protocol
                ++ (details
                    ++ (codes " at "
                        ++ (format_time i.timestamp ++ (codes "\n" ++ (request ++ response))))))))

-- `formatJSON`: what `json.Marshal` makes of the interaction with its protocol in lower case.
unfoldable pub format_json : Unicode → (Interaction → Option Bytes) → Interaction → Option Bytes
unfolding to_lower
format_json u marshal i = elim (marshal (record i { protocol = to_lower u i.protocol })) [
  | none ↦ none
  | some d ↦ some (d ++ codes "\n")
]

-- What is found where a pattern may name a file: the lines that a scanner reads, and whether it
-- failed.
pub data PatternFile : Type 0 where
  not_a_file cannot_open : PatternFile
  scanned : List Bytes → Bool → PatternFile

unfoldable pub pattern_lines : Unicode → List Bytes → List Bytes
unfolding trim_space equal starts_with
pattern_lines u [] = []
pattern_lines u (l ∷ ls) =
    let rest = pattern_lines u ls in
    let line = trim_space u l in
    if not (equal line []) && not (starts_with line (codes "#")) then line ∷ rest else rest

unfoldable pub expand_patterns :
    Unicode → (Bytes → PatternFile) → List Bytes → List Bytes → Option (List Bytes)
unfolding pattern_lines parse_comma_separated
expand_patterns u file [] result = some result
expand_patterns u file (v ∷ vs) result = elim (file v) [
  | not_a_file ↦ expand_patterns u file vs (result ++ parse_comma_separated u v)
  | cannot_open ↦ none
  | scanned ls true ↦ none
  | scanned ls false ↦ expand_patterns u file vs (result ++ pattern_lines u ls)
]

-- The protocols to which the output is restricted.
pub record ProtocolFilter : Type 0 where
  pub dns_only : Bool
  pub http_only : Bool
  pub smtp_only : Bool
  pub ftp_only : Bool
  pub ldap_only : Bool

-- The `switch` of `shouldDisplay`.
unfoldable pub protocol_shown : ProtocolFilter → Bytes → Bool
unfolding equal
protocol_shown f p =
    let no_filter =
      not f.dns_only && not f.http_only && not f.smtp_only && not f.ftp_only && not f.ldap_only in
    if equal p (codes "dns")
    then not (not no_filter && not f.dns_only)
    else if equal p (codes "http") || equal p (codes "https")
    then not (not no_filter && not f.http_only)
    else if equal p (codes "smtp")
    then not (not no_filter && not f.smtp_only)
    else if equal p (codes "ftp")
    then not (not no_filter && not f.ftp_only)
    else if equal p (codes "ldap")
    then not (not no_filter && not f.ldap_only)
    else no_filter

-- `Re` is a compiled pattern.
module _ {Re : Type 0} (compile : Bytes → Option Re) where
  unfoldable pub compile_patterns : List Bytes → Option (List Re)
  compile_patterns [] = some []
  compile_patterns (p ∷ ps) = elim (compile p) [
    | none ↦ none
    | some re ↦ elim (compile_patterns ps) [ none ↦ none | some res ↦ some (re ∷ res) ]
  ]

module _ {Re : Type 0} (match_string : Re → Bytes → Bool) where
  unfoldable pub matches_interaction : Re → Interaction → Bool
  matches_interaction re i =
      match_string re i.full_id
      || match_string re i.raw_request
      || match_string re i.raw_response
      || match_string re i.remote_address

  unfoldable pub should_display : Unicode → ProtocolFilter → List Re → List Re → Interaction → Bool
  unfolding protocol_shown matches_interaction to_lower
  should_display u f matches filters i =
      if not (protocol_shown f (to_lower u i.protocol))
      then false
      else if ltb 0 (length matches) && not (any (λ re. matches_interaction re i) matches)
      then false
      else not (any (λ re. matches_interaction re i) filters)
