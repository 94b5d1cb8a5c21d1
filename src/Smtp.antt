-- ===== src/Smtp.antt =====
-- interactsh-srv/oobsrv/smtp.go, as far as it reads what the client sent: the copy that `teeConn`
-- keeps of the session's bytes, and the envelope that is parsed from it.
pub mod Envelope
pub mod Session
pub mod Capture
pub mod Bodies
mod Tests
use mathlib.Core.Option
use interactsh_lite.Prelude.Text.{Unicode, codes, trim_space, trim_right, to_upper, split}
use interactsh_lite.Prelude.{
  ℕ, ◌-◌, Bool, true, false, not, ◌&&◌, Option, none, some, List, [], ◌∷◌, ◌++◌, ltb, ◌==◌,
  if◌then◌else◌, Bytes, equal, length, take, drop, min, starts_with,
}

abbrev pub tee_conn_max_buf : ℕ
tee_conn_max_buf = 8192

pub record TeeConn : Type 0 where
  pub buf : Bytes
  pub stopped : Bool

abbrev pub new_tee : TeeConn
new_tee = record { buf = []; stopped = false }

-- What a `Read` of the connection that returned these bytes leaves, under a cap of the buffer: in
-- the code `tee_conn_max_buf`.
unfoldable pub tee_read : ℕ → Bytes → TeeConn → TeeConn
tee_read max_buf p t =
    let room = max_buf - length t.buf in
    let limit = if ltb (length p) room then length p else room in
    if ltb 0 (length p) && not t.stopped && ltb (length t.buf) max_buf
    then record t { buf = t.buf ++ take limit p }
    else t

-- What comes before the closing `>`, outside of quotes.
unfoldable pub scan_path : Bool → Bytes → Option Bytes
scan_path in_quote [] = none
scan_path in_quote (c ∷ []) = if c == b'>' && not in_quote && not (c == b'"') then some [] else none
scan_path in_quote (c ∷ d ∷ rest) =
    let escaped = scan_path in_quote rest in
    let toggled = scan_path (not in_quote) (d ∷ rest) in
    let next = scan_path in_quote (d ∷ rest) in
    if c == b'\\' && in_quote
    then Option.map (λ r. c ∷ d ∷ r) escaped
    else if c == b'"'
    then Option.map (λ r. c ∷ r) toggled
    else if c == b'>' && not in_quote
    then some []
    else Option.map (λ r. c ∷ r) next

-- The text behind the first `<`.
unfoldable pub after_angle : Bytes → Option Bytes
after_angle [] = none
after_angle (c ∷ s) = let later = after_angle s in if c == b'<' then some s else later

unfoldable pub extract_raw_path : Unicode → Bytes → Bytes
unfolding starts_with trim_space after_angle scan_path
extract_raw_path u param =
    let trimmed = trim_space u param in
    if starts_with trimmed (codes "<>") then [] else elim (after_angle trimmed) [
      | none ↦ []
      | some inner ↦ elim (scan_path false inner) [ none ↦ [] | some path ↦ path ]
    ]

-- One line of the session: the sender and the recipients after it.
unfoldable pub parse_line : Unicode → Bytes → Bytes × List Bytes → Bytes × List Bytes
unfolding starts_with to_upper extract_raw_path equal
parse_line u raw (from, recipients) =
    let line = trim_right (λ c. c == b'\r') raw in
    let upper = to_upper u line in
    let sender = extract_raw_path u (drop 10 line) in
    let recipient = extract_raw_path u (drop 8 line) in
    if starts_with upper (codes "MAIL FROM:")
    then (if not (equal sender []) then sender else from, recipients)
    else if starts_with upper (codes "RCPT TO:")
    then (from, if not (equal recipient []) then recipients ++ (recipient ∷ []) else recipients)
    else (from, recipients)

unfoldable pub parse_lines : Unicode → List Bytes → Bytes × List Bytes → Bytes × List Bytes
unfolding parse_line
parse_lines u [] envelope = envelope
parse_lines u (line ∷ lines) envelope = parse_lines u lines (parse_line u line envelope)

unfoldable pub parse_raw_envelope : Unicode → Bytes → Bytes × List Bytes
unfolding parse_lines split
parse_raw_envelope u raw = parse_lines u (split b'\n' raw) ([], [])
