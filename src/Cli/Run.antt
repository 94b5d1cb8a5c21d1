-- ===== src/Cli/Run.antt =====
-- main.go: the callback of the poll loop, and the end of the program.
use interactsh_lite.Cli.Output.{ProtocolFilter, should_display, format_standard, format_json}
use interactsh_lite.Cli.Settings.{CliConfig}
use interactsh_lite.Prelude.Int.{ℤ, is_nat, is_positive, to_nat}
use interactsh_lite.Prelude.Text.{Unicode}
use interactsh_lite.Server.{Interaction}
use interactsh_lite.Prelude.{
  ℕ, ◌+◌, ◌%◌, ◌^◌, Bool, Option, none, some, List, [], ◌∷◌, ◌++◌, leb, if◌then◌else◌, Bytes,
}

-- `displayCount`, how often `doneCh` was closed (a second time panics), and what was printed.
-- `cfg.Count` is below 2 ^ 63: the count as a number modulo 2 ^ 64 equals it as the int64 does.
pub record Shown : Type 0 where
  pub display_count : ℕ
  pub closes : ℕ
  pub printed : List Bytes

abbrev pub nothing_shown : Shown
nothing_shown = record { display_count = 0; closes = 0; printed = [] }

abbrev pub protocol_filter : CliConfig → ProtocolFilter
protocol_filter cfg = record {
  dns_only = cfg.dns_only;
  http_only = cfg.http_only;
  smtp_only = cfg.smtp_only;
  ftp_only = cfg.ftp_only;
  ldap_only = cfg.ldap_only;
}

-- `displayCount.Add(1)`, and the close at the count.
unfoldable pub count_one : ℤ → Shown → Shown
count_one count st =
    let n = (st.display_count + 1) % 2 ^ 64 in
    if is_positive count
    then record st {
      display_count = n;
      closes = if is_nat count n then st.closes + 1 else st.closes;
    }
    else st

-- A format error is a warning; the interaction counts.
unfoldable pub print_text : Option Bytes → Shown → Shown
print_text none st = st
print_text (some text) st = record st { printed = st.printed ++ (text ∷ []) }

-- What a run has: the compiled patterns, and the calls of libraries.
pub record Viewer (Re : Type 0) : Type 0 where
  pub unicode : Unicode
  pub match_string : Re → Bytes → Bool
  pub format_time : ℕ → Bytes
  pub marshal : Interaction → Option Bytes
  pub use_color : Bool
  pub match_regexes : List Re
  pub filter_regexes : List Re

module _ {Re : Type 0} (v : Viewer Re) (cfg : CliConfig) where
  unfoldable pub is_shown : Interaction → Bool
  is_shown i =
      should_display v.match_string v.unicode (protocol_filter cfg) v.match_regexes v.filter_regexes
        i

  unfoldable pub formatted : Interaction → Option Bytes
  unfolding format_standard format_json
  formatted i =
      if cfg.json
      then format_json v.unicode v.marshal i
      else some (format_standard v.unicode v.format_time v.use_color cfg.verbose i)

  unfoldable pub print : Interaction → Shown → Shown
  unfolding print_text
  print i st = print_text (formatted i) st

  -- The callback of `StartPolling`.
  unfoldable pub on_interaction : Interaction → Shown → Shown
  on_interaction i st = if is_shown i then count_one cfg.count (print i st) else st

  unfoldable pub on_interactions : List Interaction → Shown → Shown
  on_interactions [] st = st
  on_interactions (i ∷ is) st = on_interactions is (on_interaction i st)

-- Why the wait ended.
pub data Reason : Type 0 where
  on_signal on_timeout on_count : Reason

-- `received` is `displayCount` when it is read. The poll loop may still be calling back then.
unfoldable pub exit_code : CliConfig → Reason → ℕ → ℕ
exit_code cfg on_signal received = 0
exit_code cfg on_timeout received =
    if is_positive cfg.count then (if leb (to_nat cfg.count) received then 0 else 1) else 0
exit_code cfg on_count received = 0
