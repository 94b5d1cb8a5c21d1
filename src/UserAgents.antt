-- ===== src/UserAgents.antt =====
-- interactsh-srv/oobsrv/useragent.go: the counts of `userAgentTracker`, whose calls are taken one
-- after the other. A `uint64` count is a number here: it would take 2^64 registrations to wrap.
pub mod Totals
pub mod Report
use interactsh_lite.Prelude.Text.{codes}
use interactsh_lite.Prelude.{
  ℕ, ◌+◌, List, [], ◌∷◌, if◌then◌else◌, Bytes, equal, Map, lookup, insert, get_or,
}

-- The label of an absent header.
abbrev pub agent_label : Bytes → Bytes
agent_label ua = if equal ua [] then codes "<empty>" else ua

unfoldable pub record_agent : Bytes → Map ℕ → Map ℕ
unfolding equal
record_agent ua active =
    let label = agent_label ua in insert label (get_or 0 (lookup label active) + 1) active

abbrev pub total_of : Map ℕ → ℕ
total_of [] = 0
total_of ((k, c) ∷ counts) = c + total_of counts

-- The counts and their total, and the map that is active afterwards.
unfoldable pub flush : Map ℕ → (Map ℕ × ℕ) × Map ℕ
flush active = ((active, total_of active), [])
