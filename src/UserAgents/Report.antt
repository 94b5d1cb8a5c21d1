-- ===== src/UserAgents/Report.antt =====
-- The report loop of interactsh-srv/oobsrv/useragent.go. Times are Unix nanoseconds.
use interactsh_lite.UserAgents.{flush}
use interactsh_lite.Prelude.{
  ℕ, ◌+◌, ◌*◌, ◌/◌, ◌%◌, ◌≤◌, ◌<◌, true, ◌||◌, Option, none, some, [], leb, ◌==◌, if◌then◌else◌,
  Map, length, ◌≡◌, arith,
}

abbrev pub nanos_of_day : ℕ
nanos_of_day = 86_400_000_000_000

unfoldable pub next_midnight : ℕ → ℕ
next_midnight t = (t / nanos_of_day + 1) * nanos_of_day

pub record Tracker : Type 0 where
  pub active : Map ℕ
  pub window_start : ℕ
  pub flush_at : ℕ

-- The line that is logged.
pub record AgentReport : Type 0 where
  pub window_start : ℕ
  pub window_end : ℕ
  pub counts : Map ℕ
  pub total : ℕ

-- `newUserAgentTracker`, and the beginning of `run`.
unfoldable pub new_tracker : ℕ → ℕ → Tracker
unfolding next_midnight
new_tracker created started = record {
  active = [];
  window_start = created;
  flush_at = next_midnight started;
}

unfoldable pub report_and_clear : ℕ → Tracker → Option AgentReport × Tracker
unfolding flush
report_and_clear end t =
    let (closed, active) = flush t.active in
    if length closed.0 == 0 then (none, record t { active = active }) else (
      some (record {
        window_start = t.window_start;
        window_end = end;
        counts = closed.0;
        total = closed.1;
      }),
      record t { active = active; window_start = end },
    )

-- A tick, with its time, that of the report and that after it.
unfoldable pub report_tick : ℕ → ℕ → ℕ → ℕ → Tracker → Option AgentReport × Tracker
unfolding report_and_clear next_midnight
report_tick threshold now end after t =
    let (report, t') = report_and_clear end t in
    if leb threshold (length t.active) || leb t.flush_at now
    then (report, record t' { flush_at = next_midnight after })
    else (none, t)

-- The next midnight is after the time, by a day at most, and is a whole number of days.
next_midnight_lem :
    (t : ℕ)
    → (t < next_midnight t)
      × (next_midnight t ≤ t + nanos_of_day)
      × (next_midnight t % nanos_of_day ≡ 0)
unfolding next_midnight
next_midnight_lem t = (omega arith, omega arith, omega arith)

-- Whenever a tick comes at the flush time or with many agents, the window is empty afterwards.
report_tick-clears :
    (threshold now end after : ℕ) (t : Tracker)
    → (leb threshold (length t.active) || leb t.flush_at now) ≡ true
    → (report_tick threshold now end after t).1.active ≡ []
unfolding report_tick report_and_clear flush
report_tick-clears threshold now end after t h = ground (arith, h)
