-- ===== src/UserAgents/Totals.antt =====
-- What a flush reports.
use interactsh_lite.UserAgents.{agent_label, record_agent, total_of, flush}
use interactsh_lite.Prelude.{
  ℕ, suc, ◌+◌, List, [], ◌∷◌, if◌then◌else◌, Bytes, equal, Map, lookup, insert, lookup-insert,
  equal_iff, get_or, length, ◌≡◌, refl, arith,
}

-- A window: the registrations since the last flush, the latest first.
abbrev pub recorded : List Bytes → Map ℕ
recorded [] = []
recorded (ua ∷ uas) = record_agent ua (recorded uas)

-- The registrations of an agent.
abbrev pub count : Bytes → List Bytes → ℕ
count label [] = 0
count label (ua ∷ uas) =
    if equal (agent_label ua) label then suc (count label uas) else count label uas

total_of-insert :
    (k : Bytes) (counts : Map ℕ)
    → total_of (insert k (get_or 0 (lookup k counts) + 1) counts) ≡ total_of counts + 1
unfolding insert lookup
total_of-insert k [] = omega arith
total_of-insert k ((j, c) ∷ counts) = ground (arith, total_of-insert k counts)

recorded-total : (uas : List Bytes) → total_of (recorded uas) ≡ length uas
unfolding record_agent
recorded-total [] = refl
recorded-total (ua ∷ uas) =
    omega (arith, total_of-insert (agent_label ua) (recorded uas), recorded-total uas)

recorded-count :
    (label : Bytes) (uas : List Bytes) → get_or 0 (lookup label (recorded uas)) ≡ count label uas
unfolding record_agent lookup
recorded-count label [] = refl
recorded-count label (ua ∷ uas) = ground (
  arith,
  lookup-insert (agent_label ua) label (get_or 0 (lookup (agent_label ua) (recorded uas)) + 1)
      (recorded uas),
  recorded-count label uas,
  equal_iff (agent_label ua) label,
)

-- A flush reports, for each agent, how often it registered since the last one, and the number of
-- all these registrations; the next window starts empty.
flush-recorded :
    (label : Bytes) (uas : List Bytes)
    → let (report, active) = flush (recorded uas) in
      (get_or 0 (lookup label report.0) ≡ count label uas)
      × (report.1 ≡ length uas)
      × (active ≡ recorded [])
unfolding flush
flush-recorded label uas = (recorded-count label uas, recorded-total uas, refl)
