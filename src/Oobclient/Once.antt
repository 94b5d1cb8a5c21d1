-- ===== src/Oobclient/Once.antt =====
-- What no history of a client breaks.
use interactsh_lite.Oobclient.Lifecycle.{
  ClientState, idle, polling, closed, Request, registration, deregistration, Life, new_life,
  cancel_poll, start_polling, stop_polling, mark_closed, close, perform_deregistration, tick,
  re_register, finish_poll, has, without, Step, starts, stops, closes, finishes, ticks, registers,
  returns, deregisters, Run, here, next,
}
use interactsh_lite.Prelude.{
  ℕ, ◌&&◌, ◌||◌, Bool, true, false, not, Option, none, some, List, [], ◌∷◌, ◌==◌, ◌≡◌, refl, subst,
  ap, arith, ==_iff,
}

abbrev pub is_sent : List Request → Bool
is_sent [] = false
is_sent (registration ∷ rs) = is_sent rs
is_sent (deregistration ∷ rs) = true

abbrev pub is_closed : ClientState → Bool
is_closed closed = true
is_closed _ = false

-- The poll loops whose context is not cancelled: one while the client polls, which runs, and none
-- otherwise.
abbrev pub MatchesState : ClientState → Option ℕ → List ℕ → List ℕ → Type 0
MatchesState polling cancel polls running =
    (p : ℕ) × (cancel ≡ some p) × (polls ≡ p ∷ []) × (has p running ≡ true)
MatchesState _ cancel polls running = (cancel ≡ none) × (polls ≡ [])

-- `Close` sends one request, after which the client sends none of these.
abbrev pub EndsOnce : List Request → Type 0
EndsOnce [] = Unit
EndsOnce (r ∷ rs) = is_sent rs ≡ false

pub record IsGood (c : Life) : Type 0 where
  pub polls : MatchesState c.state c.poll_cancel c.polls c.running
  pub ends : EndsOnce c.requests
  pub before : (is_closed c.state || not (c.closing || is_sent c.requests)) ≡ true
  pub after : (not (is_closed c.state) || c.closing || is_sent c.requests) ≡ true
  pub once : (c.closing && is_sent c.requests) ≡ false
  pub quiet : (is_sent c.requests && c.keep_alive) ≡ false
  pub runs : (not c.in_flight || c.keep_alive) ≡ true
  pub cancels : (is_closed c.state || not c.keep_alive || c.keep_alive_cancel) ≡ true
  pub waits : (not c.closing || not c.keep_alive || c.joins) ≡ true

new_life-IsGood : (keep_alive : Bool) → IsGood (new_life keep_alive)
unfolding new_life
new_life-IsGood k = record {
  polls = (refl, refl);
  ends = tt;
  before = refl;
  after = refl;
  once = refl;
  quiet = refl;
  runs = refl;
  cancels = ground arith;
  waits = refl;
}

-- The poll loops, for each state of the client.
abbrev Polls : Life → Type 0
Polls d = MatchesState d.state d.poll_cancel d.polls d.running

module _ (c : Life) where
  start_polls :
      (s : ClientState)
      → MatchesState s c.poll_cancel c.polls c.running
      → Polls (start_polling (record c { state = s })).1
  unfolding start_polling
  start_polls idle h =
      (c.next_poll, refl, ap (◌∷◌ c.next_poll) h.1, ground (arith, ==_iff c.next_poll c.next_poll))
  start_polls polling h = h
  start_polls closed h = h

  cancelled :
      (s : ClientState)
      → MatchesState s c.poll_cancel c.polls c.running
      → let d = cancel_poll (record c { state = s }) in (d.poll_cancel ≡ none) × (d.polls ≡ [])
  unfolding cancel_poll
  cancelled idle h = rw (cancel_poll, h.0) h
  cancelled closed h = rw (cancel_poll, h.0) h
  cancelled polling (p, e, l, r) = rw (cancel_poll, e) (refl, rw l (ground (arith, ==_iff p p)))

  stop_polls :
      (s : ClientState)
      → MatchesState s c.poll_cancel c.polls c.running
      → Polls (stop_polling (record c { state = s })).1
  unfolding stop_polling
  stop_polls idle h = h
  stop_polls closed h = h
  stop_polls polling h = cancelled polling h

  close_polls :
      (s : ClientState)
      → MatchesState s c.poll_cancel c.polls c.running
      → Polls (close (record c { state = s }))
  unfolding close mark_closed
  close_polls idle h = cancelled idle h
  close_polls closed h = h
  close_polls polling h = cancelled polling h

  has-without :
      (p q : ℕ) (ps : List ℕ) → (q == p) ≡ false → has p ps ≡ true → has p (without q ps) ≡ true
  has-without p q [] n h = h
  has-without p q (r ∷ rs) n h =
      ground (arith, n, h, has-without p q rs n, ==_iff r p, ==_iff r q, ==_iff q p)

  finish_polls :
      (p : ℕ) (s : ClientState)
      → has p c.polls ≡ false
      → MatchesState s c.poll_cancel c.polls c.running
      → Polls (finish_poll p (record c { state = s }))
  unfolding finish_poll
  finish_polls p idle u h = h
  finish_polls p closed u h = h
  finish_polls p polling u (q, e, l, r) =
      let apart : has p (q ∷ []) ≡ false = subst (λ ps. has p ps ≡ false) l u in
      (q, e, l, has-without q p c.running (ground (arith, apart, ==_iff q p, ==_iff p q)) r)

-- The flags of a step are what `ground` reads.
abbrev Flags : Life → Type 0
Flags c =
    EndsOnce c.requests
    × ((is_closed c.state || not (c.closing || is_sent c.requests)) ≡ true)
    × ((not (is_closed c.state) || c.closing || is_sent c.requests) ≡ true)
    × ((c.closing && is_sent c.requests) ≡ false)
    × ((is_sent c.requests && c.keep_alive) ≡ false)
    × ((not c.in_flight || c.keep_alive) ≡ true)
    × ((is_closed c.state || not c.keep_alive || c.keep_alive_cancel) ≡ true)
    × ((not c.closing || not c.keep_alive || c.joins) ≡ true)

good : (c : Life) → MatchesState c.state c.poll_cancel c.polls c.running → Flags c → IsGood c
good c p f = record {
  polls = p;
  ends = f.0;
  before = f.1;
  after = f.2;
  once = f.3;
  quiet = f.4;
  runs = f.5;
  cancels = f.6;
  waits = f.7;
}

flags : (c : Life) → IsGood c → Flags c
flags c g = (g.ends, g.before, g.after, g.once, g.quiet, g.runs, g.cancels, g.waits)

start-Flags : (c : Life) → Flags c → Flags (start_polling c).1
unfolding start_polling
start-Flags c f = ground (arith, f)

stop-Flags : (c : Life) → Flags c → Flags (stop_polling c).1
unfolding stop_polling cancel_poll
stop-Flags c f = ground (arith, f)

close-Flags : (c : Life) → Flags c → Flags (close c)
unfolding close mark_closed cancel_poll
close-Flags c f = ground (arith, f)

tick_polls :
    (c : Life) (s : ClientState)
    → MatchesState s c.poll_cancel c.polls c.running
    → Polls (tick (record c { state = s }))
unfolding tick
tick_polls c idle h = h
tick_polls c polling h = h
tick_polls c closed h = h

tick-Flags : (c : Life) → c.keep_alive ≡ true → c.in_flight ≡ false → Flags c → Flags (tick c)
unfolding tick
tick-Flags c k i f = ground (arith, k, i, f)

register-Flags : (c : Life) → c.in_flight ≡ true → Flags c → Flags (re_register c)
unfolding re_register
register-Flags c i f = ground (arith, i, f)

return-Flags :
    (c : Life)
    → c.keep_alive_cancel ≡ false
    → c.in_flight ≡ false
    → Flags c
    → Flags (record c { keep_alive = false })
return-Flags c k i f = ground (arith, k, i, f)

deregister-Flags :
    (c : Life)
    → c.closing ≡ true
    → (c.joins && c.keep_alive) ≡ false
    → Flags c
    → Flags (perform_deregistration c)
unfolding perform_deregistration
deregister-Flags c k j f = ground (arith, k, j, f)

Step-IsGood : {c d : Life} → Step c d → IsGood c → IsGood d
unfolding re_register perform_deregistration finish_poll
Step-IsGood (starts c) g =
    good (start_polling c).1 (start_polls c c.state g.polls) (start-Flags c (flags c g))
Step-IsGood (stops c) g =
    good (stop_polling c).1 (stop_polls c c.state g.polls) (stop-Flags c (flags c g))
Step-IsGood (closes c) g =
    good (close c) (close_polls c c.state g.polls) (close-Flags c (flags c g))
Step-IsGood (finishes c p u) g =
    good (finish_poll p c) (finish_polls c p c.state u g.polls) (flags c g)
Step-IsGood (ticks c k i) g =
    good (tick c) (tick_polls c c.state g.polls) (tick-Flags c k i (flags c g))
Step-IsGood (registers c i) g = good (re_register c) g.polls (register-Flags c i (flags c g))
Step-IsGood (returns c k i) g =
    good (record c { keep_alive = false }) g.polls (return-Flags c k i (flags c g))
Step-IsGood (deregisters c k j) g =
    good (perform_deregistration c) g.polls (deregister-Flags c k j (flags c g))

keep-Run : {c d : Life} → Run c d → IsGood c → IsGood d
keep-Run here g = g
keep-Run (next r s) g = Step-IsGood s (keep-Run r g)

-- Whatever a client goes through: while it polls, exactly one poll loop has a context that is not
-- cancelled, and that loop runs; otherwise every loop that still runs is cancelled. A closed client
-- has sent its deregistration or is about to, it sends one at most, and no re-registration of the
-- keep-alive goroutine follows.
pub Run-IsGood : {c : Life} (keep_alive : Bool) → Run (new_life keep_alive) c → IsGood c
Run-IsGood keep_alive r = keep-Run r (new_life-IsGood keep_alive)
