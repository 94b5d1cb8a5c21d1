-- ===== src/Oobclient/Lifecycle.antt =====
-- The life of a client of oobclient/client.go: `StartPolling`, `StopPolling`, `Close` and the
-- goroutines of `pollLoop` and `startKeepAlive`, which run between them. `requests` is the
-- registrations and deregistrations that the client has sent since it was created, the latest first.
-- What the poll loops send is not in it.
use interactsh_lite.Prelude.{
  ℕ, suc, ◌&&◌, ◌||◌, ◌==◌, Bool, true, false, Option, none, some, List, [], ◌∷◌, if◌then◌else◌,
  ◌≡◌,
}

pub data ClientState : Type 0 where
  idle polling closed : ClientState

pub data Request : Type 0 where
  registration deregistration : Request

-- The errors of the three methods; none is `nil`.
pub data ClientError : Type 0 where
  already_polling client_closed : ClientError

pub record Life : Type 0 where
  pub state : ClientState
  -- `pollCancel`: the poll loop that it cancels.
  pub poll_cancel : Option ℕ
  -- The poll loops whose context is not cancelled, and those that have not returned: nothing waits
  -- for a loop whose context is cancelled.
  pub polls : List ℕ
  pub running : List ℕ
  pub next_poll : ℕ
  -- `keepAliveCancel` is set.
  pub keep_alive_cancel : Bool
  -- The keep-alive goroutine has not returned, and it is in `performRegistration`.
  pub keep_alive : Bool
  pub in_flight : Bool
  -- A `Close` is past its lock and has not sent its request; it waits for the goroutine.
  pub closing : Bool
  pub joins : Bool
  pub requests : List Request

-- After `New` or `LoadSession`, with keep-alive on or off.
unfoldable pub new_life : Bool → Life
new_life keep_alive = record {
  state = idle;
  poll_cancel = none;
  polls = [];
  running = [];
  next_poll = 0;
  keep_alive_cancel = keep_alive;
  keep_alive = keep_alive;
  in_flight = false;
  closing = false;
  joins = false;
  requests = [];
}

abbrev pub without : ℕ → List ℕ → List ℕ
without p [] = []
without p (q ∷ qs) = let rest = without p qs in if q == p then rest else q ∷ rest

abbrev pub has : ℕ → List ℕ → Bool
has p [] = false
has p (q ∷ qs) = q == p || has p qs

-- `c.pollCancel(); c.pollCancel = nil`
unfoldable pub cancel_poll : Life → Life
cancel_poll c = elim c.poll_cancel [
  | none ↦ c
  | some p ↦ record c { poll_cancel = none; polls = without p c.polls }
]

unfoldable pub start_polling : Life → Option ClientError × Life
start_polling c = elim c.state [
  | polling ↦ (some already_polling, c)
  | closed ↦ (some client_closed, c)
  | idle ↦ (
    none,
    record c {
      state = polling;
      poll_cancel = some c.next_poll;
      polls = c.next_poll ∷ c.polls;
      running = c.next_poll ∷ c.running;
      next_poll = suc c.next_poll;
    },
  )
]

unfoldable pub stop_polling : Life → Option ClientError × Life
unfolding cancel_poll
stop_polling c = elim c.state [
  | closed ↦ (some client_closed, c)
  | idle ↦ (none, c)
  | polling ↦ (none, record (cancel_poll c) { state = idle })
]

-- `Close` up to `c.mu.Unlock()`, of a client that is not closed.
unfoldable pub mark_closed : Life → Life
unfolding cancel_poll
mark_closed c =
    let c' = cancel_poll c in
    record c' {
      keep_alive_cancel = false;
      joins = c'.keep_alive_cancel;
      state = closed;
      closing = true;
    }

unfoldable pub close : Life → Life
unfolding mark_closed
close c = elim c.state [ closed ↦ c | _ ↦ mark_closed c ]

-- `performDeregistration` of the `Close` that waited.
unfoldable pub perform_deregistration : Life → Life
perform_deregistration c = record c { closing = false; requests = deregistration ∷ c.requests }

-- A poll loop comes to its `select`, finds the context cancelled, and returns.
unfoldable pub finish_poll : ℕ → Life → Life
finish_poll p c = record c { running = without p c.running }

-- The ticker of the keep-alive goroutine fires.
unfoldable pub tick : Life → Life
tick c = elim c.state [
  | closed ↦ record c { keep_alive = false }
  | _ ↦ record c { in_flight = true }
]

-- The request of the goroutine is sent, and it is back at its `select`.
unfoldable pub re_register : Life → Life
re_register c = record c { in_flight = false; requests = registration ∷ c.requests }

-- What may happen next: calls at any time, the goroutines when they run, and the request of `Close`
-- once the goroutine is done that it waits for. A poll loop may return at any time after its context
-- is cancelled; until then it may poll.
pub data Step : Life → Life → Type 0 where
  starts : (c : Life) → Step c (start_polling c).1
  stops : (c : Life) → Step c (stop_polling c).1
  closes : (c : Life) → Step c (close c)
  finishes : (c : Life) (p : ℕ) → has p c.polls ≡ false → Step c (finish_poll p c)
  ticks : (c : Life) → c.keep_alive ≡ true → c.in_flight ≡ false → Step c (tick c)
  registers : (c : Life) → c.in_flight ≡ true → Step c (re_register c)
  -- The cancelled context: the goroutine returns.
  returns :
      (c : Life)
      → c.keep_alive_cancel ≡ false
      → c.in_flight ≡ false
      → Step c (record c { keep_alive = false })
  deregisters :
      (c : Life)
      → c.closing ≡ true
      → (c.joins && c.keep_alive) ≡ false
      → Step c (perform_deregistration c)

pub data Run : Life → Life → Type 0 where
  here : {c : Life} → Run c c
  next : {a b c : Life} → Run a b → Step b c → Run a c
