-- ===== src/Oobclient/Ends.antt =====
-- That a `Close` ends.
use interactsh_lite.Oobclient.Lifecycle.{
  registration, deregistration, Life, new_life, cancel_poll, start_polling, stop_polling,
  mark_closed, close, perform_deregistration, tick, re_register, finish_poll, Step, starts, stops,
  closes, finishes, ticks, registers, returns, deregisters, Run, here, next,
}
use interactsh_lite.Prelude.{
  ◌||◌, Bool, true, false, not, ◌∷◌, if◌then◌else◌, ◌≡◌, refl, arith, Bool-cases, inl, inr,
}

-- A client that is being closed has cancelled its keep-alive goroutine.
abbrev IsCancelled : Life → Type 0
IsCancelled c = (not c.closing || not c.keep_alive_cancel) ≡ true

cancel_poll_flags :
    (c : Life)
    → let d = cancel_poll c in (d.closing ≡ c.closing) × (d.keep_alive_cancel ≡ c.keep_alive_cancel)
unfolding cancel_poll
cancel_poll_flags c = ground arith

start-IsCancelled : (c : Life) → IsCancelled c → IsCancelled (start_polling c).1
unfolding start_polling
start-IsCancelled c h = ground (arith, h)

stop-IsCancelled : (c : Life) → IsCancelled c → IsCancelled (stop_polling c).1
unfolding stop_polling
stop-IsCancelled c h = ground (arith, h, cancel_poll_flags c)

close-IsCancelled : (c : Life) → IsCancelled c → IsCancelled (close c)
unfolding close mark_closed
close-IsCancelled c h = ground (arith, h)

tick-IsCancelled : (c : Life) → IsCancelled c → IsCancelled (tick c)
unfolding tick
tick-IsCancelled c h = ground (arith, h)

Step-IsCancelled : {c d : Life} → Step c d → IsCancelled c → IsCancelled d
unfolding re_register perform_deregistration finish_poll
Step-IsCancelled (starts c) h = start-IsCancelled c h
Step-IsCancelled (stops c) h = stop-IsCancelled c h
Step-IsCancelled (closes c) h = close-IsCancelled c h
Step-IsCancelled (finishes c p u) h = h
Step-IsCancelled (ticks c k f) h = tick-IsCancelled c h
Step-IsCancelled (registers c f) h = h
Step-IsCancelled (returns c k f) h = h
Step-IsCancelled (deregisters c k f) h = refl

keep-IsCancelled : {c d : Life} → Run c d → IsCancelled c → IsCancelled d
keep-IsCancelled here h = h
keep-IsCancelled (next r s) h = Step-IsCancelled s (keep-IsCancelled r h)

begun-IsCancelled : (k : Bool) → IsCancelled (new_life k)
unfolding new_life
begun-IsCancelled k = refl

-- With no request in flight the goroutine returns, and the deregistration is sent.
idle_ends :
    {a c : Life}
    → Run a c
    → c.closing ≡ true
    → c.keep_alive_cancel ≡ false
    → c.in_flight ≡ false
    → (d : Life) × Run a d × (d.closing ≡ false) × (d.requests ≡ deregistration ∷ c.requests)
unfolding perform_deregistration
idle_ends {a} {c} r k cancel f =
    let c1 = record c { keep_alive = false } in
    (
      perform_deregistration c1,
      next (next r (returns c cancel f)) (deregisters c1 k (ground arith)),
      refl,
      refl,
    )

-- A `Close` need not wait for ever: from wherever a new client has come to while it is being
-- closed, it can go on to where the deregistration is sent, with no registration sent before it but
-- the one that was in flight.
pub close_ends :
    {c : Life} (keep_alive : Bool)
    → Run (new_life keep_alive) c
    → c.closing ≡ true
    → (d : Life) × Run (new_life keep_alive) d
      × (d.closing ≡ false)
      × (d.requests
          ≡ deregistration ∷ (if c.in_flight then registration ∷ c.requests else c.requests))
unfolding re_register
close_ends {c} keep_alive r k =
    let cancelled : c.keep_alive_cancel ≡ false =
      ground (arith, k, keep-IsCancelled r (begun-IsCancelled keep_alive)) in
    elim (Bool-cases c.in_flight) [
      | inl f ↦
          let (d, run, e, q) = idle_ends (next r (registers c f)) k cancelled refl in
          (d, run, e, ground (arith, q, f))
      | inr f ↦ let (d, run, e, q) = idle_ends r k cancelled f in (d, run, e, ground (arith, q, f))
    ]
