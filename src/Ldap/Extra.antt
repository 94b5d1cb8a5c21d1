-- ===== src/Ldap/Extra.antt =====
-- What the LDAP handlers and the FTP notifier bring to the extra bucket, and polls take out of it:
-- the uses of `extraBucket` in interactsh-srv/oobsrv/ldap.go, ftp.go and endpoints.go.
use interactsh_lite.Ldap.Capture.{capture_ldap_extra_kept}
use interactsh_lite.Endpoints.{read_extra}
use interactsh_lite.Ftp.{
  FtpContext, Notification, ftp_interaction, description, is_counted, capture_ftp_interaction,
  notify,
}
use interactsh_lite.Ldap.{
  LdapConn, LdapContext, Request, ldap_interaction, request_text, capture_ldap_extra,
  capture_ldap_search_interaction, handle_ldap,
}
use interactsh_lite.Ldap.StartTls.{LdapMessage}
use interactsh_lite.Prelude.Text.{codes}
use interactsh_lite.Server.{Interaction, Library, Meets, Server}
use interactsh_lite.SharedBucket.{SharedBucket, read_from}
use interactsh_lite.SharedBucket.Refinement.{Refines}
use interactsh_lite.SharedBucket.Waiting.{
  Call, appends, reads, call, calls, appended, IsOther, read_from-calls,
}
use interactsh_lite.Prelude.{
  ℕ, ◌+◌, ◌≤◌, Bool, none, some, List, [], ◌∷◌, ◌++◌, All, if◌then◌else◌, Bytes, length, ◌≡◌, refl,
  arith, Bool-cases, Option-cases, inl, inr, sym, ap, ◌∙◌,
}

-- What an interaction adds to a bucket.
abbrev marshalled : Library → Interaction → List Call
marshalled lib i = elim (lib.marshal i) [ none ↦ [] | some encoded ↦ appends encoded ∷ [] ]

-- What comes to the extra bucket: from the services that log every request, and the polls.
pub data Event (H : Type 0) : Type 0 where
  ldap : LdapMessage H → LdapConn → Event H
  ftp : FtpContext → Notification → Event H
  poll : Bytes → ℕ → Event H

calls-append : (xs ys : List Call) (b : SharedBucket) → calls (xs ++ ys) b ≡ calls ys (calls xs b)
unfolding calls
calls-append [] ys b = refl
calls-append (x ∷ xs) ys b = calls-append xs ys (call x b)

module _ {H : Type 0} (lib : Library) (itoa : ℕ → Bytes) where
  unfoldable pub serve_event : Event H → Server H → Server H
  unfolding handle_ldap notify
  serve_event (Event.ldap m conn) s = (handle_ldap lib itoa m.meets m.ctx m.request (conn, s)).2
  serve_event (Event.ftp ctx n) s = notify lib ctx n s
  serve_event (Event.poll id now) s = (read_extra id now s).1

  -- What an event does to the extra bucket, by whether LDAP requests are logged.
  abbrev pub captured : Bool → Event H → List Call
  captured logs (Event.ldap m conn) =
      if logs
      then marshalled lib
          (ldap_interaction (request_text itoa m.request) m.ctx.remote_addr m.ctx.now)
      else []
  captured logs (Event.ftp ctx n) = marshalled lib (
      ftp_interaction (ctx.cmd ++ (codes " " ++ (ctx.param ++ (codes "\n" ++ description n))))
        ctx.remote_addr ctx.now)
  captured logs (Event.poll id now) = reads id now ∷ []

  search_extra :
      (meets : Meets H) (ctx : LdapContext) (r : Request) (s : Server H)
      → let s' = capture_ldap_search_interaction lib itoa meets ctx r s in
        (s'.extra_bucket ≡ s.extra_bucket) × (s'.cfg ≡ s.cfg)
  unfolding capture_ldap_search_interaction
  search_extra meets ctx r s = ground arith

  capture_ldap_extra_lem :
      (raw remote_addr : Bytes) (now : ℕ) (s : Server H) (b : SharedBucket)
      → s.extra_bucket ≡ some b
      → (capture_ldap_extra lib itoa raw remote_addr now s).extra_bucket
        ≡ some (calls (marshalled lib (ldap_interaction raw remote_addr now)) b)
  unfolding capture_ldap_extra calls call
  capture_ldap_extra_lem raw remote_addr now s b e =
      elim (Option-cases (lib.marshal (ldap_interaction raw remote_addr now))) [
        | inl n ↦ ground (arith, e, n)
        | inr (x, n) ↦ ground (arith, e, n)
      ]

  capture_ftp_interaction_lem :
      (raw remote_addr : Bytes) (now : ℕ) (s : Server H) (b : SharedBucket)
      → s.extra_bucket ≡ some b
      → let s' = capture_ftp_interaction lib raw remote_addr now s in
        (s'.cfg ≡ s.cfg)
        × (s'.extra_bucket ≡ some (calls (marshalled lib (ftp_interaction raw remote_addr now)) b))
  unfolding capture_ftp_interaction calls call
  capture_ftp_interaction_lem raw remote_addr now s b e =
      elim (Option-cases (lib.marshal (ftp_interaction raw remote_addr now))) [
        | inl n ↦ ground (arith, e, n)
        | inr (x, n) ↦ ground (arith, e, n)
      ]

  read_extra_lem :
      (id : Bytes) (now : ℕ) (s : Server H) (b : SharedBucket)
      → s.extra_bucket ≡ some b
      → let (raw, s') = read_extra id now s in
        (raw ≡ (read_from id now b).0)
        × (s'.extra_bucket ≡ some (read_from id now b).1)
        × (s'.cfg ≡ s.cfg)
  unfolding read_extra
  read_extra_lem id now s b e = ground (arith, e)

  -- One event, on the extra bucket.
  serve_event_lem :
      (ev : Event H) (s : Server H) (b : SharedBucket)
      → s.extra_bucket ≡ some b
      → let s' = serve_event ev s in
        (s'.cfg ≡ s.cfg) × (s'.extra_bucket ≡ some (calls (captured s.cfg.ldap ev) b))
  unfolding serve_event handle_ldap notify calls call
  serve_event_lem (Event.ldap m conn) s b e =
      let raw = request_text itoa m.request in
      let counted = record s { ldap_count = s.ldap_count + 1 } in
      let extra = capture_ldap_extra lib itoa raw m.ctx.remote_addr m.ctx.now counted in
      elim (Bool-cases s.cfg.ldap) [
        | inl on ↦ ground (
          arith,
          e,
          on,
          search_extra m.meets m.ctx m.request extra,
          capture_ldap_extra_kept lib itoa raw m.ctx.remote_addr m.ctx.now counted,
          capture_ldap_extra_lem raw m.ctx.remote_addr m.ctx.now counted b e,
        )
        | inr off ↦ ground (arith, e, off, search_extra m.meets m.ctx m.request counted)
      ]
  serve_event_lem (Event.ftp ctx n) s b e =
      let raw = ctx.cmd ++ (codes " " ++ (ctx.param ++ (codes "\n" ++ description n))) in
      let s' = if is_counted n then record s { ftp_count = s.ftp_count + 1 } else s in
      elim (Bool-cases (is_counted n)) [
        | inl c ↦ rw c (
            capture_ftp_interaction_lem raw ctx.remote_addr ctx.now
              (record s { ftp_count = s.ftp_count + 1 }) b e)
        | inr c ↦ rw c (capture_ftp_interaction_lem raw ctx.remote_addr ctx.now s b e)
      ]
  serve_event_lem (Event.poll id now) s b e =
      let read = read_extra_lem id now s b e in (read.2, read.1)

  unfoldable pub serve_events : List (Event H) → Server H → Server H
  unfolding serve_event
  serve_events [] s = s
  serve_events (ev ∷ rest) s = serve_events rest (serve_event ev s)

  abbrev pub all_captured : Bool → List (Event H) → List Call
  all_captured logs [] = []
  all_captured logs (ev ∷ rest) = captured logs ev ++ all_captured logs rest

  serve_events_lem :
      (evs : List (Event H)) (s : Server H) (b : SharedBucket)
      → s.extra_bucket ≡ some b
      → (serve_events evs s).extra_bucket ≡ some (calls (all_captured s.cfg.ldap evs) b)
  unfolding serve_events calls
  serve_events_lem [] s b e = e
  serve_events_lem (ev ∷ rest) s b e =
      let one = serve_event_lem ev s b e in
      let b' = calls (captured s.cfg.ldap ev) b in
      serve_events_lem rest (serve_event ev s) b' one.1
      ∙ ap (λ c. some (calls (all_captured c.ldap rest) b')) one.0
      ∙ ap some (sym (calls-append (captured s.cfg.ldap ev) (all_captured s.cfg.ldap rest) b))

  -- A client that reads an extra bucket that holds what is left of a history, and reads it again
  -- after at most `maxBuffer` captures, gets what every FTP event and, if LDAP requests are
  -- logged, every LDAP request between the two recorded: all of it, once and in order. The other
  -- reads between the two are of other clients, and none is later after the first than the TTL.
  pub read_extra-serve_events :
      (id : Bytes) (now later : ℕ) (evs : List (Event H)) (s : Server H) (b : SharedBucket)
      (history : List Bytes) (d : ℕ) (pos : Bytes → ℕ)
      → s.extra_bucket ≡ some b
      → Refines b history d pos
      → All (IsOther id now b.eviction_ttl) (all_captured s.cfg.ldap evs)
      → length (appended (all_captured s.cfg.ldap evs)) ≤ b.max_buffer
      → (read_extra id later (serve_events evs (read_extra id now s).1)).0
        ≡ appended (all_captured s.cfg.ldap evs)
  read_extra-serve_events id now later evs s b history d pos e r o h =
      let first = read_extra_lem id now s b e in
      let s' = (read_extra id now s).1 in
      let xs = all_captured s.cfg.ldap evs in
      let events : (serve_events evs s').extra_bucket ≡ some (calls xs (read_from id now b).1) =
        serve_events_lem evs s' (read_from id now b).1 first.1
        ∙ ap (λ c. some (calls (all_captured c.ldap evs) (read_from id now b).1)) first.2 in
      (read_extra_lem id later (serve_events evs s') (calls xs (read_from id now b).1) events).0
      ∙ read_from-calls id now later xs b history d pos r o h
