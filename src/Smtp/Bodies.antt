-- ===== src/Smtp/Bodies.antt =====
-- The body of a message among what a capture of interactsh-srv/oobsrv/smtp.go stores.
use interactsh_lite.Correlation.{Match}
use interactsh_lite.Dns.Zone.{matched_domain}
use interactsh_lite.Prelude.Text.{cut, to_lower}
use interactsh_lite.Server.{Interaction, Server, Library, Meets}
use interactsh_lite.Prelude.{
  ℕ, ◌+◌, ◌≤◌, false, not, ◌&&◌, Option, List, [], ◌∷◌, ◌++◌, if◌then◌else◌, Bytes, equal,
  equal_iff, get_or, ◌≡◌, ap, ◌∙◌, arith, Bool-cases, Option-cases, inl, inr,
}
use interactsh_lite.Smtp.Capture.{
  CaptureSet, is_in, Message, smtp_interaction, match_interactions, capture_in_domain,
  capture_smtp_interaction, capture_recipients, on_smtp_data,
}

-- How often the message's body is in the interactions of an ID.
abbrev has_body : Bytes → Interaction → ℕ
has_body id i = if equal id i.unique_id && not (equal i.raw_request []) then 1 else 0

abbrev pub bodies : Bytes → List Interaction → ℕ
bodies id [] = 0
bodies id (i ∷ is) = has_body id i + bodies id is

bodies-append :
    (id : Bytes) (a b : List Interaction) → bodies id (a ++ b) ≡ bodies id a + bodies id b
bodies-append id [] b = omega arith
bodies-append id (i ∷ a) b = omega (arith, bodies-append id a b)

abbrev counted : Bytes → List Bytes → ℕ
counted id cids = if is_in id cids then 1 else 0

no_body :
    (msg : Message) (rcpt uid full id : Bytes)
    → has_body id (smtp_interaction msg rcpt uid full []) ≡ 0
unfolding equal
no_body msg rcpt uid full id = ground arith

first_body :
    (msg : Message) (rcpt uid full id : Bytes) (cids : List Bytes)
    → is_in uid cids ≡ false
    → counted id cids + has_body id (smtp_interaction msg rcpt uid full msg.body)
      ≤ counted id (uid ∷ cids)
first_body msg rcpt uid full id cids h = elim (Bool-cases (equal id uid)) [
  | inl e ↦
      let out : is_in id cids ≡ false = ap (λ x. is_in x cids) ((equal_iff id uid).0 e) ∙ h in
      ground (arith, e, out)
  | inr e ↦ ground (arith, e)
]

-- An ID that is not counted yet may get the body once, and is counted then.
bodies-match_interactions :
    (msg : Message) (rcpt id : Bytes) (ms : List Match) (cids : List Bytes)
    → let (is, cids') = match_interactions msg rcpt ms cids in
      counted id cids + bodies id is ≤ counted id cids'
unfolding match_interactions equal
bodies-match_interactions msg rcpt id [] cids = omega arith
bodies-match_interactions msg rcpt id (m ∷ ms) cids = elim (Bool-cases (is_in m.unique_id cids)) [
  | inl e ↦
      let rest = bodies-match_interactions msg rcpt id ms cids in
      let none = no_body msg rcpt m.unique_id m.full_id id in rw e (omega (arith, rest, none))
  | inr e ↦
      let rest = bodies-match_interactions msg rcpt id ms (m.unique_id ∷ cids) in
      let first = first_body msg rcpt m.unique_id m.full_id id cids e in
      rw e (omega (arith, rest, first))
]

module _ {H : Type 0} (lib : Library) where
  bodies-capture_in_domain :
      (meets : Meets H) (msg : Message) (rcpt zone domain id : Bytes) (seen : CaptureSet)
      (s : Server H)
      → let (r, (seen', s')) = capture_in_domain lib meets msg rcpt zone domain seen s in
        counted id seen.cids + bodies id r.0 ≤ counted id seen'.cids
  unfolding capture_in_domain
  bodies-capture_in_domain meets msg rcpt zone domain id seen s =
      bodies-match_interactions msg rcpt id _ seen.cids

  bodies-capture_smtp_interaction :
      (meets : Meets H) (msg : Message) (rcpt id : Bytes) (seen : CaptureSet) (s : Server H)
      → let (r, (seen', s')) = capture_smtp_interaction lib meets msg rcpt seen s in
        counted id seen.cids + bodies id r.0 ≤ counted id seen'.cids
  unfolding capture_smtp_interaction
  bodies-capture_smtp_interaction meets msg rcpt id seen s =
      let zone = to_lower lib.unicode (cut b'@' rcpt).1 in
      elim (Bool-cases (cut b'@' rcpt).2) [
        | inr e ↦ rw (capture_smtp_interaction, e) (omega arith)
        | inl e ↦ elim (Option-cases (matched_domain s.cfg.domains zone)) [
          | inl n ↦ rw (capture_smtp_interaction, e, n) (omega arith)
          | inr (domain, n) ↦
              rw (capture_smtp_interaction, e, n)
                (bodies-capture_in_domain meets msg rcpt zone domain id seen s)
        ]
      ]

  bodies-capture_recipients :
      (meets : Bytes → Meets H) (msg : Message) (id : Bytes) (rcpts : List Bytes)
      (seen : CaptureSet) (s : Server H)
      → counted id seen.cids + bodies id (capture_recipients lib meets msg rcpts seen s).0.0 ≤ 1
  unfolding capture_recipients
  bodies-capture_recipients meets msg id [] seen s = ground arith
  bodies-capture_recipients meets msg id (rcpt ∷ rcpts) seen s =
      let marked = record seen { recipients = rcpt ∷ seen.recipients } in
      let r = capture_smtp_interaction lib (meets rcpt) msg rcpt marked s in
      let rest = bodies-capture_recipients meets msg id rcpts r.1.0 r.1.1 in
      let here = bodies-capture_smtp_interaction (meets rcpt) msg rcpt id marked s in
      let others = (capture_recipients lib meets msg rcpts r.1.0 r.1.1).0.0 in
      elim (Bool-cases (is_in rcpt seen.recipients)) [
        | inl e ↦ rw e (bodies-capture_recipients meets msg id rcpts seen s)
        | inr e ↦ rw e (omega (arith, here, rest, bodies-append id r.0.0 others))
      ]

  -- However many recipients of a message name a correlation ID, one of the interactions that are
  -- stored for it at most has the body of the message.
  pub bodies-on_smtp_data :
      (split : Bytes → Option Bytes) (meets : Bytes → Meets H) (from : Bytes)
      (recipients : List Bytes) (body remote_addr id : Bytes) (now : ℕ) (s : Server H)
      → bodies id (on_smtp_data lib split meets from recipients body remote_addr now s).0 ≤ 1
  unfolding on_smtp_data
  bodies-on_smtp_data split meets from recipients body remote_addr id now s =
      let once =
        bodies-capture_recipients meets
          (record {
            from = from;
            body = body;
            remote_ip = get_or remote_addr (split remote_addr);
            now = now;
          })
          id recipients (record { recipients = []; domains = []; cids = [] })
          (record s { smtp_count = s.smtp_count + 1 }) in
      omega (arith, once)
