-- ===== src/Smtp/Capture.antt =====
-- `onSMTPData` and `captureSMTPInteraction` of interactsh-srv/oobsrv/smtp.go. A recipient has its
-- own record of what its capture meets from outside. The interactions of a recipient are made
-- before they are stored: making one does not look at the storage. They are a result too.
use interactsh_lite.Correlation.{Match, match_correlation_id}
use interactsh_lite.Dns.Zone.{matched_domain}
use interactsh_lite.Prelude.Text.{codes, cut, to_lower}
use interactsh_lite.Server.{Interaction, Server, Library, Meets, capture_wildcard}
use interactsh_lite.Storage.{MemoryStorage}
use interactsh_lite.Storage.Access.{append_interaction}
use interactsh_lite.Prelude.{
  ℕ, ◌+◌, Bool, true, false, not, ◌||◌, Option, none, some, List, [], ◌∷◌, ◌++◌, any, if◌then◌else◌,
  Bytes, equal, get_or,
}

-- `smtpCaptureSet`.
pub record CaptureSet : Type 0 where
  pub recipients : List Bytes
  pub domains : List Bytes
  pub cids : List Bytes

abbrev pub is_in : Bytes → List Bytes → Bool
is_in x xs = any (equal x) xs

-- The message, apart from the recipient.
pub record Message : Type 0 where
  pub from : Bytes
  pub body : Bytes
  pub remote_ip : Bytes
  pub now : ℕ

abbrev pub smtp_interaction : Message → Bytes → Bytes → Bytes → Bytes → Interaction
smtp_interaction msg rcpt unique_id full_id raw_request = record {
  protocol = codes "smtp";
  unique_id = unique_id;
  full_id = full_id;
  q_type = [];
  raw_request = raw_request;
  raw_response = [];
  smtp_from = msg.from;
  smtp_to = rcpt;
  remote_address = msg.remote_ip;
  timestamp = msg.now;
}

-- The loop over the matches, up to the storage: the body goes to the first of an ID.
unfoldable pub match_interactions :
    Message → Bytes → List Match → List Bytes → List Interaction × List Bytes
unfolding equal
match_interactions msg rcpt [] cids = ([], cids)
match_interactions msg rcpt (m ∷ ms) cids =
    let seen = is_in m.unique_id cids in
    let (is, cids') = match_interactions msg rcpt ms (if seen then cids else m.unique_id ∷ cids) in
    (smtp_interaction msg rcpt m.unique_id m.full_id (if seen then [] else msg.body) ∷ is, cids')

module _ {H : Type 0} (lib : Library) where
  -- `AppendInteraction` of the memory storage returns no error.
  unfoldable pub store_interactions :
      Meets H → List Interaction → MemoryStorage H → Bool × MemoryStorage H
  unfolding append_interaction
  store_interactions meets [] m = (false, m)
  store_interactions meets (i ∷ is) m = elim (lib.marshal i) [
    | none ↦ store_interactions meets is m
    | some encoded ↦ (
      true,
      (store_interactions meets is (
          append_interaction lib.ctr i.unique_id encoded (meets.iv i.unique_id)
            (meets.clock i.unique_id) m)).1,
    )
  ]

  -- The bucket of a domain, once for a message.
  unfoldable pub smtp_wildcard : Message → Bytes → Bytes → Bytes → List Bytes → Server H → Server H
  unfolding capture_wildcard equal
  smtp_wildcard msg rcpt recipient_domain domain domains s =
      if is_in domain domains
      then s
      else capture_wildcard lib domain
          (smtp_interaction msg rcpt recipient_domain recipient_domain msg.body) s

  -- For a recipient in a domain.
  unfoldable pub capture_in_domain :
      Meets H
      → Message
      → Bytes
      → Bytes
      → Bytes
      → CaptureSet
      → Server H
      → (List Interaction × Bool) × (CaptureSet × Server H)
  unfolding smtp_wildcard match_correlation_id match_interactions store_interactions equal
  capture_in_domain meets msg rcpt recipient_domain domain seen s =
      let s' = smtp_wildcard msg rcpt recipient_domain domain seen.domains s in
      let domains' = if is_in domain seen.domains then seen.domains else domain ∷ seen.domains in
      let matches =
        match_correlation_id lib.unicode recipient_domain s'.cfg.correlation_id_length
          s'.cfg.domains meets.has_correlation_id in
      let (is, cids') = match_interactions msg rcpt matches seen.cids in
      let (stored, m) = store_interactions meets is (meets.others s'.storage) in
      ((is, stored), (record seen { domains = domains'; cids = cids' }, record s' { storage = m }))

  unfoldable pub capture_smtp_interaction :
      Meets H
      → Message
      → Bytes
      → CaptureSet
      → Server H
      → (List Interaction × Bool) × (CaptureSet × Server H)
  unfolding cut to_lower matched_domain capture_in_domain
  capture_smtp_interaction meets msg rcpt seen s =
      let (_, after, ok) = cut b'@' rcpt in
      let recipient_domain = to_lower lib.unicode after in
      if not ok
      then (([], false), (seen, s))
      else elim (matched_domain s.cfg.domains recipient_domain) [
        | none ↦ (([], false), (seen, s))
        | some domain ↦ capture_in_domain meets msg rcpt recipient_domain domain seen s
      ]

  -- The loop over the recipients: what is handed to the storage, whether any was stored.
  unfoldable pub capture_recipients :
      (Bytes → Meets H)
      → Message
      → List Bytes
      → CaptureSet
      → Server H
      → (List Interaction × Bool) × Server H
  unfolding capture_smtp_interaction equal
  capture_recipients meets msg [] seen s = (([], false), s)
  capture_recipients meets msg (rcpt ∷ rcpts) seen s =
      let marked = record seen { recipients = rcpt ∷ seen.recipients } in
      let (here, (seen', s')) = capture_smtp_interaction (meets rcpt) msg rcpt marked s in
      let (rest, s'') = capture_recipients meets msg rcpts seen' s' in
      let skipped = capture_recipients meets msg rcpts seen s in
      if is_in rcpt seen.recipients then skipped else ((here.0 ++ rest.0, here.1 || rest.1), s'')

  -- `split` is `net.SplitHostPort`.
  unfoldable pub on_smtp_data :
      (split : Bytes → Option Bytes)
      → (Bytes → Meets H)
      → Bytes
      → List Bytes
      → Bytes
      → Bytes
      → ℕ
      → Server H
      → List Interaction × Server H
  unfolding capture_recipients
  on_smtp_data split meets from recipients body remote_addr now s =
      let msg : Message = record {
        from = from;
        body = body;
        remote_ip = get_or remote_addr (split remote_addr);
        now = now;
      } in
      let none_seen : CaptureSet = record { recipients = []; domains = []; cids = [] } in
      let ((is, matched), s') =
        capture_recipients meets msg recipients none_seen
          (record s { smtp_count = s.smtp_count + 1 }) in
      (is, if matched then record s' { smtp_matched = s'.smtp_matched + 1 } else s')
