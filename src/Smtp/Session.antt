-- ===== src/Smtp/Session.antt =====
-- `smtpSession` and the SASL servers of interactsh-srv/oobsrv/smtp.go. Of `Data` the envelope that
-- it hands on is modelled, with what it leaves of the session.
use interactsh_lite.Smtp.{TeeConn, parse_raw_envelope}
use interactsh_lite.Prelude.Text.{Unicode, codes}
use interactsh_lite.Prelude.{
  Bool, true, false, not, Option, none, some, List, [], ◌∷◌, ◌++◌, ltb, ◌==◌, if◌then◌else◌, Bytes,
  equal, length, ◌≡◌, refl, sym, ap, ◌∙◌,
}
use mathlib.Core.List.{append_assoc, append-nil}
use mathlib.Core.Option

pub record SmtpSession : Type 0 where
  pub remote_addr : Bytes
  pub from : Bytes
  pub recipients : List Bytes
  pub tee : Option TeeConn

unfoldable pub new_session : Bytes → Option TeeConn → SmtpSession
new_session remote_addr tee = record {
  remote_addr = remote_addr;
  from = [];
  recipients = [];
  tee = tee;
}

unfoldable pub mail : Bytes → SmtpSession → SmtpSession
mail from s = record s { from = from }

unfoldable pub rcpt : Bytes → SmtpSession → SmtpSession
rcpt to s = record s { recipients = s.recipients ++ (to ∷ []) }

-- `teeConn.Reset`.
unfoldable pub reset_tee : TeeConn → TeeConn
reset_tee t = record t { buf = []; stopped = false }

unfoldable pub reset : SmtpSession → SmtpSession
unfolding reset_tee
reset s = record s { from = []; recipients = []; tee = Option.map reset_tee s.tee }

-- The sender and the recipients of `Data`: the raw ones where there are any.
unfoldable pub data_envelope : Unicode → SmtpSession → (Bytes × List Bytes) × SmtpSession
unfolding parse_raw_envelope equal
data_envelope u s = elim s.tee [
  | none ↦ ((s.from, s.recipients), s)
  | some t ↦
      let (raw_from, raw_recipients) = parse_raw_envelope u t.buf in
      (
        (
          if not (equal raw_from []) then raw_from else s.from,
          if ltb 0 (length raw_recipients) then raw_recipients else s.recipients,
        ),
        record s { tee = some (record t { stopped = true }) },
      )
]

-- `loginServer.Next`: the challenge, whether it is done, and `gotUsername` afterwards.
unfoldable pub login_next : Bytes → Bool → (Bytes × Bool) × Bool
login_next response got_username =
    if not got_username
    then (if length response == 0
        then ((codes "Username:", false), false)
        else ((codes "Password:", false), true))
    else (([], true), got_username)

-- `cramMD5Server.Next`: `challenge` is the text made of the time.
unfoldable pub cram_md5_next : Bytes → Bool → (Bytes × Bool) × Bool
cram_md5_next challenge challenged =
    if not challenged then ((challenge, false), true) else (([], true), challenged)

abbrev pub rcpts : List Bytes → SmtpSession → SmtpSession
rcpts [] s = s
rcpts (to ∷ tos) s = rcpts tos (rcpt to s)

rcpts-rcpt :
    (tos : List Bytes) (s : SmtpSession)
    → rcpts tos s ≡ record s { recipients = s.recipients ++ tos }
unfolding rcpt
rcpts-rcpt [] s =
    ap (λ (rs : List Bytes). record s { recipients = rs }) (sym (append-nil s.recipients))
rcpts-rcpt (to ∷ tos) s =
    rcpts-rcpt tos (rcpt to s)
    ∙ ap (λ (rs : List Bytes). record s { recipients = rs })
        (append_assoc s.recipients (to ∷ []) tos)

-- Whatever came before a reset, the message after it goes to the sender and the recipients that
-- were given since, in order, on a connection whose raw bytes are not copied.
data_envelope-reset :
    (u : Unicode) (from : Bytes) (tos : List Bytes) (s : SmtpSession)
    → s.tee ≡ none
    → (data_envelope u (rcpts tos (mail from (reset s)))).0 ≡ (from, tos)
unfolding data_envelope mail reset
data_envelope-reset u from tos s e =
    ap (λ (x : SmtpSession). (data_envelope u x).0) (rcpts-rcpt tos (mail from (reset s)))
    ∙ rw e refl
