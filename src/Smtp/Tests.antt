-- ===== src/Smtp/Tests.antt =====
-- A session and its envelope.
use interactsh_lite.Server.Tests.{library, meets, server}
use interactsh_lite.Smtp.Bodies.{bodies, bodies-on_smtp_data}
use interactsh_lite.Smtp.Capture.{on_smtp_data}
use interactsh_lite.Prelude.Text.{codes}
use interactsh_lite.Prelude.{List, [], ◌∷◌, Bytes, ◌≤◌, none}

abbrev reads : List Bytes
reads = codes "MAIL FROM:" ∷ codes "<a@b>" ∷ []

-- Two recipients with one ID.
abbrev recipients : List Bytes
recipients = codes "a@abcxyz.oob.test" ∷ codes "b@abcxyz.oob.test" ∷ []

bodies-on_smtp_data_example :
    bodies
      (codes "abc")
      (on_smtp_data library
        (λ a. none)
        (λ rcpt. meets)
        []
        recipients
        (codes "hi")
        (codes "10.0.0.2")
        150
        server).0
    ≤ 1
bodies-on_smtp_data_example =
    bodies-on_smtp_data library (λ a. none) (λ rcpt. meets) [] recipients (codes "hi")
      (codes "10.0.0.2") (codes "abc") 150 server
