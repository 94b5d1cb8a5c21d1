-- ===== src/Oobclient/Poll.antt =====
-- `pollInteractions` of oobclient/client.go. The callback is called for each interaction of the
-- result, in order. The response body is what the JSON decoder makes of it.
use interactsh_lite.Crypto.{Ctr}
use interactsh_lite.Endpoints.{PollResponse}
use interactsh_lite.Oobclient.Decrypt.{Opener, decrypt_interaction}
use interactsh_lite.Prelude.Text.{codes, trim_right}
use interactsh_lite.Server.{Interaction}
use interactsh_lite.Prelude.{
  ℕ, Bool, not, ◌||◌, Option, none, some, List, [], ◌∷◌, ◌++◌, ◌==◌, if◌then◌else◌, Bytes, length,
  starts_with,
}

-- The errors of a poll: `session_evicted` is ErrSessionEvicted and `unauthorized` ErrUnauthorized.
pub data PollError : Type 0 where
  request_failed : PollError
  unauthorized : PollError
  session_evicted : PollError
  poll_failed : PollError
  bad_response : PollError

pub data PollResult : Type 0 where
  failed : PollError → PollResult
  handed : List Interaction → PollResult

pub record HttpResponse : Type 0 where
  pub status_code : ℕ
  pub body : Bytes

pub record PollLibrary : Type 0 where
  pub ctr : Ctr
  pub opener : Opener
  pub decode_poll : Bytes → Option PollResponse
  pub unmarshal : Bytes → Option Interaction

-- `bytes.Contains`.
unfoldable pub contains_text : Bytes → Bytes → Bool
unfolding starts_with
contains_text [] text = starts_with [] text
contains_text (c ∷ s) text = starts_with (c ∷ s) text || contains_text s text

abbrev pub poll_space : ℕ → Bool
poll_space c = c == b' ' || c == b'\t' || c == b'\r' || c == b'\n'

module _ (lib : PollLibrary) where
  -- The encrypted data; what fails to decrypt or to decode is passed over.
  unfoldable pub handed_data : Bytes → List Bytes → List Interaction
  unfolding decrypt_interaction trim_right
  handed_data aes_key [] = []
  handed_data aes_key (d ∷ ds) =
      let rest = handed_data aes_key ds in
      elim (decrypt_interaction lib.ctr lib.opener aes_key d) [
        | none ↦ rest
        | some plaintext ↦ elim (lib.unmarshal (trim_right poll_space plaintext)) [
          | none ↦ rest
          | some i ↦ i ∷ rest
        ]
      ]

  unfoldable pub handed_extra : List Bytes → List Interaction
  handed_extra [] = []
  handed_extra (d ∷ ds) =
      let rest = handed_extra ds in elim (lib.unmarshal d) [ none ↦ rest | some i ↦ i ∷ rest ]

  unfoldable pub handed_tlds : List Bytes → List Interaction
  handed_tlds [] = []
  handed_tlds (d ∷ ds) =
      let rest = handed_tlds ds in
      if length d == 0 then rest else elim (lib.unmarshal d) [ none ↦ rest | some i ↦ i ∷ rest ]

  unfoldable pub process_response : PollResponse → List Interaction
  unfolding handed_data handed_extra handed_tlds
  process_response r =
      handed_data r.aes_key r.encoded ++ (handed_extra r.extra ++ handed_tlds r.tld_data)

  -- `none`: no request could be made, or it failed.
  unfoldable pub poll_interactions : Option HttpResponse → PollResult
  unfolding process_response contains_text
  poll_interactions none = failed request_failed
  poll_interactions (some resp) =
      if resp.status_code == 401
      then failed unauthorized
      else if not (resp.status_code == 200)
      then (if contains_text resp.body (codes "could not get correlation-id")
          then failed session_evicted
          else failed poll_failed)
      else elim (lib.decode_poll resp.body) [
        | none ↦ failed bad_response
        | some r ↦ handed (process_response r)
      ]
