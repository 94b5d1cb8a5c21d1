-- ===== src/Oobclient/Delivery.antt =====
-- What the server hands out in a poll is what the client hands to its callback.
use interactsh_lite.Crypto.{block_size, new_cipher, encrypt_interaction_block}
use interactsh_lite.Endpoints.Calls.{key_for, handle_poll_ok}
use interactsh_lite.Endpoints.{Reply, polled, KeyLibrary, Others, handle_poll}
use interactsh_lite.Oobclient.Decrypt.{
  open_key, decrypt_interaction, decrypt_bytes-encrypt_interaction_block,
}
use interactsh_lite.Oobclient.Poll.{
  PollLibrary, poll_space, handed_data, handed_extra, handed_tlds, process_response,
}
use interactsh_lite.Prelude.Text.{trim_right, trim_left}
use interactsh_lite.Server.{Interaction, Server, Library}
use interactsh_lite.Storage.Access.{get_session}
use interactsh_lite.Storage.{MemoryStorage, Hooks, ok}
use interactsh_lite.Prelude.{
  ℕ, false, some, List, [], ◌∷◌, ◌++◌, map, ltb, Bytes, length, take, ◌≡◌, refl, sym, subst, ap,
  ◌∙◌,
}
use mathlib.Core.List.{reverse, reverse-append, reverse-cons, reverse-reverse}

-- What server and client rely on in the libraries for every text: one key stream, and base64.
pub record Agrees (lib : Library) (keys : KeyLibrary) (client : PollLibrary) : Type 0 where
  pub same_stream : client.ctr ≡ lib.ctr
  pub decodes : (s : Bytes) → client.opener.decode_base64 (keys.base64 s) ≡ some s

-- The JSON of the interaction is read back as it was, which it is not if a string in it is not
-- UTF-8, and ends with a brace.
abbrev pub IsReadBack : Library → PollLibrary → Interaction → Bytes → Type 0
IsReadBack lib client i e =
    (lib.marshal i ≡ some e)
    × (client.unmarshal e ≡ some i)
    × ((front : Bytes) × (e ≡ front ++ (b'}' ∷ [])))

-- The blob is the interaction, marshalled and encrypted for a session.
abbrev pub IsStored : Library → PollLibrary → Bytes → Interaction → Bytes → Type 0
IsStored lib client block i blob =
    (iv : Bytes) × (e : Bytes) × (length iv ≡ block_size)
    × IsReadBack lib client i e
    × (encrypt_interaction_block lib.ctr (some iv) e block ≡ some blob)

-- The session holds these interactions, in this order.
abbrev pub AllStored : Library → PollLibrary → Bytes → List Interaction → List Bytes → Type 0
AllStored lib client block [] [] = Unit
AllStored lib client block (i ∷ is) (b ∷ bs) =
    IsStored lib client block i b × AllStored lib client block is bs
AllStored lib client block _ _ = ⊥

-- The client hands the callback these interactions, and then those of the shared data of the poll
-- response.
abbrev pub IsHanded : PollLibrary → List Interaction → Reply → Type 0
IsHanded client is (polled r) =
    process_response client r ≡ is ++ (handed_extra client r.extra ++ handed_tlds client r.tld_data)
IsHanded client is _ = ⊥

trim_right-brace :
    (front : Bytes) → trim_right poll_space (front ++ (b'}' ∷ [])) ≡ front ++ (b'}' ∷ [])
unfolding trim_right
trim_right-brace front =
    let back = reverse front in
    ap (λ s. reverse (trim_left poll_space s)) (reverse-append front (b'}' ∷ []))
    ∙ reverse-cons b'}' back
    ∙ ap (λ s. s ++ (b'}' ∷ [])) (reverse-reverse front)

module _ (lib : Library) (keys : KeyLibrary) (client : PollLibrary)
    (agrees : Agrees lib keys client) where
  decrypt_stored :
      (key block aes_key blob e : Bytes) (iv : Bytes)
      → open_key client.opener aes_key ≡ some key
      → new_cipher key ≡ some block
      → length iv ≡ block_size
      → encrypt_interaction_block lib.ctr (some iv) e block ≡ some blob
      → decrypt_interaction client.ctr client.opener aes_key (keys.base64 blob) ≡ some e
  unfolding decrypt_interaction
  decrypt_stored key block aes_key blob e iv k b l x =
      rw (decrypt_interaction, k, agrees.decodes blob, agrees.same_stream)
        (decrypt_bytes-encrypt_interaction_block lib.ctr iv key block e blob l b x)

  handed_data-base64 :
      (key block aes_key : Bytes) (is : List Interaction) (blobs : List Bytes)
      → open_key client.opener aes_key ≡ some key
      → new_cipher key ≡ some block
      → AllStored lib client block is blobs
      → handed_data client aes_key (map keys.base64 blobs) ≡ is
  unfolding handed_data
  handed_data-base64 key block aes_key [] [] k b s = refl
  handed_data-base64 key block aes_key (i ∷ is) [] k b s = absurd s
  handed_data-base64 key block aes_key [] (c ∷ cs) k b s = absurd s
  handed_data-base64 key block aes_key (i ∷ is) (c ∷ cs) k b ((iv, e, l, read, x), ss) =
      let (front, brace) = read.2 in
      let trimmed : trim_right poll_space e ≡ e =
        subst (λ t. trim_right poll_space t ≡ t) (sym brace) (trim_right-brace front) in
      rw (handed_data, decrypt_stored key block aes_key c e iv k b l x, trimmed, read.1)
        (ap (◌∷◌ i) (handed_data-base64 key block aes_key is cs k b ss))

  handed_data-key_for :
      (key block aes_key : Bytes) (is : List Interaction) (blobs : List Bytes)
      → open_key client.opener aes_key ≡ some key
      → new_cipher key ≡ some block
      → AllStored lib client block is blobs
      → handed_data client (key_for blobs aes_key) (map keys.base64 blobs) ≡ is
  unfolding handed_data
  handed_data-key_for key block aes_key [] [] k b s = refl
  handed_data-key_for key block aes_key (i ∷ is) [] k b s = absurd s
  handed_data-key_for key block aes_key is (c ∷ cs) k b s =
      handed_data-base64 key block aes_key is (c ∷ cs) k b s

  -- If a session holds the encrypted forms of interactions whose JSON is read back as it was, the
  -- session's AES key gives its block cipher, and the client's private key opens the AES key that
  -- the server encrypted, then the callback gets from a poll with the session's credentials these
  -- interactions, in order, then what the response has from the shared buckets, and nothing else.
  pub handle_poll-IsHanded :
      {H : Type 0} (hooks : Hooks H) (others : Others H) (id secret aes_key : Bytes)
      (p now now' : ℕ) (s : Server H) (m : MemoryStorage H) (is : List Interaction)
      → ltb (length id) s.cfg.correlation_id_length ≡ false
      → get_session hooks others.during
          (take s.cfg.correlation_id_length id)
          secret
          now
          now'
          s.storage
        ≡ (ok p, m)
      → let session = (others.between m).heap p in
        new_cipher session.aes_key ≡ some session.aes_block
        → keys.encrypt_aes_key session.aes_key session.public_key ≡ some aes_key
        → open_key client.opener aes_key ≡ some session.aes_key
        → AllStored lib client session.aes_block is session.interactions
        → IsHanded client is (handle_poll hooks keys others id secret now now' s).0
  unfolding process_response
  handle_poll-IsHanded hooks others id secret aes_key p now now' s m is l g b sealed k st =
      let session = (others.between m).heap p in
      let (handed, _) =
        handle_poll_ok hooks keys others id secret aes_key p now now' s m l g sealed in
      let (r, answers, blobs, key) = handed in
      let own : handed_data client r.aes_key r.encoded ≡ is =
        ap (λ x. handed_data client x r.encoded) key
        ∙ ap (handed_data client (key_for session.interactions aes_key)) blobs
        ∙ handed_data-key_for session.aes_key session.aes_block aes_key is session.interactions k b
            st in
      subst (IsHanded client is) (sym answers)
        (ap (λ own. own ++ (handed_extra client r.extra ++ handed_tlds client r.tld_data)) own)
