-- ===== src/Oobclient/Decrypt.antt =====
-- `decryptInteraction` of oobclient/client.go, and that it undoes the server's encryption. The key
-- stream is that of Crypto.
use interactsh_lite.Crypto.{Ctr, block_size, new_cipher, xor_bytes, encrypt_interaction_block}
use interactsh_lite.Prelude.Bits.{bit_xor_twice}
use interactsh_lite.Prelude.{
  ℕ, Bool, false, Option, none, some, [], ◌∷◌, ◌++◌, ltb, if◌then◌else◌, Bytes, length, take, drop,
  length-append, take-length-append, drop-length-append, ◌≡◌, refl, sym, subst, ap, ◌∙◌, arith,
}

-- `base64.StdEncoding.DecodeString`, and `rsa.DecryptOAEP` with the client's private key.
pub record Opener : Type 0 where
  pub decode_base64 : Bytes → Option Bytes
  pub decrypt_oaep : Bytes → Option Bytes

-- The AES key in a poll response.
abbrev pub open_key : Opener → Bytes → Option Bytes
open_key o aes_key = elim (o.decode_base64 aes_key) [ none ↦ none | some c ↦ o.decrypt_oaep c ]

module _ (ctr : Ctr) where
  -- The text under the key stream.
  unfoldable pub decrypt_text : Bytes → Bytes → Bytes → Option Bytes
  unfolding new_cipher xor_bytes
  decrypt_text aes_key iv text = elim (new_cipher aes_key) [
    | none ↦ none
    | some block ↦ some (xor_bytes (ctr.keystream block iv (length text)) text)
  ]

  -- From the ciphertext on: the IV is cut off.
  unfoldable pub decrypt_bytes : Bytes → Bytes → Option Bytes
  unfolding decrypt_text
  decrypt_bytes aes_key ciphertext =
      if ltb (length ciphertext) block_size
      then none
      else decrypt_text aes_key (take block_size ciphertext) (drop block_size ciphertext)

  unfoldable pub decrypt_interaction : Opener → Bytes → Bytes → Option Bytes
  unfolding decrypt_bytes
  decrypt_interaction o aes_key ciphertext = elim (open_key o aes_key) [
    | none ↦ none
    | some key ↦ elim (o.decode_base64 ciphertext) [ none ↦ none | some c ↦ decrypt_bytes key c ]
  ]

length-xor_bytes : (ks cs : Bytes) → length ks ≡ length cs → length (xor_bytes ks cs) ≡ length cs
unfolding xor_bytes
length-xor_bytes [] [] e = refl
length-xor_bytes [] (c ∷ cs) e = absurd (omega (arith, e))
length-xor_bytes (k ∷ ks) [] e = refl
length-xor_bytes (k ∷ ks) (c ∷ cs) e = omega (arith, length-xor_bytes ks cs (omega (arith, e)))

xor_bytes_twice : (ks cs : Bytes) → length ks ≡ length cs → xor_bytes ks (xor_bytes ks cs) ≡ cs
unfolding xor_bytes
xor_bytes_twice [] [] e = refl
xor_bytes_twice [] (c ∷ cs) e = absurd (omega (arith, e))
xor_bytes_twice (k ∷ ks) [] e = refl
xor_bytes_twice (k ∷ ks) (c ∷ cs) e =
    ap (λ x. x ∷ xor_bytes ks (xor_bytes ks cs)) (bit_xor_twice c k)
    ∙ ap (◌∷◌ c) (xor_bytes_twice ks cs (omega (arith, e)))

decrypt_text-xor_bytes :
    (ctr : Ctr) (iv key block text : Bytes)
    → new_cipher key ≡ some block
    → decrypt_text ctr key iv (xor_bytes (ctr.keystream block iv (length text)) text) ≡ some text
unfolding decrypt_text
decrypt_text-xor_bytes ctr iv key block text k =
    let ks = ctr.keystream block iv (length text) in
    let same = length-xor_bytes ks text (ctr.length-keystream block iv (length text)) in
    rw (decrypt_text, k)
      (ap (λ n. some (xor_bytes (ctr.keystream block iv n) (xor_bytes ks text))) same
        ∙ ap some (xor_bytes_twice ks text (ctr.length-keystream block iv (length text))))

decrypt_bytes-append :
    (ctr : Ctr) (iv key text : Bytes)
    → length iv ≡ block_size
    → decrypt_bytes ctr key (iv ++ text) ≡ decrypt_text ctr key iv text
unfolding decrypt_bytes
decrypt_bytes-append ctr iv key text l =
    let c = iv ++ text in
    let long : ltb (length c) block_size ≡ false = ground (arith, l, length-append iv text) in
    ap
      (λ (b : Bool).
        if b then none else decrypt_text ctr key (take block_size c) (drop block_size c))
      long
    ∙ ap (λ (n : ℕ). decrypt_text ctr key (take n c) (drop n c)) (sym l)
    ∙ ap (λ (i : Bytes). decrypt_text ctr key i (drop (length iv) c)) (take-length-append iv text)
    ∙ ap (decrypt_text ctr key iv) (drop-length-append iv text)

-- The client reads what the server encrypted under a session's key, whatever the IV.
pub decrypt_bytes-encrypt_interaction_block :
    (ctr : Ctr) (iv key block text c : Bytes)
    → length iv ≡ block_size
    → new_cipher key ≡ some block
    → encrypt_interaction_block ctr (some iv) text block ≡ some c
    → decrypt_bytes ctr key c ≡ some text
unfolding encrypt_interaction_block
decrypt_bytes-encrypt_interaction_block ctr iv key block text c l k e =
    let x = xor_bytes (ctr.keystream block iv (length text)) text in
    let same : iv ++ x ≡ c = ground (arith, e) in
    subst (λ s. decrypt_bytes ctr key s ≡ some text) same
      (decrypt_bytes-append ctr iv key x l ∙ decrypt_text-xor_bytes ctr iv key block text k)
