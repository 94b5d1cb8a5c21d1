-- ===== src/Crypto.antt =====
-- The server's encryption, interactsh-srv/oobsrv/encrypt.go. What Go's crypto packages compute is
-- the record `Ctr`; the random bytes that a call reads are its argument, `none` if the read fails.
use interactsh_lite.Prelude.{
  ℕ, ◌≡◌, ◌||◌, Option, none, some, [], ◌∷◌, ◌++◌, ◌==◌, if◌then◌else◌, Bytes, length,
}
use Prim.Native.Nat.{bit_xor}

-- The key stream of `cipher.NewCTR`: one byte for each byte of text.
pub record Ctr : Type 0 where
  pub keystream : Bytes → Bytes → ℕ → Bytes
  pub length-keystream : (key iv : Bytes) (n : ℕ) → length (keystream key iv n) ≡ n

-- `aes.BlockSize`.
abbrev pub block_size : ℕ
block_size = 16

-- `rand.Read` of 32 bytes.
unfoldable pub generate_aes_key : Option Bytes → Option Bytes
generate_aes_key random = random

-- `aes.NewCipher` accepts keys of 16, 24 and 32 bytes; the block is its key.
unfoldable pub new_cipher : Bytes → Option Bytes
new_cipher key = if length key == 16 || length key == 24 || length key == 32 then some key else none

-- `XORKeyStream`.
unfoldable pub xor_bytes : Bytes → Bytes → Bytes
xor_bytes (k ∷ ks) (c ∷ cs) = bit_xor c k ∷ xor_bytes ks cs
xor_bytes _ _ = []

module _ (ctr : Ctr) where
  -- `EncryptInteractionBlock`: the IV, then the text under the key stream.
  unfoldable pub encrypt_interaction_block : Option Bytes → Bytes → Bytes → Option Bytes
  unfolding xor_bytes
  encrypt_interaction_block random plaintext block = elim random [
    | none ↦ none
    | some iv ↦ some (iv ++ xor_bytes (ctr.keystream block iv (length plaintext)) plaintext)
  ]

  -- `EncryptInteraction`.
  unfoldable pub encrypt_interaction : Option Bytes → Bytes → Bytes → Option Bytes
  unfolding new_cipher encrypt_interaction_block
  encrypt_interaction random plaintext key = elim (new_cipher key) [
    | none ↦ none
    | some block ↦ encrypt_interaction_block random plaintext block
  ]
