-- ===== src/Storage/Sessions.antt =====
-- Registration, credentials, deletion and expiry.
use interactsh_lite.Crypto.{generate_aes_key, new_cipher}
use interactsh_lite.Storage.Consistent.{lookup-unlink, lookup-promote, lookup-link}
use interactsh_lite.Storage.Evict.{evict_lru}
use interactsh_lite.Storage.Register.{
  Registration, make_room, register_new, add_session, keep_alive, register_internal, register,
}
use interactsh_lite.Storage.Access.{
  get_session, accept_session, recheck_session, delete_session, has_correlation_id, get_response,
}
use interactsh_lite.Storage.{
  MemoryStorage, Hooks, ok, err, already_exists, no_correlation_id, invalid_secret, hit, miss,
  is_expired, remove_locked, touch_if_sliding,
}
use interactsh_lite.Prelude.{
  ℕ, ◌+◌, ◌≤◌, ◌≡◌, ◌≢◌, true, false, ◌&&◌, none, some, [], Bytes, equal, equal_iff, equal_refl,
  length, lookup, arith, if◌then◌else◌, ◌⊎◌,
}

-- The ID names session `p` in storage `s`, the session has this secret, and it is live at `t`.
pub record Grants {H : Type 0} (s : MemoryStorage H) (id secret : Bytes) (t p : ℕ) : Type 0 where
  pub registered : lookup id s.sessions ≡ some p
  pub secret_matches : (s.heap p).secret_key ≡ secret
  pub live : is_expired s (s.heap p) t ≡ false

module _ {H : Type 0} (hooks : Hooks H) where
  recheck_session_ok :
      (id secret : Bytes) (now p : ℕ) (m : MemoryStorage H)
      → (recheck_session hooks id secret now m).0 ≡ ok p
      → Grants m id secret now p
  unfolding recheck_session accept_session
  recheck_session_ok id secret now p m h = ground (arith, equal_iff (m.heap p).secret_key secret)

  -- Whatever other goroutines do while `getSession` is without the lock, a session that it returns
  -- was registered under the ID with the given secret and was live, at the first reading
  -- or at the second, after they ran.
  pub get_session_ok :
      (others : MemoryStorage H → MemoryStorage H) (id secret : Bytes) (now now' p : ℕ)
      (m : MemoryStorage H)
      → (get_session hooks others id secret now now' m).0 ≡ ok p
      → Grants m id secret now p ⊎ Grants (others m) id secret now' p
  unfolding get_session accept_session
  get_session_ok others id secret now now' p m h = ground (
    arith,
    recheck_session_ok id secret now' p (others m),
    equal_iff (m.heap p).secret_key secret,
  )

  -- A live session is returned to whoever has its secret, whatever others do meanwhile; it is the
  -- wrong secret that gives the error about the secret.
  get_session_live :
      (others : MemoryStorage H → MemoryStorage H) (id secret : Bytes) (now now' p : ℕ)
      (m : MemoryStorage H)
      → lookup id m.sessions ≡ some p
      → is_expired m (m.heap p) now ≡ false
      → (get_session hooks others id secret now now' m).0
        ≡ (if equal (m.heap p).secret_key secret then ok p else err invalid_secret)
  unfolding get_session accept_session
  get_session_live others id secret now now' p m e x = ground arith

  -- A registration of a live session's ID with its secret keeps the session: the answer is its AES
  -- key, every ID keeps its session, and every session its secret, key, interactions and response.
  register_keep_alive :
      (r : Registration) (now p : ℕ) (m : MemoryStorage H)
      → lookup r.correlation_id m.sessions ≡ some p
      → is_expired m (m.heap p) now ≡ false
      → (m.heap p).secret_key ≡ r.secret_key
      → let m' = (register hooks r now m).1 in
        ((register hooks r now m).0 ≡ ok (m.heap p).aes_key)
        × ((j : Bytes) → lookup j m'.sessions ≡ lookup j m.sessions)
        × ((q : ℕ) → (m'.heap q).secret_key ≡ (m.heap q).secret_key)
        × ((q : ℕ) → (m'.heap q).aes_key ≡ (m.heap q).aes_key)
        × ((q : ℕ) → (m'.heap q).interactions ≡ (m.heap q).interactions)
        × ((q : ℕ) → (m'.heap q).response ≡ (m.heap q).response)
  unfolding register register_internal keep_alive touch_if_sliding
  register_keep_alive r now p m e x s =
      let t = (equal_iff (m.heap p).secret_key r.secret_key).1 s in
      (
        ground (arith, e, x, t),
        (λ j. ground (arith, e, x, t, lookup-promote r.correlation_id j m.index)),
        (λ q. ground (arith, e, x, t)),
        (λ q. ground (arith, e, x, t)),
        (λ q. ground (arith, e, x, t)),
        (λ q. ground (arith, e, x, t)),
      )

  -- With another secret the registration of a live session's ID is refused, and nothing but the hit
  -- counter changes.
  register_mismatch :
      (r : Registration) (now p : ℕ) (m : MemoryStorage H)
      → lookup r.correlation_id m.sessions ≡ some p
      → is_expired m (m.heap p) now ≡ false
      → (m.heap p).secret_key ≢ r.secret_key
      → register hooks r now m ≡ (err already_exists, hit m)
  unfolding register register_internal keep_alive
  register_mismatch r now p m e x s =
      ground (arith, e, x, s, equal_iff (m.heap p).secret_key r.secret_key)

  -- `Delete` of a registered ID succeeds exactly with the session's secret, and takes away that ID
  -- then and no other; without the secret every ID keeps its session.
  delete_session_lem :
      (id secret : Bytes) (p : ℕ) (m : MemoryStorage H)
      → lookup id m.sessions ≡ some p
      → let granted = equal (m.heap p).secret_key secret in
        ((delete_session hooks id secret m).0 ≡ (if granted then ok tt else err invalid_secret))
        × ((j : Bytes)
            → lookup j (delete_session hooks id secret m).1.sessions
              ≡ (if granted && equal id j then none else lookup j m.sessions))
  unfolding delete_session remove_locked
  delete_session_lem id secret p m e =
      (ground (arith, e), (λ j. ground (arith, e, lookup-unlink id j m.index)))

  -- For an ID with an expired session, at one reading of the clock and with no other goroutine
  -- between, `getSession` fails for want of the ID whatever the secret, and `HasCorrelationID` says
  -- no; both take the ID away. `GetResponse` gives no response.
  pub expired_session :
      (id secret : Bytes) (now p : ℕ) (m : MemoryStorage H)
      → lookup id m.sessions ≡ some p
      → is_expired m (m.heap p) now ≡ true
      → ((get_session hooks (λ s. s) id secret now now m).0 ≡ err no_correlation_id)
        × (lookup id (get_session hooks (λ s. s) id secret now now m).1.sessions ≡ none)
        × ((has_correlation_id hooks (λ s. s) id now now m).0 ≡ false)
        × (lookup id (has_correlation_id hooks (λ s. s) id now now m).1.sessions ≡ none)
        × (get_response id now m ≡ none)
  unfolding get_session recheck_session has_correlation_id get_response remove_locked
  expired_session id secret now p m e x = ground (arith, lookup-unlink id id m.index, equal_refl id)

  -- With a sliding TTL a validated session lives on for the TTL from the access.
  accept_session_sliding :
      (id : Bytes) (p now t : ℕ) (m : MemoryStorage H)
      → m.sliding_ttl ≡ true
      → t ≤ now + m.ttl
      → let m' = (accept_session id p now m).1 in is_expired m' (m'.heap p) t ≡ false
  unfolding accept_session touch_if_sliding is_expired
  accept_session_sliding id p now t m s h = ground arith

  -- With a fixed TTL an access changes no session's expiry.
  accept_session_fixed :
      (id : Bytes) (p now t q : ℕ) (m : MemoryStorage H)
      → m.sliding_ttl ≡ false
      → let m' = (accept_session id p now m).1 in
        is_expired m' (m'.heap q) t ≡ is_expired m (m.heap q) t
  unfolding accept_session touch_if_sliding is_expired
  accept_session_fixed id p now t q m s = ground arith

  -- What an eviction leaves alone.
  evict_lru_settings :
      (m : MemoryStorage H)
      → ((evict_lru hooks m).ttl ≡ m.ttl)
        × ((evict_lru hooks m).next_session ≡ m.next_session)
        × ((evict_lru hooks m).no_eviction ≡ m.no_eviction)
        × ((evict_lru hooks m).sliding_ttl ≡ m.sliding_ttl)
  unfolding evict_lru remove_locked
  evict_lru_settings m = ground arith

  -- A new ID with a fresh 32-byte key is stored: the answer is the key, the session is granted to
  -- its secret for the TTL from now, and it holds no interactions.
  register_fresh :
      (r : Registration) (key : Bytes) (now t : ℕ) (m : MemoryStorage H)
      → lookup r.correlation_id m.sessions ≡ none
      → r.random ≡ some key
      → length key ≡ 32
      → t ≤ now + m.ttl
      → let m' = (register hooks r now m).1 in
        ((register hooks r now m).0 ≡ ok key)
        × Grants m' r.correlation_id r.secret_key t m.next_session
        × ((m'.heap m.next_session).interactions ≡ [])
        × ((m'.heap m.next_session).response ≡ r.response)
        × ((m'.heap m.next_session).aes_block ≡ key)
  unfolding register register_internal register_new add_session is_expired generate_aes_key
      new_cipher
  register_fresh r key now t m e k n h = ground (
    arith,
    e,
    k,
    n,
    evict_lru_settings (miss m),
    lookup-link r.correlation_id r.correlation_id m.next_session (make_room hooks (miss m)).index,
    equal_refl r.correlation_id,
  )
