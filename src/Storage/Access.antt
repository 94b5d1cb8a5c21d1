-- ===== src/Storage/Access.antt =====
-- The other methods of `memoryStorage` in storage.go, and those of its session handle. `getSession`
-- and `HasCorrelationID` give up the lock on the way: `others` is what other goroutines do to the
-- storage until they have it again, and the clock is read again then.
use interactsh_lite.Crypto.{Ctr, encrypt_interaction_block}
use interactsh_lite.Oobclient.Response.{ResponseConfig}
use interactsh_lite.Storage.{
  MemoryStorage, Hooks, Result, ok, err, no_correlation_id, invalid_secret, hit, miss, evicted,
  update, promote_lru, remove_locked, touch_if_sliding, is_expired,
}
use interactsh_lite.Prelude.{
  ℕ, Bool, true, false, not, Option, none, some, List, [], ◌∷◌, ◌++◌, if◌then◌else◌, Bytes, equal,
  length, lookup,
}

module _ {H : Type 0} where
  -- Behind the validation: `promoteLRU` under the lock, the hit and the touch.
  unfoldable pub accept_session : Bytes → ℕ → ℕ → MemoryStorage H → Result ℕ × MemoryStorage H
  unfolding touch_if_sliding
  accept_session id p now m = (ok p, promote_lru id (touch_if_sliding p now (hit m)))

  -- The handle's `GetAndClearInteractions`.
  unfoldable pub get_and_clear_interactions : ℕ → MemoryStorage H → List Bytes × MemoryStorage H
  get_and_clear_interactions p m = (
    (m.heap p).interactions,
    record m { heap = update m.heap p (λ s. record s { interactions = [] }) },
  )

  unfoldable pub get_response : Bytes → ℕ → MemoryStorage H → Option ResponseConfig
  unfolding is_expired
  get_response id now m = elim (lookup id m.sessions) [
    | none ↦ none
    | some p ↦ if is_expired m (m.heap p) now then none else (m.heap p).response
  ]

  unfoldable pub session_count : MemoryStorage H → ℕ
  session_count m = length m.sessions

module _ {H : Type 0} (hooks : Hooks H) where
  -- The double check under the write lock.
  unfoldable pub recheck_session : Bytes → Bytes → ℕ → MemoryStorage H → Result ℕ × MemoryStorage H
  unfolding is_expired remove_locked accept_session
  recheck_session id secret now m = elim (lookup id m.sessions) [
    | none ↦ (err no_correlation_id, miss m)
    | some p ↦
        if is_expired m (m.heap p) now
        then (err no_correlation_id, miss (evicted (remove_locked hooks id m)))
        else if not (equal (m.heap p).secret_key secret)
        then (err invalid_secret, m)
        else accept_session id p now m
  ]

  unfoldable pub get_session :
      (others : MemoryStorage H → MemoryStorage H)
      → Bytes
      → Bytes
      → ℕ
      → ℕ
      → MemoryStorage H
      → Result ℕ × MemoryStorage H
  unfolding is_expired recheck_session accept_session
  get_session others id secret now now' m = elim (lookup id m.sessions) [
    | none ↦ (err no_correlation_id, miss m)
    | some p ↦
        if is_expired m (m.heap p) now
        then recheck_session id secret now' (others m)
        else if not (equal (m.heap p).secret_key secret)
        then (err invalid_secret, m)
        else accept_session id p now' (others m)
  ]

  unfoldable pub delete_session :
      Bytes → Bytes → MemoryStorage H → Result (Unit {0}) × MemoryStorage H
  unfolding remove_locked
  delete_session id secret m = elim (lookup id m.sessions) [
    | none ↦ (err no_correlation_id, miss m)
    | some p ↦
        if not (equal (m.heap p).secret_key secret)
        then (err invalid_secret, hit m)
        else (ok tt, remove_locked hooks id (hit m))
  ]

  unfoldable pub has_correlation_id :
      (others : MemoryStorage H → MemoryStorage H)
      → Bytes
      → ℕ
      → ℕ
      → MemoryStorage H
      → Bool × MemoryStorage H
  unfolding is_expired remove_locked
  has_correlation_id others id now now' m = elim (lookup id m.sessions) [
    | none ↦ (false, m)
    | some p ↦
        if not (is_expired m (m.heap p) now)
        then (true, m)
        else let m' = others m in
          elim (lookup id m'.sessions) [
            | none ↦ (false, m')
            | some q ↦
                if is_expired m' (m'.heap q) now'
                then (false, evicted (remove_locked hooks id m'))
                else (true, m')
          ]
  ]

module _ {H : Type 0} (ctr : Ctr) where
  -- `random` is the IV that the encryption reads. A failure is logged, and the error is nil.
  unfoldable pub append_interaction :
      Bytes → Bytes → Option Bytes → ℕ → MemoryStorage H → MemoryStorage H
  unfolding touch_if_sliding
  append_interaction id interaction random now m = elim (lookup id m.sessions) [
    | none ↦ miss m
    | some p ↦
        let touched = touch_if_sliding p now (hit m) in
        elim (encrypt_interaction_block ctr random interaction (m.heap p).aes_block) [
          | none ↦ touched
          | some encrypted ↦ record touched {
            heap =
                update touched.heap p
                  (λ s. record s { interactions = s.interactions ++ (encrypted ∷ []) });
          }
        ]
  ]
