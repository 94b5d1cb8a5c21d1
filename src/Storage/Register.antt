-- ===== src/Storage/Register.antt =====
-- `registerInternal` and `Register` of storage.go.
use interactsh_lite.Crypto.{generate_aes_key, new_cipher}
use interactsh_lite.Oobclient.Response.{ResponseConfig}
use interactsh_lite.Storage.Tables.{link}
use interactsh_lite.Storage.Evict.{evict_lru}
use interactsh_lite.Storage.{
  Session, MemoryStorage, Hooks, Result, ok, err, already_exists, key_failed, cipher_failed,
  max_cache_capacity, hit, miss, evicted, update, promote_lru, remove_locked, touch_if_sliding,
  is_expired,
}
use interactsh_lite.Prelude.{
  ℕ, suc, ◌+◌, Bool, true, false, not, Option, none, some, [], leb, if◌then◌else◌, Bytes, equal,
  length, lookup,
}

-- The arguments of `Register`, with the random bytes that `GenerateAESKey` reads.
pub record Registration : Type 0 where
  pub correlation_id : Bytes
  pub public_key : Bytes
  pub secret_key : Bytes
  pub response : Option ResponseConfig
  pub random : Option Bytes

abbrev new_session : Registration → Bytes → Bytes → ℕ → Session
new_session r key block now = record {
  public_key = r.public_key;
  aes_key = key;
  aes_block = block;
  secret_key = r.secret_key;
  response = r.response;
  interactions = [];
  last_access = now;
  created_at = now;
}

abbrev pub key_of : Result (Bytes × Bool) → Result Bytes
key_of (ok (key, _)) = ok key
key_of (err e) = err e

module _ {H : Type 0} where
  -- A live session has the ID: keep-alive if the secret matches.
  unfoldable pub keep_alive :
      Registration → ℕ → ℕ → MemoryStorage H → Result (Bytes × Bool) × MemoryStorage H
  unfolding touch_if_sliding
  keep_alive r p now m =
      if not (equal (m.heap p).secret_key r.secret_key) then (err already_exists, hit m) else (
        ok ((m.heap p).aes_key, false),
        promote_lru r.correlation_id (touch_if_sliding p now (hit m)),
      )

module _ {H : Type 0} (hooks : Hooks H) where
  -- The insertion at the end of `registerInternal`; the result says that the session is new.
  unfoldable pub add_session :
      Registration → Bytes → Bytes → ℕ → MemoryStorage H → Result (Bytes × Bool) × MemoryStorage H
  add_session r key block now m = (
    ok (key, true),
    record m {
      index = link r.correlation_id m.next_session m.index;
      heap = update m.heap m.next_session (λ _. new_session r key block now);
      next_session = suc m.next_session;
      sessions_total = m.sessions_total + 1;
      hook = hooks.on_register r.correlation_id m.hook;
    },
  )

  abbrev pub make_room : MemoryStorage H → MemoryStorage H
  make_room m = if leb max_cache_capacity (length m.sessions) then evict_lru hooks m else m

  -- `registerInternal` once no live session has the ID.
  unfoldable pub register_new :
      Registration → ℕ → MemoryStorage H → Result (Bytes × Bool) × MemoryStorage H
  unfolding generate_aes_key new_cipher add_session
  register_new r now m =
      let room = make_room (miss m) in
      elim (generate_aes_key r.random) [
        | none ↦ (err key_failed, room)
        | some key ↦ elim (new_cipher key) [
          | none ↦ (err cipher_failed, room)
          | some block ↦ add_session r key block now room
        ]
      ]

  unfoldable pub register_internal :
      Registration → ℕ → MemoryStorage H → Result (Bytes × Bool) × MemoryStorage H
  unfolding is_expired remove_locked register_new keep_alive
  register_internal r now m = elim (lookup r.correlation_id m.sessions) [
    | none ↦ register_new r now m
    | some p ↦
        if is_expired m (m.heap p) now
        then register_new r now (evicted (remove_locked hooks r.correlation_id m))
        else keep_alive r p now m
  ]

  unfoldable pub register : Registration → ℕ → MemoryStorage H → Result Bytes × MemoryStorage H
  unfolding register_internal
  register r now m = let (res, m') = register_internal r now m in (key_of res, m')
