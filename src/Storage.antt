-- ===== src/Storage.antt =====
-- interactsh-srv/oobsrv/storage.go: `memoryStorage`. Sessions live in a heap and are named by
-- pointers, so a handle that outlives its session is a pointer that the maps no longer hold. Times
-- are Unix nanoseconds, and a method is given what its readings of the clock return. The fields
-- `onEvict` and `onRegister` are a record of functions on a state `H`: none for `memoryStorage`
-- alone, the database for `diskStorage`.
pub mod Lru
pub mod Tables
pub mod Evict
pub mod Register
pub mod Access
pub mod Oldest
pub mod Consistent
pub mod Invariant
pub mod Reach
pub mod Sessions
pub mod Interactions
pub mod Capacity
pub mod Disk
pub mod Framing
pub mod Tests
use Tables.{Index, empty, unlink, promote, link, drop_stale}
use Lru.{LruEntry}
use interactsh_lite.Crypto.{Ctr, generate_aes_key, new_cipher, encrypt_interaction_block}
use interactsh_lite.Oobclient.Response.{ResponseConfig}
use interactsh_lite.Prelude.{
  ℕ, zero, suc, ◌+◌, ◌-◌, ◌*◌, ◌≤◌, ◌<◌, ◌≡◌, ◌^◌, Bool, true, false, not, ◌&&◌, Option, none, some,
  List, [], ◌∷◌, ◌++◌, ltb, leb, ◌==◌, if◌then◌else◌, Bytes, equal, length, lookup, arith,
}

pub record Session : Type 0 where
  pub public_key : Bytes
  pub aes_key : Bytes
  pub aes_block : Bytes
  pub secret_key : Bytes
  pub response : Option ResponseConfig
  pub interactions : List Bytes
  pub last_access : ℕ
  pub created_at : ℕ

pub record MemoryStorage (H : Type 0) : Type 0 where
  pub index : Index
  pub open index use *
  pub heap : ℕ → Session
  pub next_session : ℕ
  pub ttl : ℕ
  pub no_eviction : Bool
  pub sliding_ttl : Bool
  pub hits : ℕ
  pub misses : ℕ
  pub evictions : ℕ
  pub sessions_total : ℕ
  pub hook : H

pub record Hooks (H : Type 0) : Type 0 where
  pub on_evict : Bytes → H → H
  pub on_register : Bytes → H → H

-- The errors of `Storage`, by their texts.
pub data StorageError : Type 0 where
  already_exists : StorageError
  no_correlation_id : StorageError
  invalid_secret : StorageError
  key_failed : StorageError
  cipher_failed : StorageError
  storage_closed : StorageError
  read_failed : StorageError

pub data Result {ℓ} (A : Type ℓ) : Type ℓ where
  ok : A → Result A
  err : StorageError → Result A

-- What stands at an address before a session is allocated there.
abbrev blank : Session
blank = record {
  public_key = [];
  aes_key = [];
  aes_block = [];
  secret_key = [];
  response = none;
  interactions = [];
  last_access = 0;
  created_at = 0;
}

abbrev pub max_cache_capacity : ℕ
max_cache_capacity = 2_500_000

abbrev pub max_int64 : ℕ
max_int64 = 2 ^ 63 - 1

abbrev pub default_eviction_days : ℕ
default_eviction_days = 30

abbrev pub nanos_per_day : ℕ
nanos_per_day = 24 * 3_600_000_000_000

-- `NewMemoryStorage`. The days of a TTL that `time.Duration` can hold: at most 106751.
unfoldable pub new_memory_storage : {H : Type 0} → H → ℕ → Bool → Bool → MemoryStorage H
unfolding empty
new_memory_storage hook days no_eviction sliding = record {
  index = empty;
  heap = λ _. blank;
  next_session = 0;
  ttl = (if ltb days 1 then default_eviction_days else days) * nanos_per_day;
  no_eviction = no_eviction;
  sliding_ttl = sliding;
  hits = 0;
  misses = 0;
  evictions = 0;
  sessions_total = 0;
  hook = hook;
}

-- `now.Sub(t) > ttl`; a clock that has gone back gives a negative duration, which is not above.
unfoldable pub is_expired : {H : Type 0} → MemoryStorage H → Session → ℕ → Bool
is_expired m s now =
    if m.no_eviction
    then false
    else if m.sliding_ttl
    then ltb m.ttl (now - s.last_access)
    else ltb m.ttl (now - s.created_at)

-- A write through a session pointer.
abbrev pub update : (ℕ → Session) → ℕ → (Session → Session) → ℕ → Session
update heap p f q = if q == p then f (heap q) else heap q

unfoldable pub touch_session : {H : Type 0} → ℕ → ℕ → MemoryStorage H → MemoryStorage H
touch_session p now m = record m { heap = update m.heap p (λ s. record s { last_access = now }) }

-- `if m.slidingTTL { m.touchSession(s) }`
unfoldable pub touch_if_sliding : {H : Type 0} → ℕ → ℕ → MemoryStorage H → MemoryStorage H
unfolding touch_session
touch_if_sliding p now m = if m.sliding_ttl then touch_session p now m else m

abbrev pub hit : {H : Type 0} → MemoryStorage H → MemoryStorage H
hit m = record m { hits = m.hits + 1 }

abbrev pub miss : {H : Type 0} → MemoryStorage H → MemoryStorage H
miss m = record m { misses = m.misses + 1 }

abbrev pub evicted : {H : Type 0} → MemoryStorage H → MemoryStorage H
evicted m = record m { evictions = m.evictions + 1 }

abbrev pub promote_lru : {H : Type 0} → Bytes → MemoryStorage H → MemoryStorage H
promote_lru id m = record m { index = promote id m.index }

module _ {H : Type 0} (hooks : Hooks H) where
  unfoldable pub remove_locked : Bytes → MemoryStorage H → MemoryStorage H
  remove_locked id m = record m { index = unlink id m.index; hook = hooks.on_evict id m.hook }
