-- ===== src/SharedBucket.antt =====
-- `SharedBucket` of interactsh-srv/oobsrv/storage.go: one buffer with a read offset for each
-- consumer. Times are Unix nanoseconds; the buffer size and the eviction TTL are not negative.
pub mod Refinement
pub mod Waiting
mod Tests
use interactsh_lite.Prelude.{
  ℕ, ◌+◌, ◌-◌, ◌*◌, ◌≤◌, ◌<◌, Bool, true, false, ◌&&◌, ◌||◌, Option, none, some, map, List, [], ◌∷◌,
  ◌++◌, ltb, leb, if◌then◌else◌, Bytes, Map, lookup, insert, remove, map_values, length, drop,
  get_or, any, equal,
}

pub record SharedBucket : Type 0 where
  pub interactions : List Bytes
  pub max_buffer : ℕ
  pub offsets : Map ℕ
  pub last_seen : Map ℕ
  pub eviction_ttl : ℕ
  pub last_cleanup : ℕ

-- A minute.
abbrev pub cleanup_interval : ℕ
cleanup_interval = 60_000_000_000

unfoldable pub new_shared_bucket : ℕ → ℕ → ℕ → SharedBucket
new_shared_bucket max_buffer eviction_ttl now = record {
  interactions = [];
  max_buffer = max_buffer;
  offsets = [];
  last_seen = [];
  eviction_ttl = eviction_ttl;
  last_cleanup = now;
}

-- `b.maxBuffer > 0 && len(b.interactions) >= 2*b.maxBuffer`
abbrev pub is_full : SharedBucket → Bool
is_full b = ltb 0 b.max_buffer && leb (2 * b.max_buffer) (length b.interactions)

-- The oldest `maxBuffer` interactions go, and the offsets with them.
unfoldable pub discard : SharedBucket → SharedBucket
discard b = record b {
  interactions = drop b.max_buffer b.interactions;
  offsets = map_values (λ offset. offset - b.max_buffer) b.offsets;
}

unfoldable pub append : Bytes → SharedBucket → SharedBucket
unfolding discard
append interaction b =
    let b' = record b { interactions = b.interactions ++ (interaction ∷ []) } in
    if is_full b' then discard b' else b'

abbrev pub is_stale : ℕ → ℕ → ℕ → Bool
is_stale ttl now seen = ltb ttl (now - seen)

-- The time that a key of `lastSeen` has is past the TTL.
abbrev pub stale_at : ℕ → ℕ → Option ℕ → Bool
stale_at ttl now none = false
stale_at ttl now (some seen) = is_stale ttl now seen

abbrev pub keys : {V : Type 0} → Map V → List Bytes
keys m = map (λ e. e.0) m

-- The loop over the keys of `lastSeen`: the offsets and the times that are left.
unfoldable pub remove_stale : ℕ → ℕ → List Bytes → Map ℕ → Map ℕ → Map ℕ × Map ℕ
remove_stale ttl now [] offsets seen = (offsets, seen)
remove_stale ttl now (c ∷ rest) offsets seen =
    let stale = stale_at ttl now (lookup c seen) in
    remove_stale ttl now rest (if stale then remove c offsets else offsets)
      (if stale then remove c seen else seen)

unfoldable pub cleanup_stale : ℕ → SharedBucket → SharedBucket
unfolding remove_stale
cleanup_stale now b =
    if ltb (now - b.last_cleanup) cleanup_interval
    then b
    else let (offsets, seen) =
        remove_stale b.eviction_ttl now (keys b.last_seen) b.offsets b.last_seen in
      record b { offsets = offsets; last_seen = seen; last_cleanup = now }

abbrev pub mark_read : Bytes → ℕ → SharedBucket → SharedBucket
mark_read consumer now b = record b {
  offsets = insert consumer (length b.interactions) b.offsets;
  last_seen = insert consumer now b.last_seen;
}

unfoldable pub read_from : Bytes → ℕ → SharedBucket → List Bytes × SharedBucket
unfolding cleanup_stale
read_from consumer now b =
    let offset = get_or 0 (lookup consumer b.offsets) in
    let read = cleanup_stale now (mark_read consumer now b) in
    if leb (length b.interactions) offset then ([], read) else (drop offset b.interactions, read)
