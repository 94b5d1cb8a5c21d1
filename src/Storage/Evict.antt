-- ===== src/Storage/Evict.antt =====
-- `evictLRU` of storage.go: the victim among the first elements of the LRU list.
use interactsh_lite.Storage.Tables.{Index, drop_stale}
use interactsh_lite.Storage.Lru.{LruEntry}
use interactsh_lite.Storage.{Session, MemoryStorage, Hooks, max_int64, evicted, remove_locked}
use interactsh_lite.Prelude.{
  ℕ, zero, suc, none, some, List, [], ◌∷◌, ltb, if◌then◌else◌, Bytes, equal, lookup,
}

-- `victimID` and `victimTime`.
pub record Victim : Type 0 where
  pub id : Bytes
  pub time : ℕ

-- `if t := session.lastAccess.Load(); t < victimTime { … }`
abbrev pub closer : ℕ → Bytes → Victim → Victim
closer t id v = if ltb t v.time then record { id = id; time = t } else v

-- The loop of `evictLRU` over the elements not yet probed, with the rounds left.
unfoldable pub probe : (ℕ → Session) → ℕ → List LruEntry → Index → Victim → Index × Victim
probe heap zero ns x v = (x, v)
probe heap (suc k) [] x v = (x, v)
probe heap (suc k) (n ∷ ns) x v = elim (lookup n.correlation_id x.sessions) [
  | none ↦ probe heap k ns (drop_stale n x) v
  | some p ↦ probe heap k ns x (closer (heap p).last_access n.correlation_id v)
]

abbrev pub max_probe : ℕ
max_probe = 8

abbrev pub no_victim : Victim
no_victim = record { id = []; time = max_int64 }

module _ {H : Type 0} (hooks : Hooks H) where
  unfoldable pub evict_lru : MemoryStorage H → MemoryStorage H
  unfolding probe remove_locked
  evict_lru m =
      let (x, v) = probe m.heap max_probe m.lru_list m.index no_victim in
      if equal v.id []
      then record m { index = x }
      else evicted (remove_locked hooks v.id (record m { index = x }))
