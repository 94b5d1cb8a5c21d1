-- ===== src/Storage/Reach.antt =====
-- The histories of a storage: every method call as a step, the calls that give up the lock with the
-- steps that other goroutines make meanwhile.
use interactsh_lite.Crypto.{Ctr}
use interactsh_lite.Storage.Tables.{empty-Inv}
use interactsh_lite.Storage.Consistent.{IsValid}
use interactsh_lite.Storage.Invariant.{
  register-IsValid, get_session-IsValid, delete_session-IsValid, has_correlation_id-IsValid,
  append_interaction-IsValid,
}
use interactsh_lite.Storage.Register.{Registration, register}
use interactsh_lite.Storage.Access.{
  get_session, delete_session, has_correlation_id, append_interaction, get_and_clear_interactions,
}
use interactsh_lite.Storage.{MemoryStorage, Hooks, new_memory_storage}
use interactsh_lite.Prelude.{ℕ, Bool, Option, Bytes, lookup}

module _ {H : Type 0} (hooks : Hooks H) (ctr : Ctr) where
  mutual
    pub data Step : MemoryStorage H → MemoryStorage H → Type 0 where
      registers :
          {m : MemoryStorage H} (r : Registration) (now : ℕ) → Step m (register hooks r now m).1
      gets :
          {m mid : MemoryStorage H} (id secret : Bytes) (now now' : ℕ)
          → Reach m mid
          → Step m (get_session hooks (λ _. mid) id secret now now' m).1
      drains : {m : MemoryStorage H} (p : ℕ) → Step m (get_and_clear_interactions p m).1
      appends :
          {m : MemoryStorage H} (id interaction : Bytes) (random : Option Bytes) (now : ℕ)
          → Step m (append_interaction ctr id interaction random now m)
      deletes :
          {m : MemoryStorage H} (id secret : Bytes) → Step m (delete_session hooks id secret m).1
      asks :
          {m mid : MemoryStorage H} (id : Bytes) (now now' : ℕ)
          → Reach m mid
          → Step m (has_correlation_id hooks (λ _. mid) id now now' m).1

    pub data Reach : MemoryStorage H → MemoryStorage H → Type 0 where
      here : {m : MemoryStorage H} → Reach m m
      next : {m u w : MemoryStorage H} → Reach m u → Step u w → Reach m w

module _ {H : Type 0} {hooks : Hooks H} {ctr : Ctr} where
  mutual
    unfolding get_and_clear_interactions

    keep-Step : {m w : MemoryStorage H} → Step hooks ctr m w → IsValid m → IsValid w
    keep-Step (registers {m} r now) v = register-IsValid hooks r now m v
    keep-Step (gets {m} {mid} id secret now now' r) v =
        get_session-IsValid hooks (λ _. mid) id secret now now' m v (keep-Reach r v)
    keep-Step (drains p) v = v
    keep-Step (appends {m} id interaction random now) v =
        append_interaction-IsValid ctr id interaction random now m v
    keep-Step (deletes {m} id secret) v = delete_session-IsValid hooks id secret m v
    keep-Step (asks {m} {mid} id now now' r) v =
        has_correlation_id-IsValid hooks (λ _. mid) id now now' m v (keep-Reach r v)

    keep-Reach : {m w : MemoryStorage H} → Reach hooks ctr m w → IsValid m → IsValid w
    keep-Reach here v = v
    keep-Reach (next r s) v = keep-Step s (keep-Reach r v)

pub new_memory_storage-IsValid :
    {H : Type 0} (hook : H) (days : ℕ) (no_eviction sliding : Bool)
    → IsValid (new_memory_storage hook days no_eviction sliding)
unfolding new_memory_storage lookup
new_memory_storage-IsValid hook days no_eviction sliding = record {
  inv = empty-Inv;
  allocated = λ id p h. cc;
  separate = λ id j p h k. cc;
}

-- After any history of a new storage, the calls of other goroutines inside it included, the LRU
-- list, its map and the session map agree, and no two correlation IDs share a session.
pub reach-IsValid :
    {H : Type 0} (hooks : Hooks H) (ctr : Ctr) (hook : H) (days : ℕ) (no_eviction sliding : Bool)
    {m : MemoryStorage H}
    → Reach hooks ctr (new_memory_storage hook days no_eviction sliding) m
    → IsValid m
reach-IsValid hooks ctr hook days no_eviction sliding r =
    keep-Reach r (new_memory_storage-IsValid hook days no_eviction sliding)
