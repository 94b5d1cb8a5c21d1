-- ===== src/Storage/Tests.antt =====
-- Concrete storages, and the theorems at them.
use interactsh_lite.Crypto.{Ctr, encrypt_interaction_block}
use interactsh_lite.Storage.Disk.{Database, disk_hooks, append_disk, drain_disk, drained}
use interactsh_lite.Storage.Framing.{drain_disk-append_disk}
use interactsh_lite.Storage.Tables.{link}
use interactsh_lite.Storage.Consistent.{IsValid}
use interactsh_lite.Storage.Reach.{Reach, here, next, registers, deletes, reach-IsValid}
use interactsh_lite.Storage.Register.{Registration, register}
use interactsh_lite.Storage.Access.{
  get_session, delete_session, session_count, get_and_clear_interactions,
}
use interactsh_lite.Storage.Sessions.{Grants, get_session_ok, expired_session}
use interactsh_lite.Storage.Interactions.{Arrival, append_all, drain-append_all}
use interactsh_lite.Storage.Capacity.{IsNamed, register_capacity}
use interactsh_lite.Storage.{
  MemoryStorage, Hooks, err, no_correlation_id, is_expired, new_memory_storage, max_cache_capacity,
}
use interactsh_lite.Prelude.Text.{codes}
use interactsh_lite.Prelude.{
  remove, inl, ℕ, zero, suc, ◌+◌, ◌≤◌, ◌≡◌, refl, ap, true, false, none, some, List, [], ◌∷◌, ◌++◌,
  Bytes, length, lookup, insert, arith, ◌⊎◌, equal,
}

abbrev pub Memory : Type 0
Memory = MemoryStorage (Unit {0})

abbrev pub no_hooks : Hooks (Unit {0})
no_hooks = record { on_evict = λ id h. h; on_register = λ id h. h }

abbrev pub zeros : ℕ → Bytes
zeros zero = []
zeros (suc n) = 0 ∷ zeros n

pub length-zeros : (n : ℕ) → length (zeros n) ≡ n
length-zeros zero = refl
length-zeros (suc n) = ap suc (length-zeros n)

-- A key stream of zeros: the cipher text is the text.
abbrev pub plain : Ctr
plain = record { keystream = λ key iv n. zeros n; length-keystream = λ key iv n. length-zeros n }

abbrev pub request : Bytes → Bytes → Registration
request id secret = record {
  correlation_id = id;
  public_key = [];
  secret_key = secret;
  response = none;
  random = some (zeros 32);
}

abbrev pub fresh : Memory
fresh = new_memory_storage tt 1 false true

-- Session "abc" with secret "s", from time 100.
unfoldable pub stored : Memory
unfolding register new_memory_storage lookup insert equal link is_expired get_session
stored = (register no_hooks (request (codes "abc") (codes "s")) 100 fresh).1

abbrev day : ℕ
day = 86_400_000_000_000

pub stored_abc : lookup (codes "abc") stored.sessions ≡ some 0
unfolding stored
stored_abc = refl

abbrev history :
    Reach no_hooks plain fresh
      (delete_session no_hooks
        (codes "abc")
        (codes "s")
        (register no_hooks (request (codes "abc") (codes "s")) 100 fresh).1).1
history =
    next (next here (registers (request (codes "abc") (codes "s")) 100))
      (deletes (codes "abc") (codes "s"))

reach-IsValid_example :
    IsValid
      (delete_session no_hooks
        (codes "abc")
        (codes "s")
        (register no_hooks (request (codes "abc") (codes "s")) 100 fresh).1).1
reach-IsValid_example = reach-IsValid no_hooks plain tt 1 false true history

pub stored-IsValid : IsValid stored
unfolding stored
stored-IsValid =
    reach-IsValid no_hooks plain tt 1 false true
      (next here (registers (request (codes "abc") (codes "s")) 100))

get_session_ok_example :
    Grants stored (codes "abc") (codes "s") 200 0 ⊎ Grants stored (codes "abc") (codes "s") 300 0
unfolding stored
get_session_ok_example =
    get_session_ok no_hooks (λ m. m) (codes "abc") (codes "s") 200 300 0 stored refl

expired_session_example :
    (get_session no_hooks (λ s. s) (codes "abc") (codes "s") (day + 101) (day + 101) stored).0
    ≡ err no_correlation_id
unfolding stored
expired_session_example =
    (expired_session no_hooks (codes "abc") (codes "s") (day + 101) 0 stored stored_abc refl).0

abbrev arrivals : List Arrival
arrivals =
    record { interaction = codes "dns"; random = some (zeros 16); now = 150 }
    ∷ record { interaction = codes "http"; random = some (zeros 16); now = 160 }
    ∷ []

drain-append_all_example :
    (get_and_clear_interactions 0
      (append_all plain (codes "abc") arrivals (get_and_clear_interactions 0 stored).1)).0
    ≡ (zeros 16 ++ codes "dns") ∷ (zeros 16 ++ codes "http") ∷ []
unfolding stored encrypt_interaction_block
drain-append_all_example =
    (drain-append_all plain (codes "abc") arrivals 0 1 stored stored_abc (omega arith)).0

stored-IsNamed : IsNamed stored.heap stored.index
unfolding stored
stored-IsNamed = record { named = refl; timed = λ id p h. ground (arith, h) }

register_capacity_example :
    session_count (register no_hooks (request (codes "xyz") (codes "s")) 200 stored).1
    ≤ max_cache_capacity
unfolding stored session_count
register_capacity_example =
    register_capacity no_hooks (request (codes "xyz") (codes "s")) 200 stored stored-IsValid.inv
      stored-IsNamed (omega arith)

-- The same session on disk.
unfoldable on_disk : MemoryStorage Database
unfolding register new_memory_storage lookup insert equal link is_expired get_session
on_disk =
    (register disk_hooks (request (codes "abc") (codes "s")) 100
      (new_memory_storage [] 1 false true)).1

drain_disk-append_disk_example :
    (drain_disk false false
      (codes "abc")
      (append_disk plain
        (codes "abc")
        (codes "dns")
        (some (zeros 16))
        200
        false
        true
        on_disk).hook).0
    ≡ drained ((zeros 16 ++ codes "dns") ∷ [])
unfolding on_disk encrypt_interaction_block remove
drain_disk-append_disk_example =
    (drain_disk-append_disk plain (codes "abc") (codes "dns") (zeros 16 ++ codes "dns")
      (some (zeros 16)) 200 0 [] on_disk refl refl (inl refl) tt (omega arith)).0
