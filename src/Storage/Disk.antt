-- ===== src/Storage/Disk.antt =====
-- `diskStorage` of interactsh-srv/oobsrv/storage.go: the memory storage whose hook is the LevelDB
-- database, a map. What a call of LevelDB answers besides is an argument: that a `Get` fails, that
-- a `Put` succeeds.
use interactsh_lite.Crypto.{Ctr, encrypt_interaction_block}
use interactsh_lite.Storage.{MemoryStorage, Hooks, hit, miss, touch_if_sliding}
use interactsh_lite.Prelude.{
  ℕ, suc, ◌+◌, ◌*◌, ◌/◌, ◌%◌, ◌^◌, Bool, Option, none, some, List, [], ◌∷◌, ◌++◌, if◌then◌else◌,
  ltb, Bytes, length, take, drop, Map, lookup, insert, remove, get_or,
}

abbrev pub Database : Type 0
Database = Map Bytes

-- The hooks of `NewDiskStorage`: what is left under an ID is deleted.
abbrev pub disk_hooks : Hooks Database
disk_hooks = record { on_evict = λ id db. remove id db; on_register = λ id db. remove id db }

-- `binary.BigEndian.PutUint32`, and `Uint32` of four bytes.
unfoldable pub put_uint32 : ℕ → Bytes
put_uint32 n = let v = n % 2 ^ 32 in v / 2 ^ 24 ∷ v / 2 ^ 16 % 256 ∷ v / 2 ^ 8 % 256 ∷ v % 256 ∷ []

unfoldable pub uint32 : ℕ → ℕ → ℕ → ℕ → ℕ
uint32 a b c d = a * 2 ^ 24 + b * 2 ^ 16 + c * 2 ^ 8 + d

-- A record: its length and its bytes.
unfoldable pub frame : Bytes → Bytes
unfolding put_uint32
frame r = put_uint32 (length r) ++ r

-- The loop over the records, with the rounds left.
unfoldable pub parse_from : ℕ → Bytes → List Bytes
unfolding uint32
parse_from (suc f) (a ∷ b ∷ c ∷ d ∷ rest) =
    let n = uint32 a b c d in
    let others = parse_from f (drop n rest) in
    if ltb (length rest) n then [] else take n rest ∷ others
parse_from _ _ = []

-- A round takes a byte at least.
unfoldable pub parse_records : Bytes → List Bytes
unfolding parse_from
parse_records data_bytes = parse_from (length data_bytes) data_bytes

module _ (ctr : Ctr) where
  -- `AppendInteraction`; the touch comes after the encryption.
  unfoldable pub append_disk :
      Bytes
      → Bytes
      → Option Bytes
      → ℕ
      → (get_fails put_works : Bool) → MemoryStorage Database
      → MemoryStorage Database
  unfolding encrypt_interaction_block touch_if_sliding frame lookup insert
  append_disk id interaction random now get_fails put_works m = elim (lookup id m.sessions) [
    | none ↦ miss m
    | some p ↦ elim (encrypt_interaction_block ctr random interaction (m.heap p).aes_block) [
      | none ↦ hit m
      | some encrypted ↦
          let touched = touch_if_sliding p now (hit m) in
          let existing = get_or [] (lookup id touched.hook) in
          if get_fails
          then touched
          else if put_works
          then record touched { hook = insert id (existing ++ frame encrypted) touched.hook }
          else touched
    ]
  ]

-- The results of `GetAndClearInteractions`.
pub data Drained : Type 0 where
  storage_closed : Drained
  not_read : Drained
  drained : List Bytes → Drained

unfoldable pub drain_disk : (closed get_fails : Bool) → Bytes → Database → Drained × Database
unfolding parse_records lookup remove
drain_disk closed get_fails id db =
    if closed
    then (storage_closed, db)
    else if get_fails
    then (not_read, db)
    else elim (lookup id db) [
      | none ↦ (drained [], db)
      | some found ↦ (drained (parse_records found), remove id db)
    ]
