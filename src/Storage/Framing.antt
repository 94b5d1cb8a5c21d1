-- ===== src/Storage/Framing.antt =====
-- The records that `diskStorage` of interactsh-srv/oobsrv/storage.go writes are read back.
use interactsh_lite.Crypto.{Ctr, encrypt_interaction_block}
use interactsh_lite.Storage.{MemoryStorage, hit, touch_if_sliding}
use interactsh_lite.Storage.Disk.{
  Database, put_uint32, uint32, frame, parse_from, parse_records, append_disk, drained, drain_disk,
}
use mathlib.Core.List.{append_assoc, append-nil}
use interactsh_lite.Prelude.{
  ℕ, zero, suc, ◌/◌, ◌%◌, ◌^◌, ◌≤◌, ◌<◌, Bool, true, false, Option, none, some, List, [], ◌∷◌, ◌++◌,
  if◌then◌else◌, ltb, Bytes, length, take, drop, All, All-append, ◌⊎◌, inl, inr, lookup, insert,
  remove, lookup-insert_self, lookup-remove, length-append, take-length-append, drop-length-append,
  get_or, ◌≡◌, refl, sym, ap, ◌∙◌, arith, equal_refl,
}

abbrev pub frames : List Bytes → Bytes
frames [] = []
frames (r ∷ rs) = frame r ++ frames rs

-- A length that the prefix holds.
abbrev pub IsShort : Bytes → Type 0
IsShort r = length r < 2 ^ 32

frames-append : (rs : List Bytes) (r : Bytes) → frames (rs ++ (r ∷ [])) ≡ frames rs ++ frame r
frames-append [] r = append-nil (frame r)
frames-append (q ∷ rs) r =
    ap (λ x. frame q ++ x) (frames-append rs r) ∙ sym (append_assoc (frame q) (frames rs) (frame r))

uint32-put_uint32 :
    (n : ℕ)
    → n < 2 ^ 32
    → let v = n % 2 ^ 32 in uint32 (v / 2 ^ 24) (v / 2 ^ 16 % 256) (v / 2 ^ 8 % 256) (v % 256) ≡ n
unfolding uint32
uint32-put_uint32 n h = omega (arith, h)

parse_from-frame :
    (f : ℕ) (r rest : Bytes)
    → IsShort r
    → parse_from (suc f) (frame r ++ rest) ≡ r ∷ parse_from f rest
unfolding parse_from frame put_uint32
parse_from-frame f r rest h =
    let n = length r in
    let same = uint32-put_uint32 n h in
    let read = λ (k : ℕ).
      if ltb (length (r ++ rest)) k
      then []
      else take k (r ++ rest) ∷ parse_from f (drop k (r ++ rest)) in
    let fits : ltb (length (r ++ rest)) n ≡ false = ground (arith, length-append r rest) in
    ap read same
    ∙ ap (λ (b : Bool). if b then [] else take n (r ++ rest) ∷ parse_from f (drop n (r ++ rest)))
        fits
    ∙ ap (λ x. x ∷ parse_from f (drop n (r ++ rest))) (take-length-append r rest)
    ∙ ap (λ x. r ∷ parse_from f x) (drop-length-append r rest)

parse_from-frames :
    (f : ℕ) (rs : List Bytes) → length rs ≤ f → All IsShort rs → parse_from f (frames rs) ≡ rs
unfolding parse_from
parse_from-frames zero [] l h = refl
parse_from-frames (suc f) [] l h = refl
parse_from-frames zero (r ∷ rs) l h = absurd (omega (arith, l))
parse_from-frames (suc f) (r ∷ rs) l (s, ss) =
    parse_from-frame f r (frames rs) s ∙ ap (◌∷◌ r) (parse_from-frames f rs (omega (arith, l)) ss)

frames_long : (rs : List Bytes) → length rs ≤ length (frames rs)
unfolding frame put_uint32
frames_long [] = omega arith
frames_long (r ∷ rs) = omega (arith, frames_long rs, length-append r (frames rs))

-- Records of fewer than 2^32 bytes are parsed as they were framed, in order and to the last.
pub parse_records-frames : (rs : List Bytes) → All IsShort rs → parse_records (frames rs) ≡ rs
unfolding parse_records
parse_records-frames rs h = parse_from-frames (length (frames rs)) rs (frames_long rs) h

-- The records under an ID: none are kept as no value.
abbrev pub Holds : Bytes → List Bytes → Database → Type 0
Holds id [] db = (lookup id db ≡ none) ⊎ (lookup id db ≡ some [])
Holds id (r ∷ rs) db = lookup id db ≡ some (frames (r ∷ rs))

Holds-frames :
    (id : Bytes) (rs : List Bytes) (db : Database)
    → Holds id rs db
    → get_or [] (lookup id db) ≡ frames rs
Holds-frames id [] db (inl e) = ap (get_or []) e
Holds-frames id [] db (inr e) = ap (get_or []) e
Holds-frames id (r ∷ rs) db e = ap (get_or []) e

touched_hook :
    (p now : ℕ) (m : MemoryStorage Database) → (touch_if_sliding p now (hit m)).hook ≡ m.hook
unfolding touch_if_sliding
touched_hook p now m = ground arith

module _ (ctr : Ctr) where
  append_disk_hook :
      (id interaction encrypted : Bytes) (random : Option Bytes) (now p : ℕ) (rs : List Bytes)
      (m : MemoryStorage Database)
      → lookup id m.sessions ≡ some p
      → encrypt_interaction_block ctr random interaction (m.heap p).aes_block ≡ some encrypted
      → Holds id rs m.hook
      → (append_disk ctr id interaction random now false true m).hook
        ≡ insert id (frames (rs ++ (encrypted ∷ []))) m.hook
  unfolding append_disk
  append_disk_hook id interaction encrypted random now p rs m s e h =
      rw (append_disk, s, e)
        (ap (λ db. insert id (get_or [] (lookup id db) ++ frame encrypted) db)
            (touched_hook p now m)
          ∙ ap (λ x. insert id (x ++ frame encrypted) m.hook) (Holds-frames id rs m.hook h)
          ∙ ap (λ x. insert id x m.hook) (sym (frames-append rs encrypted)))

  drain_found :
      (id found : Bytes) (db : Database)
      → lookup id db ≡ some found
      → drain_disk false false id db ≡ (drained (parse_records found), remove id db)
  unfolding drain_disk
  drain_found id found db e = rw (drain_disk, e) refl

  -- An interaction that is appended to a session on disk comes back last, behind all that were
  -- there, when the session is drained, and nothing is left of them; LevelDB fails at no call, and
  -- no record has 2^32 bytes.
  pub drain_disk-append_disk :
      (id interaction encrypted : Bytes) (random : Option Bytes) (now p : ℕ) (rs : List Bytes)
      (m : MemoryStorage Database)
      → lookup id m.sessions ≡ some p
      → encrypt_interaction_block ctr random interaction (m.heap p).aes_block ≡ some encrypted
      → Holds id rs m.hook
      → All IsShort rs
      → IsShort encrypted
      → let db = (append_disk ctr id interaction random now false true m).hook in
        let (result, db') = drain_disk false false id db in
        (result ≡ drained (rs ++ (encrypted ∷ []))) × (lookup id db' ≡ none)
  drain_disk-append_disk id interaction encrypted random now p rs m s e h short last =
      let all = rs ++ (encrypted ∷ []) in
      let db = insert id (frames all) m.hook in
      let same = append_disk_hook id interaction encrypted random now p rs m s e h in
      let found = drain_found id (frames all) db (lookup-insert_self id (frames all) m.hook) in
      let x = ap (drain_disk false false id) same ∙ found in
      (
        ap (λ y. y.0) x
            ∙ ap drained (parse_records-frames all (All-append IsShort rs _ short (last, tt))),
        ap (λ y. lookup id y.1) x
            ∙ lookup-remove id id db
            ∙ ap (λ (b : Bool). if b then none else lookup id db) (equal_refl id),
      )
