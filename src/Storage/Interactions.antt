-- ===== src/Storage/Interactions.antt =====
-- What `AppendInteraction` stores is what the session handle hands out.
use interactsh_lite.Crypto.{Ctr, encrypt_interaction_block}
use interactsh_lite.Storage.Access.{append_interaction, get_and_clear_interactions}
use interactsh_lite.Storage.{MemoryStorage, touch_if_sliding}
use interactsh_lite.Prelude.{
  ℕ, ◌≡◌, ◌≢◌, refl, sym, Option, none, some, List, [], ◌∷◌, ◌++◌, Bytes, lookup, arith, ==_iff,
  Option-cases, inl, inr,
}
use mathlib.Core.List.{append-nil, append_assoc}

-- An interaction, the IV that its encryption reads, and the time.
pub record Arrival : Type 0 where
  pub interaction : Bytes
  pub random : Option Bytes
  pub now : ℕ

module _ {H : Type 0} (ctr : Ctr) where
  -- Calls of `AppendInteraction` for one ID.
  abbrev pub append_all : Bytes → List Arrival → MemoryStorage H → MemoryStorage H
  append_all id [] m = m
  append_all id (a ∷ as') m =
      append_all id as' (append_interaction ctr id a.interaction a.random a.now m)

  step_interactions :
      (id : Bytes) (a : Arrival) (p : ℕ) (m : MemoryStorage H)
      → lookup id m.sessions ≡ some p
      → let m' = append_interaction ctr id a.interaction a.random a.now m in
        (m'.sessions ≡ m.sessions)
        × ((m'.heap p).aes_block ≡ (m.heap p).aes_block)
        × ((m'.heap p).interactions
            ≡ elim (encrypt_interaction_block ctr a.random a.interaction (m.heap p).aes_block) [
              | none ↦ (m.heap p).interactions
              | some e ↦ (m.heap p).interactions ++ (e ∷ [])
            ])
  unfolding append_interaction touch_if_sliding
  step_interactions id a p m e = ground arith

  step_elsewhere :
      (id : Bytes) (a : Arrival) (p q : ℕ) (m : MemoryStorage H)
      → lookup id m.sessions ≡ some p
      → q ≢ p
      → ((append_interaction ctr id a.interaction a.random a.now m).heap q).interactions
        ≡ (m.heap q).interactions
  unfolding append_interaction touch_if_sliding
  step_elsewhere id a p q m e ne = ground (arith, ==_iff q p)

-- The interactions that could be encrypted under the session's block, in order.
abbrev pub encrypted : Ctr → Bytes → List Arrival → List Bytes
encrypted ctr block [] = []
encrypted ctr block (a ∷ as') = elim (encrypt_interaction_block ctr a.random a.interaction block) [
  | none ↦ encrypted ctr block as'
  | some e ↦ e ∷ encrypted ctr block as'
]

module _ {H : Type 0} (ctr : Ctr) where
  pub append_all_interactions :
      (id : Bytes) (arrivals : List Arrival) (p : ℕ) (m : MemoryStorage H)
      → lookup id m.sessions ≡ some p
      → ((append_all ctr id arrivals m).heap p).interactions
        ≡ (m.heap p).interactions ++ encrypted ctr (m.heap p).aes_block arrivals
  append_all_interactions id [] p m e = sym (append-nil (m.heap p).interactions)
  append_all_interactions id (a ∷ as') p m e =
      let m' = append_interaction ctr id a.interaction a.random a.now m in
      let block = (m.heap p).aes_block in
      elim (Option-cases (encrypt_interaction_block ctr a.random a.interaction block)) [
        | inl n ↦
            ground (arith, n, step_interactions ctr id a p m e, append_all_interactions id as' p m')
        | inr (c, n) ↦ ground (
          arith,
          n,
          step_interactions ctr id a p m e,
          append_all_interactions id as' p m',
          append_assoc (m.heap p).interactions (c ∷ []) (encrypted ctr block as'),
        )
      ]

  append_all_elsewhere :
      (id : Bytes) (arrivals : List Arrival) (p q : ℕ) (m : MemoryStorage H)
      → lookup id m.sessions ≡ some p
      → q ≢ p
      → ((append_all ctr id arrivals m).heap q).interactions ≡ (m.heap q).interactions
  append_all_elsewhere id [] p q m e ne = refl
  append_all_elsewhere id (a ∷ as') p q m e ne =
      let m' = append_interaction ctr id a.interaction a.random a.now m in
      ground (
        arith,
        step_interactions ctr id a p m e,
        step_elsewhere ctr id a p q m e ne,
        append_all_elsewhere id as' p q m',
      )

  -- Between two polls of a session, whatever arrives for its ID is handed out by the second poll,
  -- all of it, once and in order, and no other session's interactions change.
  pub drain-append_all :
      (id : Bytes) (arrivals : List Arrival) (p q : ℕ) (m : MemoryStorage H)
      → lookup id m.sessions ≡ some p
      → q ≢ p
      → let polled = (get_and_clear_interactions p m).1 in
        let m' = append_all ctr id arrivals polled in
        ((get_and_clear_interactions p m').0 ≡ encrypted ctr (m.heap p).aes_block arrivals)
        × ((get_and_clear_interactions p (get_and_clear_interactions p m').1).0 ≡ [])
        × (((get_and_clear_interactions p m').1.heap q).interactions ≡ (m.heap q).interactions)
  unfolding get_and_clear_interactions
  drain-append_all id arrivals p q m e ne =
      let polled = (get_and_clear_interactions p m).1 in
      ground (
        arith,
        append_all_interactions id arrivals p polled e,
        append_all_elsewhere id arrivals p q polled e ne,
        ==_iff q p,
      )
