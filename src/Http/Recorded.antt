-- ===== src/Http/Recorded.antt =====
-- What a handler that acts on the recorder leaves there.
use interactsh_lite.Http.{
  HttpLibrary, ResponseRecorder, new_response_recorder, clamp_status_code, write_header, write,
  header_set, header_add,
}
use interactsh_lite.Prelude.Int.{ℤ, pos, negsuc}
use interactsh_lite.Prelude.{
  ℕ, ◌≤◌, true, false, List, [], ◌∷◌, ◌++◌, Bytes, ◌≡◌, refl, sym, ap, ◌∙◌, arith, Bool-cases, inl,
  inr,
}
use mathlib.Core.List.{append_assoc, append-nil}

-- The calls of `http.ResponseWriter` and of its header.
pub data Call : Type 0 where
  sets adds : Bytes → Bytes → Call
  writes_header : ℤ → Call
  writes : Bytes → Call

module _ (lib : HttpLibrary) where
  unfoldable pub call : Call → ResponseRecorder → ResponseRecorder
  unfolding header_set header_add write_header write
  call (sets name value) r = header_set lib name value r
  call (adds name value) r = header_add lib name value r
  call (writes_header code) r = write_header code r
  call (writes b) r = write b r

  unfoldable pub calls : List Call → ResponseRecorder → ResponseRecorder
  unfolding call
  calls [] r = r
  calls (c ∷ cs) r = calls cs (call c r)

  -- The first status that is written, 200 if a body comes first.
  abbrev pub first_status : List Call → ℕ
  first_status [] = 200
  first_status (sets name value ∷ cs) = first_status cs
  first_status (adds name value ∷ cs) = first_status cs
  first_status (writes_header code ∷ cs) = clamp_status_code code
  first_status (writes b ∷ cs) = 200

  -- All that is written to the body.
  abbrev pub written_body : List Call → Bytes
  written_body [] = []
  written_body (writes b ∷ cs) = b ++ written_body cs
  written_body (_ ∷ cs) = written_body cs

  call_later :
      (c : Call) (r : ResponseRecorder)
      → r.wrote_header ≡ true
      → ((call c r).status_code ≡ r.status_code) × ((call c r).wrote_header ≡ true)
  unfolding call header_set header_add write_header write
  call_later (sets name value) r w = (refl, w)
  call_later (adds name value) r w = (refl, w)
  call_later (writes_header code) r w = rw (call, write_header, w) (refl, refl)
  call_later (writes b) r w = rw (call, write, w) (refl, refl)

  calls_later :
      (cs : List Call) (r : ResponseRecorder)
      → r.wrote_header ≡ true
      → (calls cs r).status_code ≡ r.status_code
  unfolding calls
  calls_later [] r w = refl
  calls_later (c ∷ cs) r w = let h = call_later c r w in calls_later cs (call c r) h.1 ∙ h.0

  calls_status :
      (cs : List Call) (r : ResponseRecorder)
      → r.wrote_header ≡ false
      → r.status_code ≡ 200
      → (calls cs r).status_code ≡ first_status cs
  unfolding calls call header_set header_add write_header write clamp_status_code
  calls_status [] r w s = s
  calls_status (sets name value ∷ cs) r w s = calls_status cs (header_set lib name value r) w s
  calls_status (adds name value ∷ cs) r w s = calls_status cs (header_add lib name value r) w s
  calls_status (writes_header code ∷ cs) r w s =
      calls_later cs (write_header code r) (rw (write_header, w) refl) ∙ rw (write_header, w) refl
  calls_status (writes b ∷ cs) r w s =
      calls_later cs (write b r) (rw (write, w) refl) ∙ rw (write, w) refl

  write_header_body : (code : ℤ) (r : ResponseRecorder) → (write_header code r).body ≡ r.body
  unfolding write_header
  write_header_body code r = elim (Bool-cases r.wrote_header) [
    | inl e ↦ rw (write_header, e) refl
    | inr e ↦ rw (write_header, e) refl
  ]

  write_body : (b : Bytes) (r : ResponseRecorder) → (write b r).body ≡ r.body ++ b
  unfolding write write_header
  write_body b r = elim (Bool-cases r.wrote_header) [
    | inl e ↦ rw (write, e) refl
    | inr e ↦ rw (write, write_header, e) refl
  ]

  calls_body :
      (cs : List Call) (r : ResponseRecorder) → (calls cs r).body ≡ r.body ++ written_body cs
  unfolding calls call header_set header_add write_header write
  calls_body [] r = sym (append-nil r.body)
  calls_body (sets name value ∷ cs) r = calls_body cs (header_set lib name value r)
  calls_body (adds name value ∷ cs) r = calls_body cs (header_add lib name value r)
  calls_body (writes_header code ∷ cs) r =
      calls_body cs (write_header code r)
      ∙ ap (λ x. x ++ written_body cs) (write_header_body code r)
  calls_body (writes b ∷ cs) r =
      calls_body cs (write b r)
      ∙ ap (λ x. x ++ written_body cs) (write_body b r)
      ∙ append_assoc r.body b (written_body cs)

  first_status_bounds : (cs : List Call) → (100 ≤ first_status cs) × (first_status cs ≤ 999)
  unfolding clamp_status_code
  first_status_bounds [] = (omega arith, omega arith)
  first_status_bounds (sets name value ∷ cs) = first_status_bounds cs
  first_status_bounds (adds name value ∷ cs) = first_status_bounds cs
  first_status_bounds (writes_header (pos m) ∷ cs) = (ground arith, ground arith)
  first_status_bounds (writes_header (negsuc m) ∷ cs) = (omega arith, omega arith)
  first_status_bounds (writes b ∷ cs) = (omega arith, omega arith)

  -- Whatever a handler does with a fresh recorder, the first status counts, 200 before a body, and
  -- the body is all that was written; the status is one that net/http accepts, from 100 to 999.
  calls_lem :
      (cs : List Call)
      → let r = calls cs new_response_recorder in
        (r.status_code ≡ first_status cs)
        × (r.body ≡ written_body cs)
        × (100 ≤ r.status_code)
        × (r.status_code ≤ 999)
  calls_lem cs =
      let s = calls_status cs new_response_recorder refl refl in
      let b = first_status_bounds cs in
      (s, calls_body cs new_response_recorder, omega (arith, s, b.0), omega (arith, s, b.1))
