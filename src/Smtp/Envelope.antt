-- ===== src/Smtp/Envelope.antt =====
-- What is kept of the session, and what is read from it.
use mathlib.Core.Option
use interactsh_lite.Smtp.{TeeConn, new_tee, tee_read, scan_path}
use interactsh_lite.Prelude.{
  ℕ, ◌-◌, zero, suc, Bool, true, false, not, ◌&&◌, Option, none, some, List, [], ◌∷◌, ◌++◌, ltb,
  ◌==◌, if◌then◌else◌, Bytes, length, take, take_all, if-elim, drop, ==_iff, ◌≡◌, refl, sym, ap,
  ◌∙◌, arith, Bool-cases, inl, inr,
}
use mathlib.Core.List.{append_assoc, append-nil}

-- Reads of the connection, one after the other.
abbrev pub tee_reads : ℕ → List Bytes → TeeConn → TeeConn
tee_reads max_buf [] t = t
tee_reads max_buf (p ∷ ps) t = tee_reads max_buf ps (tee_read max_buf p t)

abbrev pub stream : List Bytes → Bytes
stream [] = []
stream (p ∷ ps) = p ++ stream ps

take-extend : (n : ℕ) (a b : Bytes) → take n (a ++ b) ≡ take n a ++ take (n - length (take n a)) b
take-extend zero a b = refl
take-extend (suc n) [] b =
    let nothing : Bytes = [] in
    let e : suc n ≡ suc n - length (take (suc n) nothing) = omega arith in ap (λ k. take k b) e
take-extend (suc n) (c ∷ a) b =
    let e : n - length (take n a) ≡ suc n - suc (length (take n a)) = omega arith in
    ap (◌∷◌ c) (take-extend n a b) ∙ ap (λ k. c ∷ (take n a ++ take k b)) e

take_limit :
    (room : ℕ) (p : Bytes) → take (if ltb (length p) room then length p else room) p ≡ take room p
take_limit room p = elim (Bool-cases (ltb (length p) room)) [
  | inl e ↦ rw e (take_all (length p) p (omega arith) ∙ sym (take_all room p (ground (arith, e))))
  | inr e ↦ rw e refl
]

-- The buffer with a cap of n, after bytes that were sent and further ones.
capped :
    (n : ℕ) (p sent : Bytes)
    → let buf = take n sent in
      let room = n - length buf in
      let limit = if ltb (length p) room then length p else room in
      (if ltb 0 (length p) && true && ltb (length buf) n then buf ++ take limit p else buf)
      ≡ take n (sent ++ p)
capped n [] sent = ap (take n) (sym (append-nil sent))
capped n (c ∷ p) sent =
    let buf = take n sent in
    let whole = take-extend n sent (c ∷ p) in
    let positive : ltb 0 (length (c ∷ p)) ≡ true = ground arith in
    elim (Bool-cases (ltb (length buf) n)) [
      | inl e ↦
          rw (positive, e) (ap (λ l. buf ++ l) (take_limit (n - length buf) (c ∷ p)) ∙ sym whole)
      | inr e ↦
          let full : n - length buf ≡ 0 = ground (arith, e) in
          rw (positive, e)
            (sym (append-nil buf) ∙ ap (λ k. buf ++ take k (c ∷ p)) (sym full) ∙ sym whole)
    ]

if_buf :
    (b : Bool) (x y : Bytes)
    → ◌≡◌ {A = TeeConn}
        (if b then record { buf = x; stopped = false } else record { buf = y; stopped = false })
        (record { buf = if b then x else y; stopped = false })
if_buf true x y = refl
if_buf false x y = refl

tee_read_buf :
    (n : ℕ) (p sent : Bytes)
    → tee_read n p (record { buf = take n sent; stopped = false })
      ≡ record { buf = take n (sent ++ p); stopped = false }
unfolding tee_read
tee_read_buf n p sent =
    let buf = take n sent in
    let room = n - length buf in
    let limit = if ltb (length p) room then length p else room in
    if_buf (ltb 0 (length p) && true && ltb (length buf) n) (buf ++ take limit p) buf
    ∙ ap (λ (s : Bytes). record { buf = s; stopped = false }) (capped n p sent)

tee_reads_buf :
    (n : ℕ) (ps : List Bytes) (sent : Bytes)
    → tee_reads n ps (record { buf = take n sent; stopped = false })
      ≡ record { buf = take n (sent ++ stream ps); stopped = false }
tee_reads_buf n [] sent =
    ap (λ (s : Bytes). record { buf = take n s; stopped = false }) (sym (append-nil sent))
tee_reads_buf n (p ∷ ps) sent =
    ap (tee_reads n ps) (tee_read_buf n p sent)
    ∙ tee_reads_buf n ps (sent ++ p)
    ∙ ap (λ (s : Bytes). record { buf = take n s; stopped = false })
        (append_assoc sent p (stream ps))

-- Until it is stopped, the copy of a connection is the front of all that was read, up to the cap.
tee_reads-stream :
    (max_buf : ℕ) (ps : List Bytes) → (tee_reads max_buf ps new_tee).buf ≡ take max_buf (stream ps)
tee_reads-stream zero ps = ap (λ (t : TeeConn). t.buf) (tee_reads_buf zero ps [])
tee_reads-stream (suc n) ps = ap (λ (t : TeeConn). t.buf) (tee_reads_buf (suc n) ps [])

-- A path, if one is found, is the front of the text, and a closing `>` stands behind it.
abbrev pub IsEnclosed : Bytes → Option Bytes → Type 0
IsEnclosed s none = Unit
IsEnclosed s (some path) = s ≡ path ++ (b'>' ∷ drop (suc (length path)) s)

IsEnclosed-map :
    (c : ℕ) (s : Bytes) (o : Option Bytes)
    → IsEnclosed s o
    → IsEnclosed (c ∷ s) (Option.map (λ r. c ∷ r) o)
IsEnclosed-map c s none h = tt
IsEnclosed-map c s (some r) h = ap (◌∷◌ c) h

IsEnclosed-map_two :
    (c d : ℕ) (s : Bytes) (o : Option Bytes)
    → IsEnclosed s o
    → IsEnclosed (c ∷ d ∷ s) (Option.map (λ r. c ∷ d ∷ r) o)
IsEnclosed-map_two c d s none h = tt
IsEnclosed-map_two c d s (some r) h = ap (λ l. c ∷ d ∷ l) h

-- The scan for a path stops only at a `>` that it does not count to the path.
scan_path-IsEnclosed : (in_quote : Bool) (s : Bytes) → IsEnclosed s (scan_path in_quote s)
unfolding scan_path
scan_path-IsEnclosed q [] = tt
scan_path-IsEnclosed q (c ∷ []) =
    if-elim (IsEnclosed (c ∷ [])) (c == b'>' && not q && not (c == b'"')) (some []) none
      (λ e. ap (λ x. x ∷ []) ((==_iff c b'>').0 (ground (arith, e)))) λ _. tt
scan_path-IsEnclosed q (c ∷ d ∷ s) =
    let P = IsEnclosed (c ∷ d ∷ s) in
    if-elim P (c == b'\\' && q) _ _ (λ _. IsEnclosed-map_two c d s _ (scan_path-IsEnclosed q s))
      λ _.
        (if-elim P (c == b'"') _ _
          (λ _. IsEnclosed-map c (d ∷ s) _ (scan_path-IsEnclosed (not q) (d ∷ s)))
          λ _.
            (if-elim P (c == b'>' && not q) _ _
              (λ e. ap (λ x. x ∷ d ∷ s) ((==_iff c b'>').0 (ground (arith, e))))
              λ _. (IsEnclosed-map c (d ∷ s) _ (scan_path-IsEnclosed q (d ∷ s)))))
