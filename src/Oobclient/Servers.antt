-- ===== src/Oobclient/Servers.antt =====
-- Which servers a registration tries, and what its success means.
use interactsh_lite.Oobclient.Registration.{
  Url, RegisterError, unauthorized, no_server, Attempt, refused, accepted, Network, Registrant,
  is_unauthorized, perform_registration, server_url, try_url, try_register_server, is_skipped,
  try_servers, failed_ips, nth, rotation, try_register_servers,
}
use interactsh_lite.Prelude.Text.{codes}
use interactsh_lite.Prelude.{
  ℕ, zero, suc, ◌+◌, ◌-◌, ◌%◌, ◌^◌, ◌≤◌, ◌<◌, true, false, not, ◌||◌, none, some, List, [], ◌∷◌,
  ◌++◌, Bytes, equal, equal_iff, length, take, drop, take_all, take-append-drop, length-drop, ◌≡◌,
  refl, sym, subst, ap, ◌∙◌, arith, Bool-cases, Option-cases, ◌⊎◌, inl, inr,
}

take-drop-nth :
    (i k : ℕ) (s : List Bytes)
    → i < length s
    → take (suc k) (drop i s) ≡ nth i s ∷ take k (drop (suc i) s)
take-drop-nth i k [] h = absurd (omega (arith, h))
take-drop-nth zero k (x ∷ s) h = refl
take-drop-nth (suc i) k (x ∷ s) h = take-drop-nth i k s (omega (arith, h))

module _ (servers : List Bytes) (start : ℕ) (below : start < length servers) where
  -- Before the end of the list, and from its beginning on.
  rotation_front :
      (i k : ℕ)
      → start + i + k ≤ length servers
      → rotation servers start i k ≡ take k (drop (start + i) servers)
  unfolding rotation
  rotation_front i zero h = refl
  rotation_front i (suc k) h =
      let same : (start + i) % length servers ≡ start + i = grind (arith, h) in
      let next : start + suc i ≡ suc (start + i) = omega arith in
      ap (λ j. nth j servers ∷ rotation servers start (suc i) k) same
      ∙ ap (◌∷◌ (nth (start + i) servers)) (rotation_front (suc i) k (omega (arith, h)))
      ∙ ap (λ j. nth (start + i) servers ∷ take k (drop j servers)) next
      ∙ sym (take-drop-nth (start + i) k servers (omega (arith, h)))

  rotation_back :
      (j k : ℕ)
      → j + k ≤ start
      → rotation servers start (length servers - start + j) k ≡ take k (drop j servers)
  unfolding rotation
  rotation_back j zero h = refl
  rotation_back j (suc k) h =
      let n = length servers in
      let same : (start + (n - start + j)) % n ≡ j = grind (arith, h, below) in
      let next : suc (n - start + j) ≡ n - start + suc j = omega arith in
      ap (λ x. nth x servers ∷ rotation servers start (suc (n - start + j)) k) same
      ∙ ap (λ x. nth j servers ∷ rotation servers start x k) next
      ∙ ap (◌∷◌ (nth j servers)) (rotation_back (suc j) k (omega (arith, h)))
      ∙ sym (take-drop-nth j k servers (omega (arith, h, below)))

rotation-add :
    (servers : List Bytes) (start i a b : ℕ)
    → rotation servers start i (a + b)
      ≡ rotation servers start i a ++ rotation servers start (i + a) b
unfolding rotation
rotation-add servers start i zero b =
    let e : 0 + b ≡ b = omega arith in
    let f : i ≡ i + 0 = omega arith in
    ap (rotation servers start i) e ∙ ap (λ j. rotation servers start j b) f
rotation-add servers start i (suc a) b =
    let x = nth ((start + i) % length servers) servers in
    let e : suc a + b ≡ suc (a + b) = omega arith in
    let f : suc i + a ≡ i + suc a = omega arith in
    ap (rotation servers start i) e
    ∙ ap (◌∷◌ x) (rotation-add servers start (suc i) a b)
    ∙ ap (λ j. x ∷ (rotation servers start (suc i) a ++ rotation servers start j b)) f

-- The indices `(start+i)%n` go once through the servers, from the one at `start` to the end and on
-- from the beginning.
rotation_lem :
    (servers : List Bytes) (start : ℕ)
    → start < length servers
    → rotation servers start 0 (length servers) ≡ drop start servers ++ take start servers
rotation_lem servers start h =
    let n = length servers in
    let front = n - start in
    let e : n ≡ front + start = omega (arith, h) in
    let at_zero : start + 0 ≡ start = omega arith in
    let at_end : 0 + front ≡ n - start + 0 = omega arith in
    ap (rotation servers start 0) e
    ∙ rotation-add servers start 0 front start
    ∙ ap (λ l. l ++ rotation servers start (0 + front) start)
        (rotation_front servers start h 0 front (omega (arith, h))
          ∙ ap (λ j. take front (drop j servers)) at_zero
          ∙ take_all front (drop start servers) (omega (arith, length-drop start servers)))
    ∙ ap (λ l. drop start servers ++ l)
        (ap (λ j. rotation servers start j start) at_end
          ∙ rotation_back servers start h 0 start (omega arith))

-- Some server of the list is as described.
abbrev pub Any : (Bytes → Type 0) → List Bytes → Type 0
Any P [] = ⊥
Any P (s ∷ ss) = P s ⊎ Any P ss

Any-append : (P : Bytes → Type 0) (a b : List Bytes) → Any P (a ++ b) → Any P a ⊎ Any P b
Any-append P [] b h = inr h
Any-append P (x ∷ a) b (inl h) = inl (inl h)
Any-append P (x ∷ a) b (inr h) = elim (Any-append P a b h) [ inl g ↦ inl (inr g) | inr g ↦ inr g ]

Any-left : (P : Bytes → Type 0) (a b : List Bytes) → Any P a → Any P (a ++ b)
Any-left P [] b h = absurd h
Any-left P (x ∷ a) b (inl h) = inl h
Any-left P (x ∷ a) b (inr h) = inr (Any-left P a b h)

Any-right : (P : Bytes → Type 0) (a b : List Bytes) → Any P b → Any P (a ++ b)
Any-right P [] b h = h
Any-right P (x ∷ a) b h = inr (Any-right P a b h)

Any-rotation :
    (P : Bytes → Type 0) (servers : List Bytes) (start : ℕ)
    → start < length servers
    → Any P (rotation servers start 0 (length servers))
    → Any P servers
Any-rotation P servers start h a =
    let front = take start servers in
    let back = drop start servers in
    subst (Any P) (take-append-drop start servers)
      (elim (Any-append P back front (subst (Any P) (rotation_lem servers start h) a)) [
        | inl b ↦ Any-right P front back b
        | inr b ↦ Any-left P front back b
      ])

module _ (net : Network) (c : Registrant) where
  -- A URL at which the server registered the client: the one given, or that of a fall-back from
  -- HTTPS to HTTP, where it is allowed.
  abbrev pub IsFallback : Url → Url → Type 0
  IsFallback parsed url =
      (c.disable_http_fallback ≡ false)
      × (parsed.scheme ≡ codes "https")
      × (url ≡ record parsed { scheme = codes "http" })

  abbrev pub IsRegistered : Url → Bytes → Type 0
  IsRegistered url server =
      (parsed : Url) × (net.parse_url (server_url net c server) ≡ some parsed)
      × (perform_registration net c url ≡ none)
      × ((url ≡ parsed) ⊎ IsFallback parsed url)

  -- What an attempt's outcome means for the URL tried.
  abbrev IsOutcome : Url → Attempt → Type 0
  IsOutcome parsed (refused e) = Unit
  IsOutcome parsed (accepted url) =
      (perform_registration net c url ≡ none) × ((url ≡ parsed) ⊎ IsFallback parsed url)

  try_url-IsOutcome : (parsed : Url) → IsOutcome parsed (try_url net c parsed)
  unfolding try_url
  try_url-IsOutcome parsed =
      let plain = record parsed { scheme = codes "http" } in
      let barred = c.disable_http_fallback || not (equal parsed.scheme (codes "https")) in
      elim (Option-cases (perform_registration net c parsed)) [
        | inl n ↦ rw (try_url, n) (n, inl refl)
        | inr (e, n) ↦ elim (Bool-cases barred) [
          | inl b ↦ rw (try_url, n, b) tt
          | inr b ↦ elim (Option-cases (perform_registration net c plain)) [
            | inr (e', n') ↦ rw (try_url, n, b, n') tt
            | inl n' ↦
                rw (try_url, n, b, n')
                  (
                    n',
                    inr (
                      ground (arith, b),
                      (equal_iff parsed.scheme (codes "https")).0 (ground (arith, b)),
                      refl,
                    ),
                  )
          ]
        ]
      ]

  try_register_server-IsRegistered :
      (server : Bytes) (url : Url)
      → try_register_server net c server ≡ accepted url
      → IsRegistered url server
  unfolding try_register_server
  try_register_server-IsRegistered server url e =
      elim (Option-cases (net.parse_url (server_url net c server))) [
        | inl n ↦ ground (arith, e, n)
        | inr (parsed, n) ↦
            let t : try_url net c parsed ≡ accepted url = ground (arith, e, n) in
            let o = subst (IsOutcome parsed) t (try_url-IsOutcome parsed) in (parsed, n, o.0, o.1)
      ]

  -- What the outcome of the loop tells about the servers.
  abbrev pub Explains : List Bytes → Attempt → Type 0
  Explains servers (accepted url) = Any (IsRegistered url) servers
  Explains servers (refused e) =
      (e ≡ no_server)
      ⊎ ((e ≡ unauthorized) × Any (λ s. try_register_server net c s ≡ refused unauthorized) servers)

  Explains-later : (s : Bytes) (ss : List Bytes) (a : Attempt) → Explains ss a → Explains (s ∷ ss) a
  Explains-later s ss (accepted url) h = inr h
  Explains-later s ss (refused e) (inl h) = inl h
  Explains-later s ss (refused e) (inr (u, h)) = inr (u, inr h)

  unauthorized_only : (e : RegisterError) → is_unauthorized e ≡ true → e ≡ unauthorized
  unauthorized_only e h = ground (arith, h)

  pub Attempt-cases :
      (a : Attempt) → ((url : Url) × (a ≡ accepted url)) ⊎ ((e : RegisterError) × (a ≡ refused e))
  Attempt-cases (accepted url) = inl (url, refl)
  Attempt-cases (refused e) = inr (e, refl)

  try_servers-Explains :
      (servers failed : List Bytes) → Explains servers (try_servers net c servers failed)
  unfolding try_servers
  try_servers-Explains [] failed = inl refl
  try_servers-Explains (s ∷ ss) failed =
      let later = λ (f : List Bytes).
        Explains-later s ss (try_servers net c ss f) (try_servers-Explains ss f) in
      elim (Bool-cases (is_skipped net c failed s)) [
        | inl k ↦ rw k (later failed)
        | inr k ↦ elim (Attempt-cases (try_register_server net c s)) [
          | inl (url, a) ↦ rw (k, a) (inl (try_register_server-IsRegistered s url a))
          | inr (e, a) ↦ elim (Bool-cases (is_unauthorized e)) [
            | inl u ↦
                let x = unauthorized_only e u in rw (k, a, u) (inr (x, inl (a ∙ ap refused x)))
            | inr u ↦ rw (k, a, u) (later (failed_ips net c s failed))
          ]
        ]
      ]

  -- If `tryRegisterServers` succeeds, one of the servers registered the client at the URL that it
  -- returns, which is not an HTTP fall-back if these are off; it fails with ErrUnauthorized only if
  -- one of them rejected the token, and otherwise with the joined errors.
  pub try_register_servers-Explains :
      (index : ℕ) (servers : List Bytes)
      → 0 < length servers
      → Explains servers (try_register_servers net c index servers)
  unfolding try_register_servers
  try_register_servers-Explains index servers h =
      let start = (index + 1) % 2 ^ 32 % length servers in
      let below : start < length servers = grind (arith, h) in
      let order = rotation servers start 0 (length servers) in
      whole start below (try_servers net c order []) (try_servers-Explains order [])
    where
      whole :
          (start : ℕ)
          → start < length servers
          → (a : Attempt) → Explains (rotation servers start 0 (length servers)) a
          → Explains servers a
      whole start below (accepted url) x = Any-rotation (IsRegistered url) servers start below x
      whole start below (refused e) (inl x) = inl x
      whole start below (refused e) (inr (u, x)) = inr (
        u,
        Any-rotation (λ s. try_register_server net c s ≡ refused unauthorized) servers start below
            x,
      )
