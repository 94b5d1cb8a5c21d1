-- ===== src/IpDetect.antt =====
-- interactsh-srv/oobsrv/ipdetect.go: the addresses of a configuration, and the detection of those of
-- the host over what the network answers.
use interactsh_lite.Dns.Answer.{ServerIps}
use interactsh_lite.Prelude.Text.{Unicode, trim_space}
use interactsh_lite.Prelude.{
  ℕ, Bool, true, false, not, ◌&&◌, ◌||◌, Option, none, some, List, [], ◌∷◌, any, ◌==◌,
  if◌then◌else◌, Bytes, is_some, ◌≡◌, inl, inr, arith, Option-cases, Bool-cases,
}

-- `net.ParseIP`, and the methods `To4`, `Equal`, `IsGlobalUnicast` and `IsPrivate`.
pub record IpLibrary : Type 0 where
  pub parse_ip : Bytes → Option Bytes
  pub to4 : Bytes → Option Bytes
  pub equal_ip : Bytes → Bytes → Bool
  pub is_global_unicast : Bytes → Bool
  pub is_private : Bytes → Bool

-- What the host and the network answer: the addresses of the interfaces, and for one family the
-- status and the body of the external service, and the local address of a UDP connection.
pub record Network : Type 0 where
  pub interface_addrs : Option (List Bytes)
  pub external : Option (ℕ × Option Bytes)
  pub udp_host : Option Bytes

module _ (u : Unicode) (lib : IpLibrary) where
  abbrev pub as_v4 : Bytes → Bytes
  as_v4 ip = elim (lib.to4 ip) [ none ↦ ip | some v4 ↦ v4 ]

  unfoldable pub classify_ips : List Bytes → ServerIps
  unfolding trim_space
  classify_ips [] = record { ipv4 = []; ipv6 = [] }
  classify_ips (s ∷ ss) =
      let rest = classify_ips ss in
      elim (lib.parse_ip (trim_space u s)) [
        | none ↦ rest
        | some ip ↦ elim (lib.to4 ip) [
          | some v4 ↦ record { ipv4 = v4 ∷ rest.ipv4; ipv6 = rest.ipv6 }
          | none ↦ record { ipv4 = rest.ipv4; ipv6 = ip ∷ rest.ipv6 }
        ]
      ]

  unfoldable pub validate_local_ip : Network → Bytes → Bool
  validate_local_ip net ip = elim net.interface_addrs [
    | none ↦ false
    | some addrs ↦ any (λ a. lib.equal_ip a ip) addrs
  ]

  unfoldable pub detect_ip_external : Network → Option Bytes
  unfolding trim_space
  detect_ip_external net = elim net.external [
    | none ↦ none
    | some (status, none) ↦ none
    | some (status, some body) ↦
        if not (status == 200)
        then none
        else elim (lib.parse_ip (trim_space u body)) [ none ↦ none | some ip ↦ some (as_v4 ip) ]
  ]

  unfoldable pub is_usable_public_ip : Bytes → Bool
  is_usable_public_ip ip = lib.is_global_unicast ip && not (lib.is_private ip)

  unfoldable pub detect_ip_udp : Network → Option Bytes
  detect_ip_udp net = elim net.udp_host [
    | none ↦ none
    | some host ↦ elim (lib.parse_ip host) [ none ↦ none | some ip ↦ some (as_v4 ip) ]
  ]

  unfoldable pub detect_public_udp : Network → Option Bytes
  unfolding detect_ip_udp is_usable_public_ip validate_local_ip
  detect_public_udp net = elim (detect_ip_udp net) [
    | none ↦ none
    | some ip ↦
        if not (is_usable_public_ip ip) || not (validate_local_ip net ip) then none else some ip
  ]

  -- `detectIPv4` and `detectIPv6`, each with its network.
  unfoldable pub detect_ip : Network → Option Bytes
  unfolding detect_ip_external validate_local_ip detect_public_udp
  detect_ip net = elim (detect_ip_external net) [
    | none ↦ detect_public_udp net
    | some ip ↦ if validate_local_ip net ip then some ip else detect_public_udp net
  ]

  abbrev one : Option Bytes → List Bytes
  one none = []
  one (some ip) = ip ∷ []

  -- The addresses, and whether there was an error.
  unfoldable pub detect_ips : Network → Network → ServerIps × Bool
  unfolding detect_ip
  detect_ips net4 net6 =
      let v4 = detect_ip net4 in
      let v6 = detect_ip net6 in
      (record { ipv4 = one v4; ipv6 = one v6 }, not (is_some v4) && not (is_some v6))

  detect_public_udp-local :
      (net : Network) (ip : Bytes)
      → detect_public_udp net ≡ some ip
      → validate_local_ip net ip ≡ true
  unfolding detect_public_udp
  detect_public_udp-local net ip h = elim (Option-cases (detect_ip_udp net)) [
    | inl e ↦ absurd (ground (arith, e, h))
    | inr (x, e) ↦ ground (arith, e, h)
  ]

  -- An address that is detected is one of the host's own, whatever the external service says.
  detect_ip-local :
      (net : Network) (ip : Bytes) → detect_ip net ≡ some ip → validate_local_ip net ip ≡ true
  unfolding detect_ip
  detect_ip-local net ip h = elim (Option-cases (detect_ip_external net)) [
    | inl e ↦ detect_public_udp-local net ip (ground (arith, e, h))
    | inr (x, e) ↦ elim (Bool-cases (validate_local_ip net x)) [
      | inl l ↦ ground (arith, e, l, h)
      | inr l ↦ detect_public_udp-local net ip (ground (arith, e, l, h))
    ]
  ]
