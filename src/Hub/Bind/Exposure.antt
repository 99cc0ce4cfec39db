-- ===== src/Hub/Bind/Exposure.antt =====
-- Which hosts the hub binds to without TLS.
use mathlib.Core.Path.{subst}
use sentinalysis.Base.{
  Bool, Bool-cases, Option, Text, ap, arith, codes, false, inl, inr, leb, none, refl, some, sym,
  text_eq, text_eq_iff, true, ℕ, ◌&&◌, ◌*◌, ◌+◌, ◌/◌, ◌<◌, ◌==◌, ◌^◌, ◌||◌, ◌↔◌, ◌∙◌, ◌≡◌, ◌⊎◌,
}
use sentinalysis.Base.Results.{Result, err, is_ok, ok}
use sentinalysis.Hub.Bind.{
  BindError, HubConfig, IpAddr, check_host, check_ip, check_parsed, is_loopback, is_tailscale,
  localhost, parse_host, v4, v6, validate_bind_security,
}

-- An IPv4 address as a number of 32 bits.
abbrev pub bits : ℕ → ℕ → ℕ → ℕ → ℕ
bits o1 o2 o3 o4 = o1 * 2 ^ 24 + o2 * 2 ^ 16 + o3 * 2 ^ 8 + o4

-- An address of octets.
abbrev pub IsAddress : IpAddr → Type 0
IsAddress (v4 o1 o2 o3 o4) = (o1 < 256) × (o2 < 256) × (o3 < 256) × (o4 < 256)
IsAddress (v6 n) = Unit

-- In 127.0.0.0/8 or 100.64.0.0/10, or the IPv6 loopback address.
abbrev pub IsInternal : IpAddr → Type 0
IsInternal (v4 o1 o2 o3 o4) =
    (bits o1 o2 o3 o4 / 2 ^ 24 ≡ 127) ⊎ (bits o1 o2 o3 o4 / 2 ^ 22 ≡ bits 100 64 0 0 / 2 ^ 22)
IsInternal (v6 n) = n ≡ 1

-- A host that keeps plain text off public networks.
pub data IsPrivate (parse : Text → Option IpAddr) (host : Text) : Type 0 where
  is_localhost : host ≡ localhost → IsPrivate parse host
  is_internal : (ip : IpAddr) → parse host ≡ some ip → IsInternal ip → IsPrivate parse host

first_octet : (o1 o2 o3 o4 : ℕ) → IsAddress (v4 o1 o2 o3 o4) → bits o1 o2 o3 o4 / 2 ^ 24 ≡ o1
first_octet o1 o2 o3 o4 h = omega (arith, h.0, h.1, h.2, h.3)

ten_bits :
    (o1 o2 o3 o4 : ℕ) → IsAddress (v4 o1 o2 o3 o4) → bits o1 o2 o3 o4 / 2 ^ 22 ≡ o1 * 4 + o2 / 64
ten_bits o1 o2 o3 o4 h = omega (arith, h.0, h.1, h.2, h.3)

-- The test of the octets is the test of the prefixes.
octets_iff :
    (o1 o2 : ℕ)
    → o2 < 256
    → ((o1 == 127 || o1 == 100 && (leb 64 o2 && leb o2 127)) ≡ true)
      ↔ ((o1 ≡ 127) ⊎ (o1 * 4 + o2 / 64 ≡ 401))
octets_iff o1 o2 h = ground arith

IsInternal-iff :
    (ip : IpAddr) → IsAddress ip → ((is_loopback ip || is_tailscale ip) ≡ true) ↔ IsInternal ip
unfolding is_tailscale
IsInternal-iff (v4 o1 o2 o3 o4) h =
    rw (first_octet o1 o2 o3 o4 h, ten_bits o1 o2 o3 o4 h) (octets_iff o1 o2 h.1)
IsInternal-iff (v6 n) h = ground arith

is_ok-check_ip :
    (name host : Text) (warned : Bool) (ip : IpAddr)
    → is_ok (check_ip name host warned ip) ≡ (is_loopback ip || is_tailscale ip)
unfolding check_ip
is_ok-check_ip name host warned ip = elim (Bool-cases (is_loopback ip)) [
  | inl e ↦ rw e refl
  | inr e ↦ elim (Bool-cases (is_tailscale ip)) [ inl k ↦ rw (e, k) refl | inr k ↦ rw (e, k) refl ]
]

module _ (parse : Text → Option IpAddr)
    (addresses : (host : Text) (ip : IpAddr) → parse host ≡ some ip → IsAddress ip) where
  -- A host other than "localhost" is private only by its address.
  IsInternal-of :
      (host : Text) (found : Option IpAddr)
      → text_eq host localhost ≡ false
      → parse host ≡ found
      → IsPrivate parse host
      → (ip : IpAddr) × (found ≡ some ip) × IsInternal ip
  IsInternal-of host found h p (is_localhost e) =
      absurd (ground (arith, (text_eq_iff host localhost).1 e))
  IsInternal-of host found h p (is_internal ip q i) = (ip, sym p ∙ q, i)

  check_parsed_iff :
      (name host : Text) (warned : Bool) (found : Option IpAddr)
      → text_eq host localhost ≡ false
      → parse host ≡ found
      → (is_ok (check_parsed name host warned found) ≡ true) ↔ IsPrivate parse host
  unfolding check_parsed
  check_parsed_iff name host warned none h p = rw h (
    λ e. absurd (cc),
    λ private. let (ip, none_found, i) = IsInternal-of host none h p private in absurd (cc),
  )
  check_parsed_iff name host warned (some ip) h p =
      let tests = IsInternal-iff ip (addresses host ip p) in
      rw (is_ok-check_ip name host warned ip) (
        λ e. is_internal ip p (tests.0 e),
        λ private.
            let (other, found, i) = IsInternal-of host (some ip) h p private in
            let same : other ≡ ip = cc in tests.1 (subst IsInternal same i),
      )

  check_host_iff :
      (name host : Text) (warned : Bool)
      → (is_ok (check_host parse name host (ok warned)) ≡ true) ↔ IsPrivate parse host
  unfolding check_host parse_host
  check_host_iff name host warned = elim (Bool-cases (text_eq host localhost)) [
    | inl e ↦ rw e (λ h. is_localhost ((text_eq_iff host localhost).0 e), λ h. refl)
    | inr e ↦ rw e (check_parsed_iff name host warned (parse host) e refl)
  ]

  hosts_iff :
      (hub : HubConfig) (first : Result BindError Bool)
      → check_host parse (codes "grpc_host") hub.grpc_host (ok false) ≡ first
      → (is_ok (check_host parse (codes "rest_host") hub.rest_host first) ≡ true)
        ↔ (IsPrivate parse hub.grpc_host × IsPrivate parse hub.rest_host)
  hosts_iff hub (err e) h = (
    λ k. absurd (unfold check_host in cc),
    λ (grpc, rest).
        let good = (check_host_iff (codes "grpc_host") hub.grpc_host false).1 grpc in
        let bad = ap is_ok h in absurd (cc),
  )
  hosts_iff hub (ok warned) h = (
    λ k. (
      (check_host_iff (codes "grpc_host") hub.grpc_host false).0 (ap is_ok h),
      (check_host_iff (codes "rest_host") hub.rest_host warned).0 k,
    ),
    λ (grpc, rest). (check_host_iff (codes "rest_host") hub.rest_host warned).1 rest,
  )

  -- The guard lets the hub start exactly when TLS is enabled or both hosts are "localhost", a
  -- loopback address or an address in 100.64.0.0/10, for a parser that yields octets.
  pub validate_bind_security_iff :
      (hub : HubConfig)
      → (is_ok (validate_bind_security parse hub) ≡ true) ↔ (
          (hub.tls_enabled ≡ true)
          ⊎ (IsPrivate parse hub.grpc_host × IsPrivate parse hub.rest_host))
  unfolding validate_bind_security
  validate_bind_security_iff hub = elim (Bool-cases hub.tls_enabled) [
    | inl e ↦ rw e (λ h. inl refl, λ h. refl)
    | inr e ↦
        let both = hosts_iff hub _ refl in
        rw e (λ h. inr (both.0 h), λ h. elim h [ inl never ↦ absurd (cc) | inr k ↦ both.1 k ])
  ]
