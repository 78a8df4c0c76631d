-- ===== src/Config/Tunnel/Checks.antt =====
-- What the checks of internal/tunnel/config/config.go let through.
use hyrule_network_proxy.Prelude.{
  ◌≤◌, ◌≡◌, ◌≢◌, ◌↔◌, refl, sym, subst, false, ◌||◌, Option, none, some, List, [], ◌∷◌, length,
  ltb_ℤ, ℤ, pos, ◌≤ℤ◌, ◌<ℤ◌, Bytes, bytes, arith, Bool-cases, Option-cases, inl, inr,
}
use hyrule_network_proxy.Config.Environment.{Environment, getenv}
use hyrule_network_proxy.Config.Tunnel.{
  Network, Config, loaded, before_zone, any_unspecified, host_is_wildcard, is_wildcard_addr,
  checked_range, parse_port_range, read_config, first_error, loaded_with, load,
}

module _ {Addr : Type 0} (net : Network Addr) where
  -- No text that is an address is the unspecified one.
  abbrev pub AllSpecified : List Bytes → Type 0
  AllSpecified [] = Unit {0}
  AllSpecified (a ∷ rest) =
      ((ip : Addr) → net.parse_ip a ≡ some ip → net.is_unspecified ip ≡ false) × AllSpecified rest

  abbrev pub IsSpecified : Bytes → Option Addr → Type 0
  IsSpecified host (some ip) = net.is_unspecified ip ≡ false
  IsSpecified host none =
      (addrs : List Bytes) → net.lookup_host host ≡ some addrs → AllSpecified addrs

  -- The address names a host, which is not all interfaces, nor a name for all of them.
  abbrev pub IsInternal : Bytes → Type 0
  IsInternal addr =
      (host : Bytes) × (port : Bytes) × (net.split_host_port addr ≡ some (host, port))
      × (host ≢ [])
      × IsSpecified host (net.parse_ip (before_zone host))

  specified : (addrs : List Bytes) → any_unspecified net addrs ≡ false → AllSpecified addrs
  unfolding any_unspecified
  specified [] h = tt
  specified (a ∷ rest) h = elim (Option-cases (net.parse_ip a)) [
    | inl e ↦ (λ ip f. absurd (ground arith), specified rest (ground arith))
    | inr (x, e) ↦ (λ ip f. ground arith, specified rest (ground arith))
  ]

  not_unspecified : (addrs : List Bytes) → AllSpecified addrs → any_unspecified net addrs ≡ false
  unfolding any_unspecified
  not_unspecified [] a = refl
  not_unspecified (x ∷ rest) a = elim (Option-cases (net.parse_ip x)) [
    | inl e ↦ ground (arith, not_unspecified rest a.1)
    | inr (ip, e) ↦ ground (arith, not_unspecified rest a.1, a.0 ip e)
  ]

  host-IsSpecified :
      (host : Bytes) (o : Option Addr) → host_is_wildcard net host o ≡ false → IsSpecified host o
  host-IsSpecified host (some ip) h = h
  host-IsSpecified host none h = λ addrs e. specified addrs (ground arith)

  specified_host :
      (host : Bytes) (o : Option Addr) → IsSpecified host o → host_is_wildcard net host o ≡ false
  specified_host host (some ip) h = h
  specified_host host none h = elim (Option-cases (net.lookup_host host)) [
    | inl e ↦ ground arith
    | inr (addrs, e) ↦ ground (arith, not_unspecified addrs (h addrs e))
  ]

  internal : (addr : Bytes) → is_wildcard_addr net addr ≡ false → IsInternal addr
  unfolding is_wildcard_addr
  internal addr h = elim (Option-cases (net.split_host_port addr)) [
    | inl e ↦ absurd (ground arith)
    | inr ((host, port), e) ↦ (
      host,
      port,
      e,
      λ f. ground arith,
      host-IsSpecified host (net.parse_ip (before_zone host)) (ground arith),
    )
  ]

  not_wildcard : (addr : Bytes) → IsInternal addr → is_wildcard_addr net addr ≡ false
  unfolding is_wildcard_addr
  not_wildcard addr (host, port, e, full, safe) =
      ground (arith, specified_host host (net.parse_ip (before_zone host)) safe)

  -- What a configuration has to be for the daemon to start with it.
  pub record IsValid (cfg : Config) : Type 0 where
    pub token : 32 ≤ length cfg.auth_token
    pub endpoint : cfg.endpoint_host ≢ []
    pub control : IsInternal cfg.control_listen_addr
    pub metrics : IsInternal cfg.metrics_listen_addr
    pub min_lease : pos 0 <ℤ cfg.min_lease_seconds
    pub max_lease : cfg.min_lease_seconds ≤ℤ cfg.max_lease_seconds
    pub visitors : pos 0 <ℤ cfg.max_visitor_conns_per_lease
    pub attempts : pos 0 <ℤ cfg.auth_attempts_per_window
    pub window : pos 0 <ℤ cfg.auth_window

  valid : (cfg : Config) → first_error net cfg ≡ none → IsValid cfg
  unfolding first_error
  valid cfg h = record {
    token = ground arith;
    endpoint = λ e. ground arith;
    control = internal cfg.control_listen_addr (ground arith);
    metrics = internal cfg.metrics_listen_addr (ground arith);
    min_lease = ground arith;
    max_lease = ground arith;
    visitors = ground arith;
    attempts = ground arith;
    window = ground arith;
  }

  no_error : (cfg : Config) → IsValid cfg → first_error net cfg ≡ none
  unfolding first_error
  no_error cfg v =
      let c = not_wildcard cfg.control_listen_addr v.control in
      let m = not_wildcard cfg.metrics_listen_addr v.metrics in
      let t = v.token in ground (arith, v.endpoint)

  -- The range of the ports as it stands in the environment.
  abbrev pub IsRange : Environment → ℤ → ℤ → Type 0
  IsRange env lo hi =
      (net.scan_range (getenv env "HTP_DATA_PORT_RANGE" (bytes "10000-10499")) ≡ some (lo, hi))
      × (pos 1 ≤ℤ lo)
      × (lo ≤ℤ hi)
      × (hi ≤ℤ pos 65535)

  abbrev pub Expected : Environment → Config → Type 0
  Expected env cfg =
      (lo : ℤ) × (hi : ℤ) × IsRange env lo hi × (cfg ≡ read_config net env (lo, hi)) × IsValid cfg

  scanned :
      (env : Environment) (cfg : Config) (o : Option (ℤ × ℤ))
      → net.scan_range (getenv env "HTP_DATA_PORT_RANGE" (bytes "10000-10499")) ≡ o
      → loaded_with net env (checked_range o) ≡ loaded cfg
      → Expected env cfg
  scanned env cfg none e h = absurd (ground arith)
  scanned env cfg (some (lo, hi)) e h =
      elim (Bool-cases (ltb_ℤ lo (pos 1) || ltb_ℤ (pos 65535) hi || ltb_ℤ hi lo)) [
        | inl bad ↦ absurd (ground arith)
        | inr good ↦
            let c = read_config net env (lo, hi) in
            elim (Option-cases (first_error net c)) [
              | inr (x, f) ↦ absurd (ground arith)
              | inl f ↦
                  let same : c ≡ cfg = ground arith in
                  (
                    lo,
                    hi,
                    (e, ground arith, ground arith, ground arith),
                    sym same,
                    subst IsValid same (valid c f),
                  )
            ]
      ]

  pub load_valid_iff :
      (env : Environment) (cfg : Config) → (load net env ≡ loaded cfg) ↔ Expected env cfg
  unfolding load parse_port_range
  load_valid_iff env cfg = (λ h. scanned env cfg _ refl h, back)
    where
      back : Expected env cfg → load net env ≡ loaded cfg
      back (lo, hi, (e, low, order, high), same, v) =
          let none_found = no_error (read_config net env (lo, hi)) (subst IsValid same v) in
          ground arith
