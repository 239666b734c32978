-- ===== src/Config/Trusted.antt =====
-- Which addresses are approved automatically.
use proxmox_license_proxy.Prelude.{
  Text, bytes, ◌&&◌, ◌||◌, ◌++◌, Bool, false, Option, none, some, Option-cases, List, [], ◌∷◌,
  trim_space, ◌≡◌, refl, ◌∙◌, inl, inr, arith, any, Bool-cases,
}
use proxmox_license_proxy.Result.{ok, >>=-returned}
use proxmox_license_proxy.Config.{
  Net, AutoApprove, AutoApproveSettings, allows, trusted_networks, parse_networks, cidrs_of,
  auto_approve_to_domain,
}

module _ (net : Net) where
  open net use {Addr, Prefix, is_valid, unmap, parse_prefix, masked, contains}

  -- The address lies in the network of a CIDR, if the text is one.
  abbrev covers : Addr → Option Prefix → Bool
  covers addr none = false
  covers addr (some p) = contains (masked p) addr

  abbrev pub lies_in : Addr → Text → Bool
  lies_in addr cidr = covers addr (parse_prefix (trim_space cidr))

  any-parse_networks :
      (addr : Addr) (cs : List Text) (ps : List Prefix)
      → parse_networks net cs ≡ ok ps
      → any (λ n. contains n addr) ps ≡ any (lies_in addr) cs
  unfolding parse_networks
  any-parse_networks addr [] ps h = ground arith
  any-parse_networks addr (c ∷ cs) ps h = elim (Option-cases (parse_prefix (trim_space c))) [
    | inl failed ↦ absurd (ground arith)
    | inr (p, parsed) ↦
        let (qs, rest, same) =
          >>=-returned (parse_networks net cs) (λ ps. ok (masked p ∷ ps))
            (rw (parsed, parse_networks) at h) in
        ground (arith, any-parse_networks addr cs qs rest, same, parsed)
  ]

  trusted_networks-allows :
      (cs : List Text) (s : AutoApproveSettings net) (addr : Addr)
      → trusted_networks net cs ≡ ok s
      → allows net s addr ≡ (is_valid addr && any (lies_in (unmap addr)) cs)
  unfolding allows
  trusted_networks-allows [] s addr h = cc
  trusted_networks-allows (c ∷ cs) s addr h =
      let (ps, parsed, same) = >>=-returned (parse_networks net (c ∷ cs)) _ h in
      ground (arith, any-parse_networks (unmap addr) (c ∷ cs) ps parsed)

  disabled-allows :
      (s : AutoApproveSettings net) (addr : Addr) → s.enabled ≡ false → allows net s addr ≡ false
  unfolding allows
  disabled-allows s addr e = ground arith

  -- The networks that are not routed on the internet: loopback, RFC 1918, unique local and link local.
  abbrev pub not_routed : List Text
  not_routed =
      bytes "10.0.0.0/8"
      ∷ bytes "172.16.0.0/12"
      ∷ bytes "192.168.0.0/16"
      ∷ bytes "169.254.0.0/16"
      ∷ bytes "127.0.0.0/8"
      ∷ bytes "::1/128"
      ∷ bytes "fc00::/7"
      ∷ bytes "fe80::/10"
      ∷ []

  any-append : (f : Text → Bool) (xs ys : List Text) → any f (xs ++ ys) ≡ (any f xs || any f ys)
  any-append f [] ys = refl
  any-append f (x ∷ xs) ys = ground (arith, any-append f xs ys)

  any-cidrs_of :
      (f : Text → Bool) (a : AutoApprove)
      → any f (cidrs_of net a) ≡ (any f a.networks || (a.private && any f not_routed))
  any-cidrs_of f a = elim (Bool-cases a.private) [
    | inl asked ↦ rw asked (ground (arith, any-append f not_routed a.networks))
    | inr configured ↦ rw configured (ground arith)
  ]

  -- The settings that a configuration converts to trust an address for automatic approval exactly
  -- when it is enabled, the address is valid, and it lies in one of the networks of the
  -- configuration or, where the private networks are asked for, in one of 10.0.0.0/8, 172.16.0.0/12,
  -- 192.168.0.0/16, 169.254.0.0/16, 127.0.0.0/8, ::1/128, fc00::/7 and fe80::/10.
  pub allows-auto_approve_to_domain :
      (a : AutoApprove) (s : AutoApproveSettings net) (addr : Addr)
      → auto_approve_to_domain net a ≡ ok s
      → allows net s addr ≡ (
          a.enabled
          && is_valid addr
          && (any (lies_in (unmap addr)) a.networks
              || (a.private && any (lies_in (unmap addr)) not_routed)))
  unfolding auto_approve_to_domain
  allows-auto_approve_to_domain a s addr h = elim (Bool-cases a.enabled) [
    | inl on ↦ ground (
      arith,
      trusted_networks-allows (cidrs_of net a) s addr,
      any-cidrs_of (lies_in (unmap addr)) a,
    )
    | inr off ↦ disabled-allows s addr (ground arith) ∙ rw off refl
  ]
