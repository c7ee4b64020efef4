-- ===== src/VirtualBox/Network/Leased.antt =====
-- Where the address that `IP` returns comes from.
use desktop_hypervisor_mcp.Base.{
  true, false, Option, none, some, List, [], ◌∷◌, ◌++◌, ◌≡◌, refl, sym, ap, ◌∙◌, subst, ◌⊎◌, inl,
  inr, arith, Bool-cases, Option-cases,
}
use desktop_hypervisor_mcp.Base.Text.{Text, text, is_empty}
use desktop_hypervisor_mcp.Provider.Errors.{M, Result, ok, err, >>=-eq-ok, Result-cases}
use desktop_hypervisor_mcp.Provider.Host.{Host}
use desktop_hypervisor_mcp.Provider.Patterns.{Patterns}
use desktop_hypervisor_mcp.VirtualBox.Network.{
  in_output, printed_or_nothing, found_or, find_lease, lease_on_any, ip_on_any, ip_on, ip_by_mac,
  leased_vm_ip, vm_ip,
}
use desktop_hypervisor_mcp.VirtualBox.Run.{run}

in_output-eq-some :
    (find : Text → Option Text) (r : Result Text) (a : Text)
    → in_output find r ≡ some a
    → (out : Text) × (r ≡ ok out) × (find out ≡ some a)
in_output-eq-some find (ok out) a h = (out, refl, h)
in_output-eq-some find (err e) a h = cc

in_output-eq-none :
    (find : Text → Option Text) (r : Result Text)
    → in_output find r ≡ none
    → (out : Text) → r ≡ ok out
    → find out ≡ none
in_output-eq-none find (ok a) h out e = let same : a ≡ out = cc in subst (λ x. find x ≡ none) same h
in_output-eq-none find (err x) h out e = cc e

found_or-eq-ok :
    (complaint ip : Text) (o : Option Text) → found_or complaint o ≡ ok ip → o ≡ some ip
unfolding found_or
found_or-eq-ok complaint ip (some a) h = cc
found_or-eq-ok complaint ip none h = cc

module _ (H : Host) (P : Patterns) where
  abbrev pub addresses_query : Text → List Text
  addresses_query vm =
      text "guestproperty" ∷ text "get" ∷ vm ∷ text "/VirtualBox/GuestInfo/Net/0/V4/IP" ∷ []

  -- The Guest Additions of the VM answered with the address.
  abbrev pub IsAnswered : Text → H.State → Text → Type 0
  IsAnswered vm s ip =
      (out : Text) × ((run H (addresses_query vm) s).0 ≡ ok out) × (P.value_of out ≡ some ip)

  -- They answered with no address.
  abbrev pub IsUnanswered : Text → H.State → Type 0
  IsUnanswered vm s =
      (out : Text) → (run H (addresses_query vm) s).0 ≡ ok out → P.value_of out ≡ none

  -- The DHCP server of the network, asked on the host as it is then, has a lease of the address for
  -- the MAC.
  abbrev pub IsLeased : Text → Text → H.State → Text → Type 0
  IsLeased mac network u ip =
      (out : Text) × ((find_lease H P mac network u).0 ≡ ok out) × (P.lease_of out ≡ some ip)

  -- It has no lease for the MAC.
  abbrev pub IsUnleased : Text → Text → H.State → Type 0
  IsUnleased mac network u =
      (out : Text) → (find_lease H P mac network u).0 ≡ ok out → P.lease_of out ≡ none

  -- The first of the networks, asked in their order, that has a lease for the MAC has this one.
  abbrev pub IsFirstLease : Text → List Text → H.State → Text → Type 0
  IsFirstLease mac [] u ip = ⊥
  IsFirstLease mac (network ∷ networks) u ip =
      IsLeased mac network u ip
      ⊎ IsUnleased mac network u × IsFirstLease mac networks (find_lease H P mac network u).1 ip

  abbrev pub described_by : Text → M H.State Text
  described_by vm = run H (text "showvminfo" ∷ vm ∷ text "--machinereadable" ∷ [])

  abbrev pub listed_by : M H.State Text
  listed_by = run H (text "natnetwork" ∷ text "list" ∷ [])

  -- The address is leased for the MAC: on the network that was named, or on the first of the listed
  -- ones that has a lease, where none was named.
  abbrev pub IsSearched : Text → Text → H.State → Text → Type 0
  IsSearched mac named u ip =
      (is_empty named ≡ false) × IsLeased mac named u ip
      ⊎ (is_empty named ≡ true)
        × IsFirstLease mac (P.network_names (printed_or_nothing (listed_by u).0)) (listed_by u).1 ip

  -- The address is leased for the MAC in the description of the VM, which is asked for first.
  abbrev pub IsFoundByMac : Text → Text → H.State → Text → Type 0
  IsFoundByMac vm named t ip =
      (info mac : Text) × ((described_by vm t).0 ≡ ok info)
      × (P.mac_in info ≡ some mac)
      × IsSearched mac named (described_by vm t).1 ip

  lease_on_any-eq-some :
      (mac : Text) (networks : List Text) (ip : Text) (s : H.State)
      → (lease_on_any H P mac networks s).0 ≡ some ip
      → IsFirstLease mac networks s ip
  unfolding lease_on_any
  lease_on_any-eq-some mac [] ip s h = cc
  lease_on_any-eq-some mac (network ∷ networks) ip s h =
      let found = in_output P.lease_of (find_lease H P mac network s).0 in
      elim (Option-cases found) [
        | inr (a, e) ↦
            let same : a ≡ ip = ground arith in
            inl
              (in_output-eq-some P.lease_of (find_lease H P mac network s).0 ip (e ∙ ap some same))
        | inl e ↦ inr (
          in_output-eq-none P.lease_of (find_lease H P mac network s).0 e,
          lease_on_any-eq-some mac networks ip (find_lease H P mac network s).1 (ground arith),
        )
      ]

  ip_on-eq-ok :
      (vm named mac ip : Text) (s : H.State)
      → (ip_on H P vm named mac s).0 ≡ ok ip
      → IsLeased mac named s ip
  unfolding ip_on
  ip_on-eq-ok vm named mac ip s h = elim (Result-cases (find_lease H P mac named s).0) [
    | inr (e, failed) ↦ absurd (ground arith)
    | inl (out, went) ↦ (
      out,
      went,
      found_or-eq-ok (text "no lease for " ++ (vm ++ (text " on " ++ named))) ip _ (ground arith),
    )
  ]

  ip_by_mac-eq-ok :
      (vm named mac ip : Text) (s : H.State)
      → (ip_by_mac H P vm named (some mac) s).0 ≡ ok ip
      → IsSearched mac named s ip
  unfolding ip_by_mac ip_on_any
  ip_by_mac-eq-ok vm named mac ip s h = elim (Bool-cases (is_empty named)) [
    | inl none_named ↦ inr (
      none_named,
      lease_on_any-eq-some mac _ ip _ (
          found_or-eq-ok
            (text "no lease found for "
              ++ (vm ++ text " on any NAT network (guest may still be booting)"))
            ip _ (ground arith)),
    )
    | inr given ↦ inl (given, ip_on-eq-ok vm named mac ip s (ground arith))
  ]

  no_mac-fails : (vm named ip : Text) (s : H.State) → (ip_by_mac H P vm named none s).0 ≡ ok ip → ⊥
  unfolding ip_by_mac
  no_mac-fails vm named ip s h = cc h

  leased_vm_ip-IsFoundByMac :
      (vm named ip : Text) (s : H.State)
      → (leased_vm_ip H P vm named s).0 ≡ ok ip
      → IsFoundByMac vm named s ip
  unfolding leased_vm_ip
  leased_vm_ip-IsFoundByMac vm named ip s h =
      let (info, u, asked, h1) =
        >>=-eq-ok (described_by vm) _ s (ap (λ r. (r, (leased_vm_ip H P vm named s).1)) h) in
      let by_mac = λ (o : Option Text) (e : P.mac_in info ≡ o).
        subst (λ m. (ip_by_mac H P vm named m u).0 ≡ ok ip) e (ap (λ p. p.0) h1) in
      elim (Option-cases (P.mac_in info)) [
        | inl e ↦ absurd (no_mac-fails vm named ip u (by_mac none e))
        | inr (mac, e) ↦ (
          info,
          mac,
          ap (λ p. p.0) asked,
          e,
          subst (λ v. IsSearched mac named v ip) (sym (ap (λ p. p.1) asked))
              (ip_by_mac-eq-ok vm named mac ip u (by_mac (some mac) e)),
        )
      ]

  -- An address that `IP` returns is the one that the VM's Guest Additions answered with, or, where
  -- they answered with none, one that the DHCP server has leased for the MAC in the description of
  -- the VM: on the network that was named, or on the first of the listed ones that has a lease where
  -- none was named.
  pub vm_ip-IsFound :
      (vm named ip : Text) (s : H.State)
      → (vm_ip H P vm named s).0 ≡ ok ip
      → IsAnswered vm s ip
        ⊎ IsUnanswered vm s × IsFoundByMac vm named (run H (addresses_query vm) s).1 ip
  unfolding vm_ip
  vm_ip-IsFound vm named ip s h =
      let (r, t) = run H (addresses_query vm) s in
      elim (Option-cases (in_output P.value_of r)) [
        | inl e ↦ inr (
          in_output-eq-none P.value_of r e,
          leased_vm_ip-IsFoundByMac vm named ip t (ground arith),
        )
        | inr (a, e) ↦
            let same : a ≡ ip = ground arith in
            inl (in_output-eq-some P.value_of r ip (e ∙ ap some same))
      ]
