-- ===== src/Artifact/HttpClient/Tests.antt =====
-- The dialer on a network whose default lookup knows no name: the state counts the dials.
use desktop_hypervisor_mcp.Base.{
  ℕ, ◌+◌, true, ◌≡◌, refl, List, [], ◌∷◌, ◌++◌, ◌⊎◌, ◌↔◌, if◌then◌else◌,
}
use desktop_hypervisor_mcp.Base.Text.{Text, text, ◌==◌}
use desktop_hypervisor_mcp.Provider.Errors.{Error, dns, message, ok, err}
use desktop_hypervisor_mcp.Artifact.HttpClient.{
  Network, is_dns_not_found, dial_addresses, dial_found, dial_again, dial_with_fallback,
}
use desktop_hypervisor_mcp.Artifact.HttpClient.Dialed.{
  IsFound, IsFirstAnswer, dial_with_fallback_iff,
}

abbrev behind_nat : Network
behind_nat = record {
  State = ℕ;
  Conn = Text;
  dial = λ network addr n. (
    if addr == text "a:1"
        then err (dns (text "no such host") true)
        else if addr == text "x:1"
        then err (message (text "refused"))
        else ok addr,
    n + 1,
  );
  lookup = λ host n. (ok (text "x" ∷ text "y" ∷ text "z" ∷ []), n);
  split_host_port = λ addr. ok (text "a", text "1");
  join_host_port = λ host port. host ++ (text ":" ++ port);
}

second_dialed : dial_with_fallback behind_nat (text "tcp") (text "a:1") 0 ≡ (ok (text "y:1"), 3)
unfolding dial_with_fallback dial_again dial_found dial_addresses is_dns_not_found text ◌==◌
second_dialed = refl

dial_with_fallback_iff_example :
    (dial_with_fallback behind_nat (text "tcp") (text "a:1") 0 ≡ (ok (text "y:1"), 3)) ↔ (
      (behind_nat.dial (text "tcp") (text "a:1") 0 ≡ (ok (text "y:1"), 3))
      ⊎ ((e : Error) × (u : ℕ) × (host port : Text) × (ips : List Text) × (v : ℕ) × (behind_nat.dial
              (text "tcp")
              (text "a:1")
              0
            ≡ (err e, u))
          × IsFound behind_nat (text "a:1") e u host port ips v
          × IsFirstAnswer behind_nat (text "tcp") port ips e v (text "y:1") 3))
dial_with_fallback_iff_example =
    dial_with_fallback_iff behind_nat (text "tcp") (text "a:1") 0 (text "y:1") 3
