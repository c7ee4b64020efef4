-- ===== src/Artifact/HttpClient.antt =====
-- core/artifact/httpclient.go: the dialer of the shared HTTP client. The network (dialing, the
-- lookup over TCP, and how package net takes addresses apart and puts them together) is what the
-- code calls, so it is a record of operations on an unknown state.
pub mod Dialed
mod Tests
use desktop_hypervisor_mcp.Base.{
  Bool, true, false, ◌≡◌, List, [], ◌∷◌, ◌++◌, if◌then◌else◌, refl, ap, ◌≢◌, ◌⊎◌, inl, inr,
}
use desktop_hypervisor_mcp.Base.Text.{Text, text}
use desktop_hypervisor_mcp.Provider.Errors.{
  Error, message, wrap, unsupported, no_variant, not_exist, dns, Result, ok, err, M,
}

pub record Network : Type 1 where
  pub State : Type 0
  pub Conn : Type 0
  pub dial : Text → Text → M State Conn
  pub lookup : Text → M State (List Text)
  pub split_host_port : Text → Result (Text × Text)
  pub join_host_port : Text → Text → Text

-- `isDNSNotFound`: `errors.As` goes through the errors that are put into another one.
unfoldable pub is_dns_not_found : Error → Bool
is_dns_not_found (dns t not_found) = not_found
is_dns_not_found (wrap a e b) = is_dns_not_found e
is_dns_not_found _ = false

-- What the error says when the retry finds no address either.
unfoldable pub retry_failed : Error → Error
retry_failed e = wrap [] e (
    text
      " (retry over TCP DNS also failed; if this host is a VMware NAT guest its DNS proxy is likely at fault — point /etc/resolv.conf at a public nameserver, e.g. 'nameserver 1.1.1.1', and make sure GODEBUG does not re-enable EDNS0: this binary defaults to netedns0=0)")

module _ (N : Network) where
  -- The loop of `dialWithFallback` over the addresses of the lookup.
  unfoldable pub dial_addresses : Text → Text → Error → List Text → M N.State N.Conn
  dial_addresses network port e [] s = (err e, s)
  dial_addresses network port e (ip ∷ ips) s =
      let (r, t) = N.dial network (N.join_host_port ip port) s in
      elim r [ ok c ↦ (ok c, t) | err d ↦ dial_addresses network port d ips t ]

  -- What follows the lookup, `e` being the error of the first attempt.
  unfoldable pub dial_found : Text → Text → Error → Result (List Text) → M N.State N.Conn
  dial_found network port e (err d) s = (err (retry_failed e), s)
  dial_found network port e (ok []) s = (err (retry_failed e), s)
  dial_found network port e (ok (ip ∷ ips)) s = dial_addresses network port e (ip ∷ ips) s

  -- The retry of `dialWithFallback` after a not-found error.
  unfoldable pub dial_again : Text → Text → Error → M N.State N.Conn
  dial_again network addr e s = elim (N.split_host_port addr) [
    | err d ↦ (err e, s)
    | ok where_to ↦ let (r, t) = N.lookup (where_to.0) s in dial_found network (where_to.1) e r t
  ]

  -- `dialWithFallback`
  unfoldable pub dial_with_fallback : Text → Text → M N.State N.Conn
  dial_with_fallback network addr s =
      let (r, t) = N.dial network addr s in
      elim r [
        | ok c ↦ (ok c, t)
        | err e ↦ if is_dns_not_found e then dial_again network addr e t else (err e, t)
      ]
