-- ===== src/Artifact/HttpClient/Dialed.antt =====
-- Which connection `dialWithFallback` returns, and when it fails.
use desktop_hypervisor_mcp.Base.{
  true, ◌≡◌, List, [], ◌∷◌, ◌++◌, refl, ap, ◌⊎◌, ◌↔◌, arith, inl, inr, Bool-cases,
}
use desktop_hypervisor_mcp.Base.Text.{Text}
use desktop_hypervisor_mcp.Provider.Errors.{Error, Result, ok, err, Result-cases}
use desktop_hypervisor_mcp.Artifact.HttpClient.{
  Network, is_dns_not_found, dial_addresses, dial_found, dial_again, dial_with_fallback,
}

answer_cases :
    {A S : Type 0} (p : Result A × S)
    → ((a : A) × (t : S) × (p ≡ (ok a, t))) ⊎ ((e : Error) × (t : S) × (p ≡ (err e, t)))
answer_cases (ok a, t) = inl (a, t, refl)
answer_cases (err e, t) = inr (e, t, refl)

module _ (N : Network) where
  -- The addresses are dialed one after the other and each one fails: from the state and the error
  -- before to those after.
  pub data Refused (network port : Text)
      : List Text → Error → N.State → Error → N.State → Type 0 where
    none_left : {e : Error} {s : N.State} → Refused network port [] e s e s
    one_more :
        {ip : Text} {ips : List Text} {e d f : Error} {s t u : N.State}
        → N.dial network (N.join_host_port ip port) s ≡ (err d, t)
        → Refused network port ips d t f u
        → Refused network port (ip ∷ ips) e s f u

  -- The retry after `e` found addresses, and this is the host's name, the port, the addresses and
  -- the state after the lookup.
  abbrev pub IsFound : Text → Error → N.State → Text → Text → List Text → N.State → Type 0
  IsFound addr e s host port ips t =
      (is_dns_not_found e ≡ true)
      × (N.split_host_port addr ≡ ok (host, port))
      × (N.lookup host s ≡ (ok ips, t))

  -- The first of the addresses that answers gave the connection.
  abbrev pub IsFirstAnswer : Text → Text → List Text → Error → N.State → N.Conn → N.State → Type 0
  IsFirstAnswer network port ips e s c t =
      (before : List Text) × (ip : Text) × (after : List Text) × (d : Error) × (u : N.State) × (ips
        ≡ before ++ (ip ∷ after))
      × Refused network port before e s d u
      × (N.dial network (N.join_host_port ip port) u ≡ (ok c, t))

  dial_addresses-ok :
      (network port : Text) (e : Error) (ips : List Text) (s : N.State) (c : N.Conn) (t : N.State)
      → dial_addresses N network port e ips s ≡ (ok c, t)
      → IsFirstAnswer network port ips e s c t
  unfolding dial_addresses
  dial_addresses-ok network port e [] s c t h = absurd cc
  dial_addresses-ok network port e (ip ∷ ips) s c t h =
      elim (answer_cases (N.dial network (N.join_host_port ip port) s)) [
        | inl (a, u, ha) ↦ ([], ip, ips, e, s, refl, none_left, ground arith)
        | inr (d, u, hd) ↦
            let (before, at, after, f, v, same, refused, answer) =
              dial_addresses-ok network port d ips u c t (ground arith) in
            (ip ∷ before, at, after, f, v, ap (λ l. ip ∷ l) same, one_more hd refused, answer)
      ]

  dial_addresses-Refused :
      (network port : Text) (before after : List Text) (e d : Error) (s u : N.State)
      → Refused network port before e s d u
      → dial_addresses N network port e (before ++ after) s
        ≡ dial_addresses N network port d after u
  unfolding dial_addresses
  dial_addresses-Refused network port [] after e _ s _ none_left = refl
  dial_addresses-Refused network port (ip ∷ ips) after e d s u (one_more {t = t} h rest) =
      ground (arith, dial_addresses-Refused network port ips after _ d t u rest)

  dial_addresses-first :
      (network port : Text) (e : Error) (ips : List Text) (s : N.State) (c : N.Conn) (t : N.State)
      → IsFirstAnswer network port ips e s c t
      → dial_addresses N network port e ips s ≡ (ok c, t)
  unfolding dial_addresses
  dial_addresses-first network port e ips s c t (before, ip, after, d, u, same, refused, answer) =
      rw same (
        rw (dial_addresses-Refused network port before (ip ∷ after) e d s u refused)
          (ground (arith, answer)))

  dial_found-ok :
      (network port : Text) (e : Error) (r : Result (List Text)) (s : N.State) (c : N.Conn)
      (t : N.State)
      → dial_found N network port e r s ≡ (ok c, t)
      → (ips : List Text) × (r ≡ ok ips) × IsFirstAnswer network port ips e s c t
  unfolding dial_found
  dial_found-ok network port e (err d) s c t h = absurd (ground arith)
  dial_found-ok network port e (ok []) s c t h = absurd (ground arith)
  dial_found-ok network port e (ok (ip ∷ ips)) s c t h =
      (ip ∷ ips, refl, dial_addresses-ok network port e (ip ∷ ips) s c t h)

  dial_found-first :
      (network port : Text) (e : Error) (ips : List Text) (s : N.State) (c : N.Conn) (t : N.State)
      → IsFirstAnswer network port ips e s c t
      → dial_found N network port e (ok ips) s ≡ (ok c, t)
  unfolding dial_found
  dial_found-first network port e [] s c t ([], ip, after, d, u, same, refused, answer) = absurd cc
  dial_found-first network port e [] s c t (b ∷ before, ip, after, d, u, same, refused, answer) =
      absurd cc
  dial_found-first network port e (ip ∷ ips) s c t h =
      dial_addresses-first network port e (ip ∷ ips) s c t h

  dial_again-ok :
      (network addr : Text) (e : Error) (s : N.State) (c : N.Conn) (t : N.State)
      → dial_again N network addr e s ≡ (ok c, t)
      → (host port : Text) × (ips : List Text) × (v : N.State) × (N.split_host_port addr
          ≡ ok (host, port))
        × (N.lookup host s ≡ (ok ips, v))
        × IsFirstAnswer network port ips e v c t
  unfolding dial_again
  dial_again-ok network addr e s c t h = elim (Result-cases (N.split_host_port addr)) [
    | inr (d, hd) ↦ absurd (ground arith)
    | inl ((host, port), hd) ↦
        let (ips, found, first) =
          dial_found-ok network port e (N.lookup host s).0 (N.lookup host s).1 c t (ground arith) in
        (host, port, ips, (N.lookup host s).1, hd, ground (arith, found), first)
  ]

  -- `dialWithFallback` returns a connection exactly if it is the one that dialing the address itself
  -- gave, or if that failed with a not-found DNS error, the lookup over TCP found addresses, and it
  -- is the one that the first of them that can be dialed gave, in their order.
  pub dial_with_fallback_iff :
      (network addr : Text) (s : N.State) (c : N.Conn) (t : N.State)
      → (dial_with_fallback N network addr s ≡ (ok c, t)) ↔ (
          (N.dial network addr s ≡ (ok c, t))
          ⊎ ((e : Error) × (u : N.State) × (host port : Text) × (ips : List Text) × (v : N.State)
              × (N.dial network addr s ≡ (err e, u))
              × IsFound addr e u host port ips v
              × IsFirstAnswer network port ips e v c t))
  unfolding dial_with_fallback dial_again
  dial_with_fallback_iff network addr s c t = (
    (λ h. elim (answer_cases (N.dial network addr s)) [
      | inl (a, u, ha) ↦ inl (ground arith)
      | inr (e, u, he) ↦ elim (Bool-cases (is_dns_not_found e)) [
        | inr other ↦ absurd (ground arith)
        | inl not_found ↦
            let (host, port, ips, v, taken_apart, found, first) =
              dial_again-ok network addr e u c t (ground arith) in
            inr (e, u, host, port, ips, v, he, (not_found, taken_apart, found), first)
      ]
    ]),
    (λ h. elim h [
      | inl direct ↦ ground arith
      | inr (e, u, host, port, ips, v, he, (not_found, taken_apart, found), first) ↦
          ground (arith, dial_found-first network port e ips v c t first)
    ]),
  )
