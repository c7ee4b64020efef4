-- ===== src/VMware/Config/Resources.antt =====
-- `SetResources` end to end: the numbers that were asked for stand in the file.
use mathlib.Core.List.{reverse}
use desktop_hypervisor_mcp.Base.{
  suc, true, false, List, [], ◌∷◌, ◌≡◌, refl, ap, ◌∙◌, arith, inl, inr, All, Bool-cases,
}
use desktop_hypervisor_mcp.Base.Int.{ℤ, pos, negsuc, is_pos, itoa, is_digit, digits-is_digit}
use desktop_hypervisor_mcp.Base.Text.{Text, text, is_space, equal_fold, lower_char, ◌==◌}
use desktop_hypervisor_mcp.Base.Text.Cut.{Lacks, lacks→Lacks}
use desktop_hypervisor_mcp.Base.Text.Trim.{HeadNot, EndsNot, All-reverse}
use desktop_hypervisor_mcp.Provider.Contract.{Descriptor}
use desktop_hypervisor_mcp.Provider.Errors.{ok}
use desktop_hypervisor_mcp.Provider.Files.{IsFaithful}
use desktop_hypervisor_mcp.Provider.Host.{Host}
use desktop_hypervisor_mcp.VMware.Run.{resolve_vmx, vmx_key}
use desktop_hypervisor_mcp.VMware.Config.{configure, resource_pairs, configure_some, set_resources}
use desktop_hypervisor_mcp.VMware.Config.Written.{configure-vmx_key}
use desktop_hypervisor_mcp.VMware.Vmx.{Pair, is_quote}
use desktop_hypervisor_mcp.VMware.Vmx.Lines.{IsPair}
use desktop_hypervisor_mcp.VMware.Vmx.RoundTrip.{after}

abbrev Digits : Text → Type 0
Digits t = All (λ c. is_digit c ≡ true) t

Digits-Lacks : (t : Text) → Digits t → Lacks b'\n' t
Digits-Lacks [] h = tt
Digits-Lacks (c ∷ t) h = (ground arith, Digits-Lacks t h.1)

Digits-HeadNot : (t : Text) → Digits t → HeadNot is_quote t
Digits-HeadNot [] h = tt
Digits-HeadNot (c ∷ t) h = ground arith

Digits-EndsNot : (t : Text) → Digits t → EndsNot is_quote t
Digits-EndsNot t h = (Digits-HeadNot t h, Digits-HeadNot (reverse t) (All-reverse is_digit t h))

itoa-Digits : (n : ℤ) → is_pos n ≡ true → Digits (itoa n)
unfolding itoa
itoa-Digits (pos n) h = digits-is_digit (suc n) n
itoa-Digits (negsuc n) h = cc

abbrev cpus_key : Text
cpus_key = text "numvcpus"

abbrev memory_key : Text
memory_key = text "memsize"

IsPair-cpus : (n : ℤ) → is_pos n ≡ true → IsPair (cpus_key, itoa n)
unfolding text is_space
IsPair-cpus n h = record {
  key_plain = lacks→Lacks b'=' cpus_key refl;
  key_one_line = lacks→Lacks b'\n' cpus_key refl;
  key_trimmed = (refl, refl);
  value_one_line = Digits-Lacks (itoa n) (itoa-Digits n h);
  value_bare = Digits-EndsNot (itoa n) (itoa-Digits n h);
}

IsPair-memory : (n : ℤ) → is_pos n ≡ true → IsPair (memory_key, itoa n)
unfolding text is_space
IsPair-memory n h = record {
  key_plain = lacks→Lacks b'=' memory_key refl;
  key_one_line = lacks→Lacks b'\n' memory_key refl;
  key_trimmed = (refl, refl);
  value_one_line = Digits-Lacks (itoa n) (itoa-Digits n h);
  value_bare = Digits-EndsNot (itoa n) (itoa-Digits n h);
}

resource_pairs-IsPair : (cpus memory : ℤ) → All IsPair (resource_pairs cpus memory)
unfolding resource_pairs
resource_pairs-IsPair cpus memory = elim (Bool-cases (is_pos cpus)) [
  | inl c ↦ elim (Bool-cases (is_pos memory)) [
    | inl m ↦ rw (c, m) (IsPair-cpus cpus c, (IsPair-memory memory m, tt))
    | inr m ↦ rw (c, m) (IsPair-cpus cpus c, tt)
  ]
  | inr c ↦ elim (Bool-cases (is_pos memory)) [
    | inl m ↦ rw (c, m) (IsPair-memory memory m, tt)
    | inr m ↦ rw (c, m) tt
  ]
]

same_key :
    (equal_fold cpus_key cpus_key ≡ true)
    × (equal_fold memory_key memory_key ≡ true)
    × (equal_fold memory_key cpus_key ≡ false)
    × (equal_fold cpus_key memory_key ≡ false)
unfolding text lower_char ◌==◌
same_key = (refl, refl, refl, refl)

after_cpus :
    (cpus memory : ℤ) (old : Text)
    → is_pos cpus ≡ true
    → after cpus_key (resource_pairs cpus memory) old ≡ itoa cpus
unfolding resource_pairs
after_cpus cpus memory old h = elim (Bool-cases (is_pos memory)) [
  | inl m ↦ rw (h, m, same_key.2, same_key.0)
  | inr m ↦ rw (h, m, same_key.0)
]

after_memory :
    (cpus memory : ℤ) (old : Text)
    → is_pos memory ≡ true
    → after memory_key (resource_pairs cpus memory) old ≡ itoa memory
unfolding resource_pairs
after_memory cpus memory old h = elim (Bool-cases (is_pos cpus)) [
  | inl c ↦ rw (h, c, same_key.1)
  | inr c ↦ rw (h, c, same_key.1)
]

module _ (H : Host) (d : Descriptor) where
  configure_some-eq-ok :
      (vm reason : Text) (pairs : List Pair) (s t : H.State) {out : Text}
      → configure_some H d vm reason pairs s ≡ (ok out, t)
      → configure H d vm pairs s ≡ (ok out, t)
  unfolding configure_some
  configure_some-eq-ok vm reason [] s t h = cc (ap (λ r. r.0) h)
  configure_some-eq-ok vm reason (p ∷ ps) s t h = h

  -- On a host as in `IsFaithful`: where `SetResources` goes well, the file of the VM afterwards
  -- has each number that was asked for, in decimal.
  pub set_resources-vmx_key :
      IsFaithful H
      → (vm : Text) (cpus memory : ℤ) (s t : H.State) {out : Text}
      → set_resources H d vm cpus memory s ≡ (ok out, t)
      → (vmx : Text) × (resolve_vmx H d vm s ≡ (ok vmx, s))
        × (is_pos cpus ≡ true → vmx_key H t vmx (text "numvcpus") ≡ itoa cpus)
        × (is_pos memory ≡ true → vmx_key H t vmx (text "memsize") ≡ itoa memory)
  unfolding set_resources
  set_resources-vmx_key F vm cpus memory s t h =
      let pairs = resource_pairs cpus memory in
      let e = configure_some-eq-ok vm _ pairs s t h in
      let (vmx, found, quiet, reads) =
        configure-vmx_key H F d vm pairs s t (resource_pairs-IsPair cpus memory) e in
      (
        vmx,
        found,
        (λ c. reads cpus_key ∙ after_cpus cpus memory _ c),
        (λ m. reads memory_key ∙ after_memory cpus memory _ m),
      )
