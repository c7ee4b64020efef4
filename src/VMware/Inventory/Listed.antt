-- ===== src/VMware/Inventory/Listed.antt =====
-- What `Ops.List` lists.
use desktop_hypervisor_mcp.Base.{
  true, false, ◌||◌, List, [], ◌∷◌, ◌≡◌, ◌≢◌, ◌↔◌, ◌⊎◌, refl, ap, ◌∙◌, inl, inr, arith, In, All,
  Bool-cases,
}
use desktop_hypervisor_mcp.Base.Text.{Text, text, ◌==◌, is_empty, contains, trim_suffix}
use desktop_hypervisor_mcp.FilePath.{base, dir}
use desktop_hypervisor_mcp.Base.Text.Equal.{eq_iff}
use desktop_hypervisor_mcp.Provider.Contract.{Descriptor}
use desktop_hypervisor_mcp.Provider.Errors.{ok}
use desktop_hypervisor_mcp.Provider.Host.{Host}
use desktop_hypervisor_mcp.Provider.Specs.{VmRef}
use desktop_hypervisor_mcp.VMware.Inventory.{is_in, vm_name, listed, add_all, vmx_files, list}
use desktop_hypervisor_mcp.VMware.Run.{vmrun, output_or_empty}

-- No two of the VMs have the same file.
abbrev pub IsDistinct : List VmRef → Type 0
IsDistinct [] = Unit
IsDistinct (v ∷ vs) = All (λ w. w.path ≢ v.path) vs × IsDistinct vs

is_in_iff : (t : Text) (us : List Text) → (is_in t us ≡ true) ↔ In t us
is_in_iff t [] = ((λ h. cc h), λ p. absurd p)
is_in_iff t (u ∷ us) = ground (arith, eq_iff u t, is_in_iff t us)

add_all_unseen :
    (out t : Text) (seen files : List Text)
    → is_in t seen ≡ true
    → All (λ w. w.path ≢ t) (add_all out seen files)
unfolding add_all listed
add_all_unseen out t seen [] h = tt
add_all_unseen out t seen (f ∷ files) h = elim (Bool-cases (is_empty f || is_in f seen)) [
  | inl passed ↦ rw passed (add_all_unseen out t seen files h)
  | inr added ↦ rw added (ground arith, add_all_unseen out t (f ∷ seen) files (ground arith))
]

add_all-IsDistinct : (out : Text) (seen files : List Text) → IsDistinct (add_all out seen files)
unfolding add_all listed
add_all-IsDistinct out seen [] = tt
add_all-IsDistinct out seen (f ∷ files) = elim (Bool-cases (is_empty f || is_in f seen)) [
  | inl passed ↦ rw passed (add_all-IsDistinct out seen files)
  | inr added ↦ rw added (
    add_all_unseen out f (f ∷ seen) files (ground (arith, eq_iff f f)),
    add_all-IsDistinct out (f ∷ seen) files,
  )
]

-- A VM is named by the folder of its file, less the suffix of a bundle, and is running exactly if
-- `out` contains the path of the file; otherwise it is stopped.
abbrev pub IsDescribed : Text → VmRef → Type 0
IsDescribed out v =
    (v.name ≡ trim_suffix (base (dir v.path)) (text ".vmwarevm"))
    × ((contains out v.path ≡ true) × (v.state ≡ text "running")
        ⊎ (contains out v.path ≡ false) × (v.state ≡ text "stopped"))

abbrev pub paths : List VmRef → List Text
paths [] = []
paths (v ∷ vs) = v.path ∷ paths vs

is_empty_iff : (t : Text) → (is_empty t ≡ true) ↔ (t ≡ [])
is_empty_iff [] = ((λ h. refl), λ h. refl)
is_empty_iff (x ∷ t) = ((λ h. cc h), λ h. cc h)

add_all-In :
    (out : Text) (seen files : List Text) (p : Text)
    → In p (paths (add_all out seen files))
    → In p files × (p ≢ [])
unfolding add_all listed
add_all-In out seen [] p h = absurd h
add_all-In out seen (f ∷ files) p h =
    ground (arith, is_empty_iff f, add_all-In out seen files p, add_all-In out (f ∷ seen) files p)

add_all_complete :
    (out : Text) (seen files : List Text) (p : Text)
    → In p files
    → p ≢ []
    → is_in p seen ≡ false
    → In p (paths (add_all out seen files))
unfolding add_all listed
add_all_complete out seen [] p h named new = absurd h
add_all_complete out seen (f ∷ files) p (inl here) named new =
    let shut : is_empty f ≡ false = ground (arith, is_empty_iff f) in
    let unseen : is_in f seen ≡ false = ap (λ t. is_in t seen) here ∙ new in
    rw (shut, unseen) (inl here)
add_all_complete out seen (f ∷ files) p (inr later) named new =
    elim (Bool-cases (is_empty f || is_in f seen)) [
      | inl passed ↦ rw passed (add_all_complete out seen files p later named new)
      | inr added ↦ rw added (elim (Bool-cases (f == p)) [
        | inl here ↦ inl ((eq_iff f p).0 here)
        | inr other ↦ inr (add_all_complete out (f ∷ seen) files p later named (ground arith))
      ])
    ]

listed-IsDescribed : (out vmx : Text) → IsDescribed out (listed out vmx)
unfolding listed vm_name
listed-IsDescribed out vmx = elim (Bool-cases (contains out vmx)) [
  | inl h ↦ (refl, inl (h, rw h refl))
  | inr h ↦ (refl, inr (h, rw h refl))
]

add_all-IsDescribed :
    (out : Text) (seen files : List Text) → All (IsDescribed out) (add_all out seen files)
unfolding add_all
add_all-IsDescribed out seen [] = tt
add_all-IsDescribed out seen (f ∷ files) = elim (Bool-cases (is_empty f || is_in f seen)) [
  | inl passed ↦ rw passed (add_all-IsDescribed out seen files)
  | inr added ↦ rw added (listed-IsDescribed out f, add_all-IsDescribed out (f ∷ seen) files)
]

-- `List` always goes well. It lists each file that one of the two patterns matches once, and
-- nothing else; each VM has the name of its folder, less `.vmwarevm` at its end, is running exactly
-- if what the list of running VMs prints contains the path of its file, and stopped otherwise.
pub list_lem :
    (H : Host) (d : Descriptor) (s : H.State)
    → let (running, t) = vmrun H false (text "list" ∷ []) s in
      (vms : List VmRef) × (list H d s ≡ (ok vms, t))
      × IsDistinct vms
      × ((p : Text) → In p (paths vms) ↔ (In p (vmx_files H d t) × (p ≢ [])))
      × All (IsDescribed (output_or_empty running)) vms
unfolding list
list_lem H d s =
    let (running, t) = vmrun H false (text "list" ∷ []) s in
    let out = output_or_empty running in
    let files = vmx_files H d t in
    (
      add_all out [] files,
      refl,
      add_all-IsDistinct out [] files,
      (λ p. (add_all-In out [] files p, λ h. add_all_complete out [] files p h.0 h.1 refl)),
      add_all-IsDescribed out [] files,
    )
