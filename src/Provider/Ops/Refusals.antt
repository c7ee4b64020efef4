-- ===== src/Provider/Ops/Refusals.antt =====
-- What the interface promises of the calls that cannot be served, whichever adapter stands behind
-- it: a call, the reason for which it has to be refused, and what a refusal is.
use desktop_hypervisor_mcp.Base.{
  Bool, true, false, not, ◌||◌, Option, none, some, List, [], ◌∷◌, ◌≡◌, refl, subst, if◌then◌else◌,
}
use desktop_hypervisor_mcp.Base.Int.{ℤ, is_pos}
use desktop_hypervisor_mcp.Base.Text.{Text, text, is_empty, has_suffix}
use desktop_hypervisor_mcp.Provider.Contract.{
  Capability, ova_import, ova_export, make_iso, guestinfo_config, capture_screen, linked_clone,
  nested_virt, ip_from_tools, ip_from_dhcp, snapshot_tree, port_forward, guest_exec, guest_copy_in,
  guest_copy_out, Descriptor, has,
}
use desktop_hypervisor_mcp.Provider.Creds.{guest_creds, incomplete}
use desktop_hypervisor_mcp.Provider.Errors.{Error, err, unsupported, M}
use desktop_hypervisor_mcp.Provider.Host.{Host}
use desktop_hypervisor_mcp.Provider.Ops.{Ops}
use desktop_hypervisor_mcp.Provider.Specs.{CreateSpec, CloneSpec}

-- A call of an operation that needs a capability, or that can be refused before anything is done.
pub data Call : Type 0 where
  creating : CreateSpec → Call
  importing : Text → Text → Call
  exporting : Text → Text → Call
  resizing : Text → ℤ → ℤ → Call
  attaching : Text → Text → Text → Call
  injecting : Text → List (Text × Text) → Call
  running_program : Text → Text → List Text → Call
  running_script : Text → Text → Text → Call
  copying_in : Text → Text → Text → Call
  copying_out : Text → Text → Text → Call
  packing : Text → Text → Text → Call
  capturing : Text → Text → Call
  cloning : CloneSpec → Call
  nesting : Text → Bool → Call
  addressing : Text → Text → Call
  listing_snapshots : Text → Bool → Call
  forwarding : Text → Text → Text → ℤ → ℤ → Call
  commanding : List Text → Call

abbrev pub perform : {S : Type 0} → Ops S → Call → M S Text
perform o (creating spec) = o.create spec
perform o (importing path name) = o.import_image path name
perform o (exporting vm dest) = o.export_ova vm dest
perform o (resizing vm cpus memory) = o.set_resources vm cpus memory
perform o (attaching vm path slot) = o.attach_iso vm path slot
perform o (injecting vm pairs) = o.set_guestinfo vm pairs
perform o (running_program vm program args) = o.guest_exec vm program args
perform o (running_script vm interpreter script) = o.guest_script vm interpreter script
perform o (copying_in vm src dest) = o.guest_copy_in vm src dest
perform o (copying_out vm src dest) = o.guest_copy_out vm src dest
perform o (packing src dest label) = o.make_iso src dest label
perform o (capturing vm dest) = o.capture_screen vm dest
perform o (cloning spec) = o.clone spec
perform o (nesting vm enabled) = o.set_nested_virt vm enabled
perform o (addressing vm network) = o.ip vm network
perform o (listing_snapshots vm whole) = o.snapshot_list vm whole
perform o (forwarding network proto guest_ip guest_port host_port) =
    o.expose_guest_port network proto guest_ip guest_port host_port
perform o (commanding args) = o.raw args

pub data Reason : Type 0 where
  withheld : Capability → Reason
  no_creds no_name no_change no_file no_args : Reason

abbrev pub unless : Bool → Reason → Option Reason
unless b r = if b then none else some r

-- The same, where there may be another reason.
abbrev pub gate : Bool → Reason → Option Reason → Option Reason
gate true r other = other
gate false r other = some r

-- The reason for which a call has to be refused, by what the descriptor advertises, whether the
-- credentials for the guest are incomplete, and whether a file is missing on the host.
unfoldable pub reason : Descriptor → Bool → (Text → Bool) → Call → Option Reason
reason d unknown missing (creating spec) = unless (not (is_empty spec.name)) no_name
reason d unknown missing (importing path name) =
    unless (has_suffix path (text ".vmx") || has d ova_import) (withheld ova_import)
reason d unknown missing (exporting vm dest) = unless (has d ova_export) (withheld ova_export)
reason d unknown missing (resizing vm cpus memory) = unless (is_pos cpus || is_pos memory) no_change
reason d unknown missing (attaching vm path slot) =
    unless (is_empty path || not (missing path)) no_file
reason d unknown missing (injecting vm pairs) =
    unless (has d guestinfo_config) (withheld guestinfo_config)
reason d unknown missing (running_program vm program args) =
    gate (has d guest_exec) (withheld guest_exec) (unless (not unknown) no_creds)
reason d unknown missing (running_script vm interpreter script) =
    gate (has d guest_exec) (withheld guest_exec) (unless (not unknown) no_creds)
reason d unknown missing (copying_in vm src dest) =
    gate (has d guest_copy_in) (withheld guest_copy_in) (unless (not unknown) no_creds)
reason d unknown missing (copying_out vm src dest) =
    gate (has d guest_copy_out) (withheld guest_copy_out) (unless (not unknown) no_creds)
reason d unknown missing (packing src dest label) = unless (has d make_iso) (withheld make_iso)
reason d unknown missing (capturing vm dest) =
    unless (has d capture_screen) (withheld capture_screen)
reason d unknown missing (cloning spec) =
    unless (has d linked_clone || not spec.linked) (withheld linked_clone)
reason d unknown missing (nesting vm enabled) = unless (has d nested_virt) (withheld nested_virt)
reason d unknown missing (addressing vm network) =
    unless (has d ip_from_tools || has d ip_from_dhcp) (withheld ip_from_dhcp)
reason d unknown missing (listing_snapshots vm whole) =
    unless (has d snapshot_tree || not whole) (withheld snapshot_tree)
reason d unknown missing (forwarding network proto guest_ip guest_port host_port) =
    unless (has d port_forward) (withheld port_forward)
reason d unknown missing (commanding []) = some no_args
reason d unknown missing (commanding (a ∷ args)) = none

-- The step fails and leaves the host as it is; for a capability that is not advertised, with the
-- error of `Unsupported` for it.
abbrev pub IsRefusal : {S : Type 0} → Reason → M S Text → S → Type 0
IsRefusal (withheld c) m s = m s ≡ (err (unsupported c), s)
IsRefusal _ m s = (e : Error) × (m s ≡ (err e, s))

abbrev pub is_missing : (H : Host) → H.State → Text → Bool
is_missing H s path = elim (H.stat s path) [ none ↦ false | some e ↦ true ]

-- The call is refused for the reason.
abbrev pub Refuses : (H : Host) → Ops H.State → H.State → Call → Reason → Type 0
Refuses H o s q r = IsRefusal r (perform o q) s

abbrev pub reason_on : (H : Host) → Ops H.State → H.State → Call → Option Reason
reason_on H o s q = reason o.descriptor (incomplete (guest_creds H.getenv)) (is_missing H s) q

-- A call that is refused where its condition does not hold.
pub unless-IsRefusal :
    {S : Type 0} (b : Bool) (given r : Reason) (m : M S Text) (s : S)
    → (b ≡ false → IsRefusal given m s)
    → unless b given ≡ some r
    → IsRefusal r m s
unless-IsRefusal true given r m s f h = absurd cc
unless-IsRefusal false given r m s f h = subst (λ x. IsRefusal x m s) (cc) (f refl)
