-- ===== src/VMware/Create/Fails.antt =====
-- Why `Create` fails: `setVMXKeys` reads the .vmx file first, which nothing has made yet.
use desktop_hypervisor_mcp.Base.{
  true, false, some, List, ◌++◌, ◌≡◌, refl, ◌∙◌, arith, inl, inr, Option-cases,
}
use desktop_hypervisor_mcp.Base.Text.{Text, text}
use desktop_hypervisor_mcp.Base.Text.Cut.{Lacks}
use desktop_hypervisor_mcp.Provider.Contract.{Descriptor}
use desktop_hypervisor_mcp.Provider.Errors.{Error, Result, ok, err, M, resume, is_ok}
use desktop_hypervisor_mcp.Provider.Host.{Host}
use desktop_hypervisor_mcp.Provider.Specs.{CreateSpec}
use desktop_hypervisor_mcp.VMware.Create.{create_disk, create_in, create, create_pairs, file_in}
use desktop_hypervisor_mcp.VMware.Run.{vm_bundle, set_vmx_keys}

-- The .vmx file that `Create` is about to set the keys of.
abbrev pub vmx_of : Host → Descriptor → CreateSpec → Text
vmx_of H d spec = file_in H d (vm_bundle H d spec.name) (spec.name ++ text ".vmx")

-- What is relied on, of a host in a state: where the folder of the VM does not exist, the file right
-- below it is not read; making the folder makes no such file, nor does the disk tool.
pub record MakesNoVmx (H : Host) (d : Descriptor) (spec : CreateSpec) (s : H.State) : Type 0 where
  pub read_missing :
      (e : Error)
      → Lacks b'/' spec.name
      → H.stat s (vm_bundle H d spec.name) ≡ some e
      → is_ok (H.read_file s (vmx_of H d spec)) ≡ false
  pub read-mkdir_all :
      is_ok (H.read_file (H.mkdir_all (vm_bundle H d spec.name) s).1 (vmx_of H d spec))
      ≡ is_ok (H.read_file s (vmx_of H d spec))
  pub read_after_disk :
      (u : H.State)
      → is_ok (H.read_file (create_disk H d spec (vm_bundle H d spec.name) u).1 (vmx_of H d spec))
        ≡ is_ok (H.read_file u (vmx_of H d spec))

-- A step fails where what follows it fails in the state that it leaves.
resume_fails :
    {S A B : Type 0} (r : Result A × S) (f : A → M S B)
    → ((a : A) → is_ok r.0 ≡ true → is_ok (f a r.1).0 ≡ false)
    → is_ok (resume f r).0 ≡ false
resume_fails (ok a, s) f h = h a refl
resume_fails (err e, s) f h = refl

module _ (H : Host) (d : Descriptor) where
  set_vmx_keys_unread :
      (vmx : Text) (s : H.State)
      → is_ok (H.read_file s vmx) ≡ false
      → (pairs : List (Text × Text)) → is_ok (set_vmx_keys H vmx pairs s).0 ≡ false
  unfolding set_vmx_keys
  set_vmx_keys_unread vmx s h pairs = ground arith

  create_in_fails :
      (spec : CreateSpec) (s : H.State) (e : Error)
      → MakesNoVmx H d spec s
      → Lacks b'/' spec.name
      → H.stat s (vm_bundle H d spec.name) ≡ some e
      → is_ok (create_in H d spec (vm_bundle H d spec.name) s).0 ≡ false
  unfolding create_in
  create_in_fails spec s e L plain missing =
      let bundle = vm_bundle H d spec.name in
      let vmx = vmx_of H d spec in
      let made = (H.mkdir_all bundle s).1 in
      let disk = (create_disk H d spec bundle made).1 in
      let unread : is_ok (H.read_file disk vmx) ≡ false =
        L.read_after_disk made ∙ L.read-mkdir_all ∙ L.read_missing e plain missing in
      let wrote : is_ok (set_vmx_keys H vmx (create_pairs spec) disk).0 ≡ false =
        set_vmx_keys_unread vmx disk unread (create_pairs spec) in
      resume_fails (H.mkdir_all bundle s) _ λ x went.
        resume_fails (create_disk H d spec bundle made) _ λ y grew.
          resume_fails (set_vmx_keys H vmx (create_pairs spec) disk) _ λ z written. ground arith

  -- On a host as in `MakesNoVmx`, where the disk tool makes disks only, `Create` ends with an error
  -- for every VM whose name has no slash.
  pub create_fails :
      (spec : CreateSpec) (s : H.State)
      → MakesNoVmx H d spec s
      → Lacks b'/' spec.name
      → is_ok (create H d spec s).0 ≡ false
  unfolding create
  create_fails spec s L plain = elim (Option-cases (H.stat s (vm_bundle H d spec.name))) [
    | inl present ↦ ground arith
    | inr (e, missing) ↦ ground (arith, create_in_fails spec s e L plain missing)
  ]
