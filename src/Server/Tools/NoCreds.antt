-- ===== src/Server/Tools/NoCreds.antt =====
-- Calls of the tools that no operation serves.
use desktop_hypervisor_mcp.Base.{
  Bool, true, false, Option, some, inl, inr, ◌≡◌, ◌≢◌, refl, sym, ap, subst, arith, if◌then◌else◌,
}
use desktop_hypervisor_mcp.Base.Text.{Text, text, ◌==◌}
use desktop_hypervisor_mcp.Base.Text.Equal.{eq_iff}
use desktop_hypervisor_mcp.Provider.Contract.{
  has, Capability, guest_exec, guest_copy_in, guest_copy_out,
}
use desktop_hypervisor_mcp.Provider.Creds.{guest_creds, incomplete}
use desktop_hypervisor_mcp.Provider.Errors.{Error, unsupported, Result, ok, err, M, resume}
use desktop_hypervisor_mcp.Provider.Host.{Host}
use desktop_hypervisor_mcp.Provider.Ops.{Ops}
use desktop_hypervisor_mcp.Provider.Ops.Refusals.{
  Call, running_program, running_script, copying_in, copying_out, no_creds, withheld, Reason, gate,
  IsRefusal, perform, reason, reason_on,
}
use desktop_hypervisor_mcp.Provider.Patterns.{Patterns}
use desktop_hypervisor_mcp.Server.Discover.{discover, select}
use desktop_hypervisor_mcp.Server.Discover.Refused.{select-Refuses}
use desktop_hypervisor_mcp.Server.Inputs.{GuestIn}
use desktop_hypervisor_mcp.VirtualBox.Adapter.Refused.{IsUngated}
use desktop_hypervisor_mcp.Server.Tools.{unknown_action, guest_action, guest_tool}

-- The step ended with an error and left this state.
abbrev Declined : {S : Type 0} → S → Result Text × S → Type 0
Declined t p = (e : Error) × (p ≡ (err e, t))

if-Declined :
    {S : Type 0} {t : S} (b : Bool) {p q : Result Text × S}
    → Declined t p
    → Declined t q
    → Declined t (if b then p else q)
if-Declined true p q = p
if-Declined false p q = q

else-Declined :
    {S : Type 0} {t : S} (b : Bool) (p : Result Text × S) {q : Result Text × S}
    → b ≡ false
    → Declined t q
    → Declined t (if b then p else q)
else-Declined true p h q = absurd cc
else-Declined false p h q = q

resume-Declined :
    {S A : Type 0} (f : A → M S Text) (p : Result A × S) (t : S)
    → p.1 ≡ t
    → ((a : A) → p ≡ (ok a, t) → Declined t (f a t))
    → Declined t (resume f p)
resume-Declined f (ok a, u) t e g =
    subst (λ v. Declined t (f a v)) (sym e) (g a (ap (λ v. (ok a, v)) e))
resume-Declined f (err x, u) t e g = (x, ap (λ v. (err x, v)) e)

-- A call that is refused for a missing capability, or else for the missing credentials.
gate-Declined :
    {S : Type 0} {t : S} (m : M S Text) (why : Option Reason) (b : Bool) (c : Capability)
    → why ≡ gate b (withheld c) (some no_creds)
    → ((r : Reason) → why ≡ some r → IsRefusal r m t)
    → Declined t (m t)
gate-Declined m why true c e f = f no_creds e
gate-Declined m why false c e f = (unsupported c, f (withheld c) e)

module _ (H : Host) (P : Patterns) where
  -- The call fails and leaves the host as the detection of the providers left it.
  abbrev pub NotServed : M H.State Text → H.State → Type 0
  NotServed m s = Declined (discover H P s).1 (m s)

  select-state : (id : Text) (s : H.State) → (select H P id s).1 ≡ (discover H P s).1
  unfolding select
  select-state id s = refl

  -- What the switch does without credentials.
  guest_action-Declined :
      (i : GuestIn) (s t : H.State) (o : Ops H.State)
      → incomplete (guest_creds H.getenv) ≡ true
      → i.action ≢ text "screenshot"
      → select H P i.provider s ≡ (ok o, t)
      → Declined t (guest_action o i t)
  unfolding guest_action reason
  guest_action-Declined i s t o unknown other h =
      let refused =
        λ (q : Call) (c : Capability) (gated : IsUngated H P o t q → ⊥)
            (e : reason_on H o t q ≡ gate (has o.descriptor c) (withheld c) (some no_creds)).
          gate-Declined (perform o q) (reason_on H o t q) (has o.descriptor c) c e λ r why.
            elim (select-Refuses H P i.provider s t o q r h why) [
              | inl refusal ↦ refusal
              | inr ungated ↦ absurd (gated ungated)
            ] in
      if-Declined _
        (refused (running_program i.vm i.program i.args) guest_exec (λ x. x) (rw unknown refl))
        (if-Declined _
          (refused (running_script i.vm i.interp i.script) guest_exec (λ x. x) (rw unknown refl))
          (if-Declined _
            (refused (copying_in i.vm i.src i.dest) guest_copy_in (λ x. x) (rw unknown refl))
            (if-Declined _
              (refused (copying_out i.vm i.src i.dest) guest_copy_out (λ x. x) (rw unknown refl))
              (else-Declined (i.action == text "screenshot") _
                (ground (arith, eq_iff i.action (text "screenshot")))
                (unknown_action i.action, refl)))))

  -- Without a user or a password for the guest, `guestTool` serves no call but a screenshot,
  -- whatever the providers are: it fails, and after the detection of the providers it leaves the
  -- host as it is.
  pub guest_tool-NotServed :
      (i : GuestIn) (s : H.State)
      → incomplete (guest_creds H.getenv) ≡ true
      → i.action ≢ text "screenshot"
      → NotServed (guest_tool H P i) s
  unfolding guest_tool
  guest_tool-NotServed i s unknown other =
      resume-Declined (λ o. guest_action o i) (select H P i.provider s) _
        (select-state i.provider s) (λ o h. guest_action-Declined i s _ o unknown other h)
