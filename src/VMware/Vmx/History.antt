-- ===== src/VMware/Vmx/History.antt =====
-- The contents that a .vmx file has through calls of `setVMXKeys`.
use Prim.Native.Nat.{max}
use desktop_hypervisor_mcp.Base.{◌≤◌, List, [], ◌∷◌, ◌++◌, ◌≡◌, refl, sym, ap, ◌∙◌, arith, All}
use desktop_hypervisor_mcp.Base.Text.{Text}
use desktop_hypervisor_mcp.VMware.Vmx.{Pair, value_in_content, set_content}
use desktop_hypervisor_mcp.VMware.Vmx.Lines.{IsPair}
use desktop_hypervisor_mcp.VMware.Vmx.RoundTrip.{after, value_in_content-set_content}
use desktop_hypervisor_mcp.VMware.Vmx.Unique.{count_key, count_key-set_content}

-- One content becomes another by a sequence of calls, whose pairs are these in their order.
pub data Becomes : Text → List Pair → Text → Type 0 where
  untouched : {content : Text} → Becomes content [] content
  set_then :
      {content last : Text} (pairs more : List Pair)
      → All IsPair pairs
      → Becomes (set_content pairs content) more last
      → Becomes content (pairs ++ more) last

after-append :
    (key : Text) (pairs more : List Pair) (old : Text)
    → after key (pairs ++ more) old ≡ after key more (after key pairs old)
after-append key [] more old = refl
after-append key (pair ∷ pairs) more old = after-append key pairs more _

-- After any sequence of calls of `setVMXKeys` with keys and values that fit a line, each key has
-- the value of the last pair of all calls that sets it, without regard to case, or else the value
-- that it had; and it is set at most once, or no more often than at the start.
pub Becomes-kept :
    (content last key : Text) (pairs : List Pair)
    → Becomes content pairs last
    → (value_in_content key last ≡ after key pairs (value_in_content key content))
      × (count_key key last ≤ max 1 (count_key key content))
Becomes-kept content _ key _ untouched = (refl, omega arith)
Becomes-kept content last key _ (set_then pairs more fits rest) =
    let (value, count) = Becomes-kept (set_content pairs content) last key more rest in
    (
      value
          ∙ ap (after key more) (value_in_content-set_content pairs content key fits)
          ∙ sym (after-append key pairs more (value_in_content key content)),
      omega (arith, count, count_key-set_content pairs content key fits),
    )
