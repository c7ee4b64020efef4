-- ===== src/Provider/Contract/Lookup.antt =====
-- The tests of a descriptor are membership in its lists.
use desktop_hypervisor_mcp.Base.{◌≡◌, ◌↔◌, true, List, [], ◌∷◌, arith, In}
use desktop_hypervisor_mcp.Provider.Contract.{Capability, has_in, ImageFormat, accepts_in}

pub has_in_iff : (xs : List Capability) (c : Capability) → (has_in xs c ≡ true) ↔ In c xs
unfolding has_in
has_in_iff [] c = ground arith
has_in_iff (x ∷ xs) c = ground (arith, has_in_iff xs c)

pub accepts_in_iff : (xs : List ImageFormat) (f : ImageFormat) → (accepts_in xs f ≡ true) ↔ In f xs
unfolding accepts_in
accepts_in_iff [] f = ground arith
accepts_in_iff (x ∷ xs) f = ground (arith, accepts_in_iff xs f)
