-- ===== src/Provider/Errors.antt =====
-- The errors of the program, and results that may be an error. `wrap a e b` is
-- `fmt.Errorf("a%wb", e)`; `no_variant` is artifact.ErrNoVariant and `unsupported` what
-- provider.Unsupported returns (provider/ops.go). `dns` is a `net.DNSError` with its `IsNotFound`,
-- and `not_exist` an error for which `os.IsNotExist` holds; all others are their text.
use desktop_hypervisor_mcp.Base.{Bool, true, false, ◌≡◌, refl, ap, ◌⊎◌, inl, inr, ◌++◌}
use desktop_hypervisor_mcp.Base.Text.{Text, text}
use desktop_hypervisor_mcp.Provider.Contract.{Capability, capability_text}

pub data Error : Type 0 where
  message : Text → Error
  wrap : Text → Error → Text → Error
  unsupported : Capability → Error
  no_variant : Text → Text → Text → Error
  not_exist : Text → Error
  dns : Text → Bool → Error

-- `strconv.Quote` as the verb %q has it, for a text that needs no escape.
abbrev pub quote : Text → Text
quote t = text "\"" ++ (t ++ text "\"")

-- `err.Error()`
unfoldable pub error_text : Error → Text
error_text (message t) = t
error_text (wrap a e b) = a ++ (error_text e ++ b)
error_text (unsupported c) =
    text "not supported by this provider (capability "
    ++ (capability_text c ++ text " not advertised)")
error_text (no_variant image family arch) =
    text "image "
    ++ (quote image ++ (text " has no variant for " ++ (family ++ (text "/" ++ arch))))
error_text (not_exist t) = t
error_text (dns t found) = t

pub data Result {ℓ} (A : Type ℓ) : Type ℓ where
  ok : A → Result A
  err : Error → Result A

-- A step on the host: the result and the state that it leaves.
abbrev pub M : Type 0 → Type 0 → Type 0
M S A = S → Result A × S

abbrev pub resume : {S A B : Type 0} → (A → M S B) → Result A × S → Result B × S
resume f (ok a, s) = f a s
resume f (err e, s) = (err e, s)

infixl 5 ◌>>=◌ ◌>>◌
abbrev pub ◌>>=◌ : {S A B : Type 0} → M S A → (A → M S B) → M S B
◌>>=◌ m f s = resume f (m s)

abbrev pub ◌>>◌ : {S B : Type 0} → M S (Unit {0}) → M S B → M S B
m >> k = m >>= λ _. k

abbrev pub return : {S A : Type 0} → A → M S A
return a s = (ok a, s)

abbrev pub fail : {S A : Type 0} → Error → M S A
fail e s = (err e, s)

-- The error of a step as a value, where the source goes on after it.
abbrev pub attempt : {S A : Type 0} → M S A → M S (Result A)
attempt m s = (ok (m s).0, (m s).1)

-- A result that was computed without the host.
abbrev pub lift : {S A : Type 0} → Result A → M S A
lift r s = (r, s)

abbrev pub wrap_error : {A : Type 0} → (Error → Error) → Result A → Result A
wrap_error f (ok a) = ok a
wrap_error f (err e) = err (f e)

-- A step whose error is put into another one.
abbrev pub with_error : {S A : Type 0} → (Error → Error) → M S A → M S A
with_error f m s = let (r, t) = m s in (wrap_error f r, t)

abbrev pub is_ok {ℓ} : {A : Type ℓ} → Result A → Bool
is_ok (ok a) = true
is_ok (err e) = false

pub Result-cases {ℓ} :
    {A : Type ℓ} (r : Result A) → ((a : A) × (r ≡ ok a)) ⊎ ((e : Error) × (r ≡ err e))
Result-cases (ok a) = inl (a, refl)
Result-cases (err e) = inr (e, refl)

resume-eq-ok :
    {S A B : Type 0} (f : A → M S B) (r : Result A × S) {b : B} {t : S}
    → resume f r ≡ (ok b, t)
    → (a : A) × (u : S) × (r ≡ (ok a, u)) × (f a u ≡ (ok b, t))
resume-eq-ok f (ok a, u) h = (a, u, refl, h)
resume-eq-ok f (err e, u) h = cc (ap (λ r. r.0) h)

-- Inversion of a step that went well.
pub >>=-eq-ok :
    {S A B : Type 0} (m : M S A) (f : A → M S B) (s : S) {b : B} {t : S}
    → (m >>= f) s ≡ (ok b, t)
    → (a : A) × (u : S) × (m s ≡ (ok a, u)) × (f a u ≡ (ok b, t))
>>=-eq-ok m f s h = resume-eq-ok f (m s) h

-- A property of the state that a step has and the next one keeps.
pub resume_kept :
    {S A B : Type 0} (P : S → Type 0) (r : Result A × S) (f : A → M S B)
    → P r.1
    → ((a : A) (u : S) → P u → P (f a u).1)
    → P (resume f r).1
resume_kept P (ok a, s) f p h = h a s p
resume_kept P (err x, s) f p h = p
