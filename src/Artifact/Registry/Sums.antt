-- ===== src/Artifact/Registry/Sums.antt =====
-- What `findSHA256Sum` finds.
use desktop_hypervisor_mcp.Base.{
  Bool, true, false, some, List, [], ◌∷◌, ◌++◌, if◌then◌else◌, ◌≡◌, ◌≢◌, refl, sym, ap, ◌∙◌, subst,
  ◌⊎◌, ◌↔◌, arith, inl, inr, All, Option-cases, Bool-cases,
}
use desktop_hypervisor_mcp.Base.Text.{
  Text, text, ◌==◌, is_empty, is_space, fields_from, fields, split, has_prefix, trim_prefix, drop,
  size,
}
use desktop_hypervisor_mcp.Base.Text.Equal.{eq_iff, has_prefix-append}
use desktop_hypervisor_mcp.Base.Text.Fields.{IsFields, fields_iff}
use desktop_hypervisor_mcp.Base.Text.Search.{prefix_rest, trim_prefix-append}
use desktop_hypervisor_mcp.Artifact.Registry.{sum_of, find_in_lines, find_sha256_sum}

-- The name in a line is that of the file, with the mark of a binary file in front of it or not.
abbrev IsNamed : Text → Text → Type 0
IsNamed fname name =
    (name ≡ text "*" ++ fname) ⊎ (name ≡ fname) × (has_prefix name (text "*") ≡ false)

-- The line has two words, the checksum and the name of the file.
abbrev pub IsLine : Text → Text → Text → Type 0
IsLine fname sum line = (name : Text) × IsFields line (sum ∷ name ∷ []) × IsNamed fname name

-- The first line that lists the file gives the checksum.
abbrev pub IsSum : Text → Text → List Text → Type 0
IsSum sum fname [] = ⊥
IsSum sum fname (line ∷ lines) =
    IsLine fname sum line ⊎ ((other : Text) → IsLine fname other line → ⊥) × IsSum sum fname lines

trim_prefix-IsNamed :
    (fname name : Text) → (trim_prefix name (text "*") == fname ≡ true) ↔ IsNamed fname name
trim_prefix-IsNamed fname name = elim (Bool-cases (has_prefix name (text "*"))) [
  | inl h ↦
      let e = prefix_rest name (text "*") h in
      let cutoff : trim_prefix name (text "*") ≡ drop (size (text "*")) name =
        unfold trim_prefix in rw h refl in
      (
        (λ t. inl (e ∙ ap (λ x. text "*" ++ x) (sym cutoff ∙ (eq_iff _ fname).0 t))),
        λ p. elim p [
          | inl same ↦
              (eq_iff _ fname).1
                (ap (λ x. trim_prefix x (text "*")) same ∙ trim_prefix-append (text "*") fname)
          | inr (same, bare) ↦ absurd (cc (sym h ∙ bare))
        ],
      )
  | inr h ↦
      let kept : trim_prefix name (text "*") ≡ name = unfold trim_prefix in rw h refl in
      (
        (λ t. inr (sym kept ∙ (eq_iff _ fname).0 t, h)),
        λ p. elim p [
          | inl same ↦ absurd (
              cc (
                sym h
                ∙ ap (λ x. has_prefix x (text "*")) same
                ∙ has_prefix-append (text "*") fname))
          | inr (same, bare) ↦ (eq_iff _ fname).1 (kept ∙ same)
        ],
      )
]

abbrev IsPair : Text → Text → List Text → Type 0
IsPair fname sum fs = (name : Text) × (fs ≡ sum ∷ name ∷ []) × IsNamed fname name

sum_of-two :
    (fname a name sum : Text)
    → (sum_of fname (a ∷ name ∷ []) ≡ some sum) ↔ IsPair fname sum (a ∷ name ∷ [])
unfolding sum_of
sum_of-two fname a name sum =
    let (there, back) = trim_prefix-IsNamed fname name in
    elim (Bool-cases (trim_prefix name (text "*") == fname)) [
      | inl h ↦ ((λ e. (name, ground arith, there h)), λ p. ground arith)
      | inr h ↦ (
        (λ e. absurd (ground arith)),
        λ (other, e, n). absurd (cc (sym h ∙ back (subst (IsNamed fname) (sym (second e)) n))),
      )
    ]
  where
    second : {a b c d : Text} → a ∷ b ∷ [] ≡ c ∷ d ∷ [] → b ≡ d
    second e = cc e

sum_of_iff :
    (fname sum : Text) (fs : List Text) → (sum_of fname fs ≡ some sum) ↔ IsPair fname sum fs
unfolding sum_of
sum_of_iff fname sum [] = ((λ e. cc e), λ (name, e, n). cc e)
sum_of_iff fname sum (a ∷ []) = ((λ e. cc e), λ (name, e, n). cc e)
sum_of_iff fname sum (a ∷ b ∷ []) = sum_of-two fname a b sum
sum_of_iff fname sum (a ∷ b ∷ c ∷ fs) = ((λ e. cc e), λ (name, e, n). cc e)

-- What the code reads of a line is what the line lists.
sum_of-IsLine :
    (fname sum line : Text) → (sum_of fname (fields line) ≡ some sum) ↔ IsLine fname sum line
sum_of-IsLine fname sum line =
    let (there, back) = sum_of_iff fname sum (fields line) in
    (
      (λ h. let (name, e, n) = there h in (name, (fields_iff line _).0 e, n)),
      λ (name, w, n). back (name, (fields_iff line _).1 w, n),
    )

abbrev Worded : List Text → Type 0
Worded fs = All (λ f. is_empty f ≡ false) fs

Worded-word :
    (word : Text) (fs : List Text) → Worded fs → Worded (if is_empty word then fs else word ∷ fs)
Worded-word [] fs h = h
Worded-word (x ∷ word) fs h = (refl, h)

Worded-branch :
    (b : Bool) (fs gs : List Text)
    → Worded fs
    → Worded gs
    → Worded (elim b [ true ↦ fs | false ↦ gs ])
Worded-branch true fs gs f g = f
Worded-branch false fs gs f g = g

-- No field is empty.
fields_from-Worded : (s word : Text) → Worded (fields_from word s)
unfolding fields_from
fields_from-Worded [] word = Worded-word word [] tt
fields_from-Worded (x ∷ s) word =
    Worded-branch (is_space x) _ _ (Worded-word word (fields_from [] s) (fields_from-Worded s []))
      (fields_from-Worded s (word ++ (x ∷ [])))

sum_of-Worded :
    (fname sum : Text) (fs : List Text) → Worded fs → sum_of fname fs ≡ some sum → sum ≢ []
unfolding sum_of
sum_of-Worded fname sum [] w h = cc
sum_of-Worded fname sum (a ∷ []) w h = cc
sum_of-Worded fname sum (a ∷ b ∷ []) w h = ground arith
sum_of-Worded fname sum (a ∷ b ∷ c ∷ fs) w h = cc

find_in_lines_iff :
    (fname sum : Text) (lines : List Text)
    → sum ≢ []
    → (find_in_lines fname lines ≡ sum) ↔ IsSum sum fname lines
unfolding find_in_lines
find_in_lines_iff fname sum [] named = ((λ h. named (sym h)), λ p. absurd p)
find_in_lines_iff fname sum (line ∷ lines) named =
    let (there, back) = find_in_lines_iff fname sum lines named in
    let (read, listed) = sum_of-IsLine fname sum line in
    elim (Option-cases (sum_of fname (fields line))) [
      | inl e ↦ (
        (λ h. inr ((λ other p. cc (sym e ∙ (sum_of-IsLine fname other line).1 p)), there cc)),
        λ p. elim p [
          | inl q ↦ absurd (cc (sym e ∙ listed q))
          | inr (n, q) ↦ ground (arith, back q)
        ],
      )
      | inr (x, e) ↦ (
        (λ h. inl (read cc)),
        λ p. elim p [
          | inl q ↦ let g = listed q in ground arith
          | inr (n, q) ↦ absurd (n x ((sum_of-IsLine fname x line).0 e))
        ],
      )
    ]

-- `findSHA256Sum` returns a checksum, which is not the empty text, exactly if it is the one on the
-- first line that lists the file: that has two words, the checksum and the name of the file, which
-- may have the mark `*` in front.
pub find_sha256_sum_iff :
    (sums fname sum : Text)
    → sum ≢ []
    → (find_sha256_sum sums fname ≡ sum) ↔ IsSum sum fname (split b'\n' sums)
unfolding find_sha256_sum
find_sha256_sum_iff sums fname sum named = find_in_lines_iff fname sum (split b'\n' sums) named

-- No line lists the file.
abbrev pub NoLine : Text → List Text → Type 0
NoLine fname lines = All (λ line. (sum : Text) → IsLine fname sum line → ⊥) lines

find_in_lines-none :
    (fname : Text) (lines : List Text) → (find_in_lines fname lines ≡ []) ↔ NoLine fname lines
unfolding find_in_lines
find_in_lines-none fname [] = ((λ h. tt), λ h. refl)
find_in_lines-none fname (line ∷ lines) =
    let (there, back) = find_in_lines-none fname lines in
    elim (Option-cases (sum_of fname (fields line))) [
      | inl e ↦ (
        (λ h. ((λ sum p. cc (sym e ∙ (sum_of-IsLine fname sum line).1 p)), there cc)),
        λ p. ground (arith, back p.1),
      )
      | inr (x, e) ↦ (
        (λ h. absurd (sum_of-Worded fname x (fields line) (fields_from-Worded line []) e cc)),
        λ p. absurd (p.0 x ((sum_of-IsLine fname x line).0 e)),
      )
    ]

-- It returns the empty text, which `ubuntuCloudResolve` takes for an error, exactly if no line
-- lists the file.
pub find_sha256_sum-none :
    (sums fname : Text) → (find_sha256_sum sums fname ≡ []) ↔ NoLine fname (split b'\n' sums)
unfolding find_sha256_sum
find_sha256_sum-none sums fname = find_in_lines-none fname (split b'\n' sums)
