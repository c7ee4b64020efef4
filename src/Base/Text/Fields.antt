-- ===== src/Base/Text/Fields.antt =====
-- What `strings.Fields` returns, described without it.
use desktop_hypervisor_mcp.Base.{
  Bool, true, false, List, [], ◌∷◌, ◌++◌, if◌then◌else◌, ◌≡◌, ◌≢◌, ◌↔◌, refl, sym, ap, ◌∙◌, subst,
  inl, inr, All, append_assoc, append-nil, Bool-cases, ℕ,
}
use desktop_hypervisor_mcp.Base.Text.{Text, is_empty, is_space, fields_from, fields}

-- No character of the text is, or each is, a space.
abbrev pub IsWord : Text → Type 0
IsWord t = All (λ c. is_space c ≡ false) t

abbrev pub IsBlank : Text → Type 0
IsBlank t = All (λ c. is_space c ≡ true) t

-- A text at which a word is at its end.
abbrev pub EndsWord : Text → Type 0
EndsWord [] = Unit
EndsWord (c ∷ t) = is_space c ≡ true

-- The words of a text, in their order, with spaces around them: nothing else is in it.
abbrev pub IsFields : Text → List Text → Type 0
IsFields t [] = IsBlank t
IsFields t (w ∷ ws) =
    (blank rest : Text) × (t ≡ blank ++ (w ++ rest))
    × IsBlank blank
    × (w ≢ [])
    × IsWord w
    × EndsWord rest
    × IsFields rest ws

IsFields-space :
    (c : ℕ) (t : Text) (ws : List Text) → is_space c ≡ true → IsFields t ws → IsFields (c ∷ t) ws
IsFields-space c t [] s h = (s, h)
IsFields-space c t (w ∷ ws) s (blank, rest, e, b, named, word, ends, more) =
    (c ∷ blank, rest, ap (λ x. c ∷ x) e, (s, b), named, word, ends, more)

IsWord-snoc : (w : Text) (c : ℕ) → IsWord w → is_space c ≡ false → IsWord (w ++ (c ∷ []))
IsWord-snoc [] c h s = (s, tt)
IsWord-snoc (x ∷ w) c (p, h) s = (p, IsWord-snoc w c h s)

-- The step of `fields_from` at a character.
fields_from-at :
    (c : ℕ) (s word : Text) (b : Bool)
    → is_space c ≡ b
    → fields_from word (c ∷ s) ≡ elim b [
      | true ↦ if is_empty word then fields_from [] s else word ∷ fields_from [] s
      | false ↦ fields_from (word ++ (c ∷ [])) s
    ]
unfolding fields_from
fields_from-at c s word b h =
    ap
      (λ b. elim b [
        | true ↦ if is_empty word then fields_from [] s else word ∷ fields_from [] s
        | false ↦ fields_from (word ++ (c ∷ [])) s
      ])
      h

-- A word, which may be empty, in front of a space.
fields_from-space :
    (c : ℕ) (s word : Text)
    → is_space c ≡ true
    → IsWord word
    → IsFields s (fields_from [] s)
    → IsFields
        (word ++ (c ∷ s))
        (if is_empty word then fields_from [] s else word ∷ fields_from [] s)
fields_from-space c s [] space h more = IsFields-space c s _ space more
fields_from-space c s (x ∷ word) space h more =
    ([], c ∷ s, refl, tt, (λ e. cc e), h, space, IsFields-space c s _ space more)

fields_from-IsFields : (s word : Text) → IsWord word → IsFields (word ++ s) (fields_from word s)
unfolding fields_from
fields_from-IsFields [] [] h = tt
fields_from-IsFields [] (x ∷ word) h = ([], [], refl, tt, (λ e. cc e), h, tt, tt)
fields_from-IsFields (c ∷ s) word h = elim (Bool-cases (is_space c)) [
  | inl space ↦
      rw (fields_from-at c s word true space)
        (fields_from-space c s word space h (fields_from-IsFields s [] tt))
  | inr other ↦ rw (fields_from-at c s word false other) (
      subst (λ t. IsFields t (fields_from (word ++ (c ∷ [])) s)) (append_assoc word (c ∷ []) s)
        (fields_from-IsFields s (word ++ (c ∷ [])) (IsWord-snoc word c h other)))
]

fields_from-blank : (b s : Text) → IsBlank b → fields_from [] (b ++ s) ≡ fields_from [] s
fields_from-blank [] s h = refl
fields_from-blank (c ∷ b) s (space, h) =
    fields_from-at c (b ++ s) [] true space ∙ fields_from-blank b s h

fields_from-word :
    (w word s : Text) → IsWord w → fields_from word (w ++ s) ≡ fields_from (word ++ w) s
fields_from-word [] word s h = ap (λ x. fields_from x s) (sym (append-nil word))
fields_from-word (c ∷ w) word s (other, h) =
    fields_from-at c (w ++ s) word false other
    ∙ fields_from-word w (word ++ (c ∷ [])) s h
    ∙ ap (λ x. fields_from x s) (append_assoc word (c ∷ []) w)

fields_from-end :
    (w rest : Text) → w ≢ [] → EndsWord rest → fields_from w rest ≡ w ∷ fields_from [] rest
unfolding fields_from
fields_from-end [] rest h e = absurd (h refl)
fields_from-end (x ∷ w) [] h e = refl
fields_from-end (x ∷ w) (c ∷ rest) h e =
    fields_from-at c rest (x ∷ w) true e
    ∙ ap (λ fs. (x ∷ w) ∷ fs) (sym (fields_from-at c rest [] true e))

IsFields-fields : (ws : List Text) (t : Text) → IsFields t ws → fields t ≡ ws
IsFields-fields [] t h =
    ap (fields_from []) (sym (append-nil t))
    ∙ fields_from-blank t [] h
    ∙ (unfold fields_from in refl)
IsFields-fields (w ∷ ws) t (blank, rest, e, b, named, word, ends, more) =
    ap (fields_from []) e
    ∙ fields_from-blank blank (w ++ rest) b
    ∙ fields_from-word w [] rest word
    ∙ fields_from-end w rest named ends
    ∙ ap (λ x. w ∷ x) (IsFields-fields ws rest more)

-- `fields` returns the words of a text, and what it returns is fixed by that.
pub fields_iff : (t : Text) (ws : List Text) → (fields t ≡ ws) ↔ IsFields t ws
fields_iff t ws = ((λ e. subst (IsFields t) e (fields_from-IsFields t [] tt)), IsFields-fields ws t)
