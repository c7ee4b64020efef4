-- ===== src/Artifact/Summary/Warns.antt =====
-- The summaries of `Fetch` that say that nothing was verified.
use desktop_hypervisor_mcp.Base.{
  true, [], ◌++◌, ◌≡◌, refl, sym, ap, ◌∙◌, ◌⊎◌, inl, inr, append_assoc,
}
use desktop_hypervisor_mcp.Base.Text.{Text, text, is_empty}
use desktop_hypervisor_mcp.Artifact.Resolve.{Resolved}
use desktop_hypervisor_mcp.Artifact.Summary.{
  unverified_preview, talos_preview, url_preview, box_preview, talos_unverified, unverified,
  extracted_to,
}

abbrev HasWord : Text → Text → Type 0
HasWord word t = (before : Text) × (behind : Text) × (t ≡ before ++ (word ++ behind))

-- The text has the word `UNVERIFIED` or `unverified`.
abbrev pub IsWarned : Text → Type 0
IsWarned t = HasWord (text "UNVERIFIED") t ⊎ HasWord (text "unverified") t

HasWord-behind : (word u t : Text) → HasWord word t → HasWord word (u ++ t)
HasWord-behind word u t (before, behind, e) =
    (u ++ before, behind, ap (λ x. u ++ x) e ∙ sym (append_assoc u before (word ++ behind)))

HasWord-before : (word u t : Text) → HasWord word u → HasWord word (u ++ t)
HasWord-before word u t (before, behind, e) = (
  before,
  behind ++ t,
  ap (λ x. x ++ t) e
      ∙ append_assoc before (word ++ behind) t
      ∙ ap (λ x. before ++ x) (append_assoc word behind t),
)

IsWarned-behind : (u t : Text) → IsWarned t → IsWarned (u ++ t)
IsWarned-behind u t (inl h) = inl (HasWord-behind _ u t h)
IsWarned-behind u t (inr h) = inr (HasWord-behind _ u t h)

IsWarned-before : (u t : Text) → IsWarned u → IsWarned (u ++ t)
IsWarned-before u t (inl h) = inl (HasWord-before _ u t h)
IsWarned-before u t (inr h) = inr (HasWord-before _ u t h)

unverified_preview-IsWarned : (url dest size : Text) → IsWarned (unverified_preview url dest size)
unfolding unverified_preview text
unverified_preview-IsWarned url dest size = IsWarned-behind (text "\n  url: ") _ (
    IsWarned-behind url _ (
      IsWarned-behind (text "\n  size: ") _ (
        IsWarned-behind size _ (
          IsWarned-before
            (text "\n  no published checksum — would download UNVERIFIED\n  would save to: ") dest
            (inl (
              text "\n  no published checksum — would download ",
              text "\n  would save to: ",
              refl,
            ))))))

pub talos_preview-IsWarned :
    (r : Resolved) (tag url dest size : Text) → IsWarned (talos_preview r tag url dest size)
unfolding talos_preview
talos_preview-IsWarned r tag url dest size = IsWarned-behind (text "resolved ") _ (
    IsWarned-behind r.source _ (
      IsWarned-behind (text " ") _ (
        IsWarned-behind tag _ (
          IsWarned-behind (text " from Image Factory") _
            (unverified_preview-IsWarned url dest size)))))

pub url_preview-IsWarned : (r : Resolved) (dest size : Text) → IsWarned (url_preview r dest size)
unfolding url_preview
url_preview-IsWarned r dest size =
    IsWarned-behind (text "resolved ") _
      (IsWarned-behind r.source _ (unverified_preview-IsWarned r.locator dest size))

pub talos_unverified-IsWarned : (tag out : Text) → IsWarned (talos_unverified tag out)
unfolding talos_unverified text
talos_unverified-IsWarned tag out = IsWarned-behind out _ (
    IsWarned-behind (text "\nversion: ") _ (
      IsWarned-behind tag _
        (inr (text "\nWARNING: Image Factory publishes no checksum — ", [], refl))))

pub unverified-IsWarned : (out : Text) → IsWarned (unverified out)
unfolding unverified text
unverified-IsWarned out =
    IsWarned-behind out _ (inr (text "\nWARNING: no published checksum — ", [], refl))

pub extracted_to-IsWarned :
    (sum dest out : Text) → is_empty sum ≡ true → IsWarned (extracted_to sum dest out)
unfolding extracted_to text
extracted_to-IsWarned sum dest out bare = rw bare (
    IsWarned-before _ _ (
      IsWarned-behind out _
        (inr (text "\nWARNING: registry publishes no sha256 for this version — ", [], refl))))

pub box_preview-IsWarned :
    (r : Resolved) (version arch url sum box dest : Text)
    → is_empty sum ≡ true
    → IsWarned (box_preview r version arch url sum box dest)
unfolding box_preview text
box_preview-IsWarned r version arch url sum box dest bare = rw bare (
    IsWarned-behind (text "resolved vagrant box ") _ (
      IsWarned-behind r.locator _ (
        IsWarned-behind (text " ") _ (
          IsWarned-behind version _ (
            IsWarned-behind (text " (") _ (
              IsWarned-behind r.vagrant_provider _ (
                IsWarned-behind (text " provider, ") _ (
                  IsWarned-behind arch _ (
                    IsWarned-behind (text ")\n  url: ") _ (
                      IsWarned-behind url _ (
                        IsWarned-behind (text "\n  ") _ (
                          IsWarned-before _ _ (
                            inl (
                              text
                                  "registry publishes no sha256 for this version — would download ",
                              [],
                              refl,
                            ))))))))))))))
