-- ===== src/Artifact/Extract/Tests.antt =====
-- The extraction of a box whose second entry would leave the folder.
use desktop_hypervisor_mcp.Base.{
  ◌≡◌, refl, ap, ◌∙◌, true, none, ◌++◌, Bool, false, eqb, List, [], ◌∷◌,
}
use desktop_hypervisor_mcp.Base.Text.{Text, text, ◌==◌, split, join}
use desktop_hypervisor_mcp.FilePath.{clean_parts, clean_onto, from_parts}
use desktop_hypervisor_mcp.FilePath.Inside.{IsInside}
use desktop_hypervisor_mcp.Provider.Errors.{ok}
use desktop_hypervisor_mcp.Provider.Memory.{Files}
use desktop_hypervisor_mcp.Artifact.Download.Kept.{IsFramed}
use desktop_hypervisor_mcp.Artifact.Download.Memory.{memory_web, memory_web-IsFramed}
use desktop_hypervisor_mcp.Artifact.Extract.{extract_box}
use desktop_hypervisor_mcp.Artifact.Extract.Contained.{extract_box-contained}
use desktop_hypervisor_mcp.Artifact.Web.{regular, Entry, Web}

abbrev entry : Text → Entry
entry name = record { name = name; kind = regular; content = text "c" }

abbrev box_web : Web
box_web = record (memory_web (text "a")) {
  open_box = λ s box. ok (entry (text "x.ovf") ∷ entry (text "../e") ∷ [], none);
}

box_web-IsFramed : IsFramed box_web
box_web-IsFramed =
    let h = memory_web-IsFramed (text "a") in
    record {
      read-mkdir_all = h.read-mkdir_all;
      read-http_get = h.read-http_get;
      read-create_file = h.read-create_file;
      read-copy_body = h.read-copy_body;
      read-close_file = h.read-close_file;
      read-remove = h.read-remove;
      read-rename_failed = h.read-rename_failed;
    }

abbrev target : Text
target = b'/' ∷ b'b' ∷ []

abbrev other_file : Text
other_file = b'/' ∷ b'e' ∷ []

-- Whether the second character is the target's.
abbrev in_target : Text → Bool
in_target (c ∷ d ∷ t) = eqb d b'b'
in_target _ = false

target_kept : clean_parts true (split b'/' target) ≡ (b'b' ∷ []) ∷ []
unfolding clean_parts clean_onto split ◌==◌
target_kept = refl

from_parts-in_target :
    (names : List Text) → in_target (from_parts true ((b'b' ∷ []) ∷ names)) ≡ true
unfolding from_parts join
from_parts-in_target [] = refl
from_parts-in_target (n ∷ names) = refl

elsewhere : IsInside target other_file → ⊥
elsewhere (names, plain, e) =
    let there : false ≡ true =
      ap in_target e
      ∙ ap (λ l. in_target (from_parts true (l ++ names))) target_kept
      ∙ from_parts-in_target names in
    cc there

abbrev files : Files
files = (other_file, text "old") ∷ []

extract_box-contained_example :
    box_web.host.read_file (extract_box box_web (text "box") target files).1 other_file
    ≡ box_web.host.read_file files other_file
extract_box-contained_example =
    extract_box-contained box_web box_web-IsFramed target other_file refl elsewhere (text "box")
      files
