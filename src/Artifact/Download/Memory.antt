-- ===== src/Artifact/Download/Memory.antt =====
-- A network in memory, on which the theorems about downloads are applied.
use desktop_hypervisor_mcp.Base.{◌≡◌, refl, arith, inl, inr, true, false, none, [], ◌∷◌}
use desktop_hypervisor_mcp.Base.Int.{pos}
use desktop_hypervisor_mcp.Base.Text.{Text, text, has_prefix, size}
use desktop_hypervisor_mcp.Provider.Errors.{Result, ok, err, is_ok, message, Result-cases}
use desktop_hypervisor_mcp.Provider.Memory.{
  Files, read_in, without, read_in-without, read_in-cons, read_in-cons_same, memory_host, printed,
}
use desktop_hypervisor_mcp.Artifact.Web.{Web}
use desktop_hypervisor_mcp.Artifact.Download.Verified.{IsHonest}
use desktop_hypervisor_mcp.Artifact.Download.Kept.{IsFramed}

abbrev pub move : Text → Text → Files → Result (Unit {0}) × Files
move old new s = elim (read_in s old) [
  | ok content ↦ (ok tt, (new, content) ∷ without old s)
  | err e ↦ (err e, s)
]

-- Every URL answers the same body, and a content stands for its own hash.
abbrev pub memory_web : Text → Web
memory_web answer = record {
  host = memory_host (printed []);
  is_https = λ url. has_prefix url (text "https:");
  request = λ url. ok tt;
  http_get =
      λ url s. (ok (record { is_status_ok = true; status = text "200 OK"; body = answer }), s);
  http_head = λ url s. (ok (pos 0), s);
  decode_release = λ body. err (message body);
  decode_box = λ body. err (message body);
  read_limited = λ body. ok body;
  hex_sha256 = λ content. content;
  create_file = λ file s. (ok tt, (file, []) ∷ s);
  copy_body = λ file content s.
      (record { failure = none; count = size content; digest = content }, (file, content) ∷ s);
  close_file = λ file s. (ok tt, s);
  rename = move;
  size_and_time = λ count s t. text "(0.0 MB in 1s";
  megabytes = λ count. text "0.0 MB";
  open_box = λ s path. err (message path);
}

read-move :
    (answer old new : Text) (s t : Files)
    → move old new s ≡ (ok tt, t)
    → read_in t new ≡ read_in s old
read-move answer old new s t h = elim (Result-cases (read_in s old)) [
  | inl (content, e) ↦ ground (arith, read_in-cons_same new content (without old s))
  | inr (x, e) ↦ absurd (ground arith)
]

pub memory_web-IsHonest : (answer : Text) → IsHonest (memory_web answer)
memory_web-IsHonest answer = record {
  copy_digest = λ path body s h. (body, read_in-cons_same path body s, refl);
  read-close_file = λ path s. refl;
  read-rename = read-move answer;
}

read-move_failed :
    (old new path : Text) (s : Files)
    → is_ok (move old new s).0 ≡ false
    → read_in (move old new s).1 path ≡ read_in s path
read-move_failed old new path s h = ground arith

pub memory_web-IsFramed : (answer : Text) → IsFramed (memory_web answer)
memory_web-IsFramed answer = record {
  read-mkdir_all = λ folder path s. refl;
  read-http_get = λ url path s. refl;
  read-create_file = λ file path s other. read_in-cons file [] path s other;
  read-copy_body = λ file body path s other. read_in-cons file body path s other;
  read-close_file = λ file path s other. refl;
  read-remove = λ file path s other. read_in-without file path s other;
  read-rename_failed = read-move_failed;
}
