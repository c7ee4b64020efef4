-- ===== src/Provider/Memory.antt =====
-- A host in memory, on which the theorems about the program are applied.
use desktop_hypervisor_mcp.Base.{
  ◌≡◌, ◌≢◌, ◌∙◌, refl, sym, ap, arith, false, none, some, List, [], ◌∷◌, if◌then◌else◌,
}
use desktop_hypervisor_mcp.Base.Text.{Text, text, ◌==◌}
use desktop_hypervisor_mcp.Base.Text.Equal.{eq_iff, eq_refl}
use desktop_hypervisor_mcp.Provider.Errors.{Result, ok, err, not_exist}
use desktop_hypervisor_mcp.Provider.Files.{IsFaithful}
use desktop_hypervisor_mcp.Provider.Host.{Process, Host}
use desktop_hypervisor_mcp.Provider.Patterns.{Patterns}

abbrev pub Files : Type 0
Files = List (Text × Text)

abbrev pub read_in : Files → Text → Result Text
read_in [] path = err (not_exist path)
read_in ((p, content) ∷ files) path = if p == path then ok content else read_in files path

abbrev pub without : Text → Files → Files
without path [] = []
without path ((p, content) ∷ files) =
    let rest = without path files in if p == path then rest else (p, content) ∷ rest

pub read_in-without :
    (path other : Text) (files : Files)
    → other ≢ path
    → read_in (without path files) other ≡ read_in files other
read_in-without path other [] h = refl
read_in-without path other ((p, content) ∷ files) h =
    ground (arith, eq_iff p path, eq_iff p other, read_in-without path other files h)

pub read_in-cons :
    (path content other : Text) (files : Files)
    → other ≢ path
    → read_in ((path, content) ∷ files) other ≡ read_in files other
read_in-cons path content other files h = ground (arith, eq_iff path other)

pub read_in-cons_same :
    (path content : Text) (files : Files) → read_in ((path, content) ∷ files) path ≡ ok content
read_in-cons_same path content files = rw (eq_refl path) refl

-- A host whose files are a list, the newest first, and whose commands all end the same way.
abbrev pub memory_host : Process → Host
memory_host process = record {
  State = Files;
  goos = text "linux";
  goarch = text "amd64";
  getenv = λ k. [];
  environ = [];
  current_user = none;
  user_home = ok (text "/root");
  look_path = λ s name. some name;
  run_process = λ bin args env s. (process, s);
  stat = λ s path. elim (read_in s path) [ ok content ↦ none | err e ↦ some e ];
  glob = λ s pattern. [];
  read_file = read_in;
  write_file = λ path content s. (ok tt, (path, content) ∷ s);
  mkdir_all = λ path s. (ok tt, s);
  chmod = λ path s. (ok tt, s);
  remove = λ path s. (ok tt, without path s);
  remove_all = λ path s. s;
  make_temp_dir = λ name s. (ok (text "/tmp/t"), s);
}

pub memory_host-IsFaithful : (process : Process) → IsFaithful (memory_host process)
memory_host-IsFaithful process = record {
  read-write = λ path content s t e. ap (λ r. read_in r.1 path) (sym e) ∙ rw (eq_refl path) refl;
}

abbrev pub printed : Text → Process
printed out = record { timed_out = false; failure = none; stdout = out; stderr = [] }

abbrev pub broken : Process
broken = record {
  timed_out = false;
  failure = some (text "exit status 1");
  stdout = [];
  stderr = [];
}

-- No pattern finds anything.
abbrev pub no_matches : Patterns
no_matches = record {
  vmrun_version = λ p. none;
  lease_blocks = λ t. [];
  subnet_of = λ t. none;
  machine_folder = λ t. none;
  vm_lines = λ t. [];
  value_of = λ t. none;
  mac_in = λ t. none;
  lease_of = λ t. none;
  network_names = λ t. [];
  has_network = λ name out. false;
}
