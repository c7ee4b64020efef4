-- ===== src/Artifact/Web.antt =====
-- What core/artifact/fetch.go calls and does not implement: the network, the decoding of JSON, hashing
-- and the file operations of a download, besides those of the host.
use desktop_hypervisor_mcp.Base.{ℕ, Bool, Option, List}
use desktop_hypervisor_mcp.Base.Int.{ℤ}
use desktop_hypervisor_mcp.Base.Text.{Text}
use desktop_hypervisor_mcp.Provider.Errors.{Error, Result, M}
use desktop_hypervisor_mcp.Provider.Host.{Host}
use desktop_hypervisor_mcp.Artifact.Registry.{Release, Box}

-- `http.Response`, whether its status is 200, and its body.
pub record Response : Type 0 where
  pub is_status_ok : Bool
  pub status : Text
  pub body : Text

-- What `io.Copy` into a file and a hash leaves: its error, the number of bytes, and the hash in hex.
pub record Copied : Type 0 where
  pub failure : Option Error
  pub count : ℕ
  pub digest : Text

-- The kinds of `tar.Header.Typeflag` that the program tells apart.
pub data EntryKind : Type 0 where
  folder regular other_kind : EntryKind

-- An entry of a box, with the content that the archive has for it.
pub record Entry : Type 0 where
  pub name : Text
  pub kind : EntryKind
  pub content : Text

pub record Web : Type 1 where
  pub host : Host
  -- Whether `url.Parse` reads an URL of the scheme `https`.
  pub is_https : Text → Bool
  -- `http.NewRequestWithContext`
  pub request : Text → Result (Unit {0})
  -- `http.Client.Do` of a GET and, with the length that is answered, of a HEAD.
  pub http_get : Text → M host.State Response
  pub http_head : Text → M host.State ℤ
  -- `json.Decoder.Decode`
  pub decode_release : Text → Result Release
  pub decode_box : Text → Result Box
  -- `io.ReadAll` of an `io.LimitReader` of 1 MiB.
  pub read_limited : Text → Result Text
  -- The SHA-256 of a content, in hex.
  pub hex_sha256 : Text → Text
  pub create_file : Text → M host.State (Unit {0})
  pub copy_body : Text → Text → host.State → Copied × host.State
  pub close_file : Text → M host.State (Unit {0})
  pub rename : Text → Text → M host.State (Unit {0})
  -- `(%.1f MB in %s` of a number of bytes and the time since a state.
  pub size_and_time : ℕ → host.State → host.State → Text
  -- `%.1f MB` of a number of bytes.
  pub megabytes : ℤ → Text
  -- The entries of a box, gzipped or plain, and the error behind them if they do not end well; an
  -- error if the box cannot be opened.
  pub open_box : host.State → Text → Result (List Entry × Option Error)
