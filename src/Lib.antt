-- ===== src/Lib.antt =====
-- Desktop Hypervisor MCP: one provider-neutral server over VirtualBox and VMware.
--
-- The server (main.go) asks each detector which hypervisors the host has, chooses the adapter of a
-- call and hands the call on. An adapter (provider/vmware/, provider/virtualbox/) runs the tools of
-- its product through provider.RunCmd, which repairs the environment of the child first. Package
-- artifact (core/artifact/) resolves the name of an image for a provider and downloads it.
--
-- Base: lists, Go's `int` and `string`, and what is used of package strings, with its lemmas.
-- FilePath: what is used of package path/filepath.
-- Provider.Contract, .Errors, .Specs, .Creds: provider/contract.go and provider/ops.go. An error is
--   a value; an operation on the host is a function from a state to a result and a state.
-- Provider.Ops: the interface `Ops` of provider/ops.go, as a record of operations;
--   Provider.Ops.Refusals is what it promises of calls that cannot be served.
-- Provider.Patterns: what the regular expressions of both adapters find, as parameters.
-- Provider.Env: provider/env.go (`normalizeEnv`, `ChildEnv`).
-- Provider.RunCmd: provider/runcmd.go (`RunCmd`).
-- Provider.RepackIso: provider/repackiso.go (`RepackISO`; `patch_content` is its loop).
-- Provider.Host: the operating system, as a record of operations on an unknown state; Provider.Files
--   states what is relied on; Provider.Memory is a host in memory for the tests.
-- Artifact.Catalog, .Resolve: core/artifact/resolve.go (`Catalog`, `pick`, `Resolve`).
-- Artifact.Registry, .Download, .Extract, .Summary, .Requests, .Fetch:
--   core/artifact/fetch.go (`findSHA256Sum`, `findAsset`, `vagrantVersion.provider` and the choice
--   of `vagrantResolve`; `fetchHTTPS`; `extractBox`; the summaries of `Fetch`; the requests; `Fetch`).
--   Artifact.Web is the network, the decoding of JSON, hashing and the reading of archives, as
--   parameters; Artifact.Download.Memory is one in memory for the tests.
-- Artifact.HttpClient: core/artifact/httpclient.go (`dialWithFallback`, `isDNSNotFound`).
-- Base.Text.Fields: what `strings.Fields` returns, described without it.
-- FilePath.Inside: where a joined path lies, for the names of a box.
-- VMware.Tools, .Detect: provider/vmware/detect.go (`lookup` and the tools' places; `Detect`).
-- VMware.Vmx, .Run, .Config, .Create, .Inventory, .Lifecycle, .Guest, .MakeIso:
--   provider/vmware/ops.go. Vmx is `setVMXKeys` and `vmxKey` on a content; Run has `vmrun`,
--   `resolveVMX` and `ensureOff`; the others have the operations under their names; Adapter is `New`.
-- VirtualBox.Run, .Inventory, .Create, .Machines, .InGuest, .Network, .Adapter:
--   provider/virtualbox/ops.go and `Bin` of provider/virtualbox/detect.go, over VBoxManage; .Detect
--   is its `Detect`.
-- Server: main.go (`ready`, `ops`, the choice of `selectOps` among descriptors, `instructions`);
--   Server.Discover joins it with the detectors and the adapters, Server.Inputs and .Tools are the
--   tools that hand a call on, Server.Images is `artifactTool`.
--
-- Texts are lists of code points and taken to be valid UTF-8; case is folded for the ASCII letters;
-- %q is taken for texts that need no escape. Paths have the slash as their separator, and a file is
-- the text of its path. `digits` prints a number on fuel that is one more than the number;
-- `digits_fuel` shows that this is enough. No other definition has fuel: each loop is structural
-- recursion. Loops of the source that change a slice in place are functions from lists to lists.
-- Go's `int` does not overflow in the one product that is computed, a size of a disk in MB. Regular
-- expressions, the network, JSON, hashing, times and sizes that are printed, and processes are
-- parameters.
--
-- Not modelled: what encoding/json prints (the answer of `artifactTool` is the resolution itself),
-- the registration of the tools and `main` (glue over the protocol library), the timeouts and
-- transports of net/http, the free space of a disk (only reported), and the scripts.
pub mod Base
pub mod FilePath
pub mod Provider
pub mod Artifact
pub mod VMware
pub mod VirtualBox
pub mod Server
