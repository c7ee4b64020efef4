-- ===== src/VirtualBox/Network.antt =====
-- provider/virtualbox/ops.go: `IP`, `EnsureClusterNetwork`, and what VirtualBox has not.
pub mod Leased
use desktop_hypervisor_mcp.Base.{Option, none, some, List, [], ◌∷◌, ◌++◌, if◌then◌else◌}
use desktop_hypervisor_mcp.Base.Text.{Text, text, or_text, is_empty}
use desktop_hypervisor_mcp.Provider.Contract.{guestinfo_config, make_iso}
use desktop_hypervisor_mcp.Provider.Errors.{
  Result, ok, err, message, unsupported, M, ◌>>=◌, return, fail,
}
use desktop_hypervisor_mcp.Provider.Host.{Host}
use desktop_hypervisor_mcp.Provider.Patterns.{Patterns}
use desktop_hypervisor_mcp.VirtualBox.Run.{run}

-- The match in an output, where the command went well.
abbrev pub in_output : (Text → Option Text) → Result Text → Option Text
in_output find (ok out) = find out
in_output find (err e) = none

-- The output of a command whose error is dropped.
abbrev pub printed_or_nothing : Result Text → Text
printed_or_nothing (ok out) = out
printed_or_nothing (err e) = []

-- What `IP` returns for the match of an address.
unfoldable pub found_or : Text → Option Text → Result Text
found_or complaint (some ip) = ok ip
found_or complaint none = err (message complaint)

unfoldable pub cluster_name : Text → Text
cluster_name name = or_text name (text "cluster-net")

unfoldable pub cluster_cidr : Text → Text
cluster_cidr cidr = or_text cidr (text "192.168.100.0/24")

abbrev attach_hint : Text → Text
attach_hint name = text "attach VMs with --nic1 natnetwork --nat-network1 " ++ name

module _ (H : Host) (P : Patterns) where
  -- The query for a lease of the MAC on a network.
  unfoldable pub find_lease : Text → Text → M H.State Text
  find_lease mac network = run H (
      text "dhcpserver"
      ∷ text "findlease"
      ∷ (text "--network=" ++ network)
      ∷ (text "--mac-address=" ++ mac)
      ∷ [])

  -- The loop of `Ops.IP` over the NAT networks.
  unfoldable pub lease_on_any : Text → List Text → H.State → Option Text × H.State
  lease_on_any mac [] s = (none, s)
  lease_on_any mac (network ∷ networks) s =
      let (r, t) = find_lease mac network s in
      elim (in_output P.lease_of r) [ some ip ↦ (some ip, t) | none ↦ lease_on_any mac networks t ]

  -- `Ops.IP` where the caller names no network.
  unfoldable pub ip_on_any : Text → Text → M H.State Text
  ip_on_any vm mac s =
      let (nets, t) = run H (text "natnetwork" ∷ text "list" ∷ []) s in
      let (found, u) = lease_on_any mac (P.network_names (printed_or_nothing nets)) t in
      (
        found_or
            (text "no lease found for "
              ++ (vm ++ text " on any NAT network (guest may still be booting)"))
            found,
        u,
      )

  -- `Ops.IP` on the network that the caller names.
  unfoldable pub ip_on : Text → Text → Text → M H.State Text
  ip_on vm network mac s =
      let (r, t) = find_lease mac network s in
      elim r [
        | err e ↦ (err e, t)
        | ok out ↦ (
          found_or (text "no lease for " ++ (vm ++ (text " on " ++ network))) (P.lease_of out),
          t,
        )
      ]

  -- `Ops.IP` behind the match of the MAC.
  unfoldable pub ip_by_mac : Text → Text → Option Text → M H.State Text
  ip_by_mac vm network none s = fail (message (text "no NIC MAC found for " ++ vm)) s
  ip_by_mac vm network (some mac) s =
      if is_empty network then ip_on_any vm mac s else ip_on vm network mac s

  -- `Ops.IP` where the Guest Additions do not answer.
  unfoldable pub leased_vm_ip : Text → Text → M H.State Text
  leased_vm_ip vm network = do
    info ← run H (text "showvminfo" ∷ vm ∷ text "--machinereadable" ∷ [])
    ip_by_mac vm network (P.mac_in info)

  -- `Ops.IP`
  unfoldable pub vm_ip : Text → Text → M H.State Text
  vm_ip vm network s =
      let (r, t) =
        run H
          (text "guestproperty" ∷ text "get" ∷ vm ∷ text "/VirtualBox/GuestInfo/Net/0/V4/IP" ∷ [])
          s in
      elim (in_output P.value_of r) [ some ip ↦ (ok ip, t) | none ↦ leased_vm_ip vm network t ]

  unfoldable pub add_network : Text → Text → M H.State Text
  add_network name cidr = do
    _ ← run H (
        text "natnetwork"
        ∷ text "add"
        ∷ text "--netname"
        ∷ name
        ∷ text "--network"
        ∷ cidr
        ∷ text "--enable"
        ∷ text "--dhcp"
        ∷ text "on"
        ∷ [])
    return (
        text "created NAT network "
        ++ (name ++ (text " (" ++ (cidr ++ (text ", DHCP on); " ++ attach_hint name)))))

  -- `Ops.EnsureClusterNetwork`
  unfoldable pub ensure_network : Text → Text → M H.State Text
  ensure_network name_given cidr_given s =
      let name = cluster_name name_given in
      let (nets, t) = run H (text "natnetwork" ∷ text "list" ∷ []) s in
      if P.has_network name (printed_or_nothing nets)
      then return
          (text "network "
            ++ (name ++ (text " already exists (NAT network; " ++ (attach_hint name ++ text ")"))))
          t
      else add_network name (cluster_cidr cidr_given) t

  -- `Ops.Show`
  unfoldable pub show_vm : Text → M H.State Text
  show_vm vm = run H (text "showvminfo" ∷ vm ∷ [])

-- `Ops.SetGuestinfo`
unfoldable pub set_vm_guestinfo : {S : Type 0} → Text → List (Text × Text) → M S Text
set_vm_guestinfo vm pairs = fail (unsupported guestinfo_config)

-- `Ops.MakeISO`
unfoldable pub make_vm_iso : {S : Type 0} → Text → Text → Text → M S Text
make_vm_iso src_dir dest label = fail (unsupported make_iso)
