-- ===== src/Artifact/Catalog.antt =====
-- core/artifact/resolve.go: the image catalogue and its types. A variant's kind is `none` where the
-- source leaves it empty.
use desktop_hypervisor_mcp.Base.{Option, none, some, List, [], ◌∷◌, ◌++◌}
use desktop_hypervisor_mcp.Base.Text.{Text, text}
use desktop_hypervisor_mcp.Provider.Contract.{ImageFormat, ova, ovf, iso}

-- artifact.Kind
pub data ArtifactKind : Type 0 where
  github_asset url vagrant_box ubuntu_cloud talos_factory : ArtifactKind

pub record Variant : Type 0 where
  pub family : Text
  pub arch : Text
  pub kind : Option ArtifactKind
  pub locator : Text
  pub asset : Text
  pub format : ImageFormat

pub record Source : Type 0 where
  pub name : Text
  pub kind : ArtifactKind
  pub desc : Text
  pub notes : Text
  pub variants : List Variant
  pub default_version : Text

unfoldable pub talos_repo : Text
talos_repo = text "siderolabs/talos"

unfoldable pub talos_vanilla_schematic : Text
talos_vanilla_schematic = text "376567988ad370138ad8b2698212367b8edcb69b5fd68c80be1f2ec7d603b4ba"

-- `vagrant`
unfoldable pub vagrant_source : Text → Text → Text → Source
vagrant_source name box desc = record {
  name = name;
  kind = vagrant_box;
  desc = desc;
  notes = [];
  variants =
      record { family = []; arch = []; kind = none; locator = box; asset = []; format = ovf } ∷ [];
  default_version = [];
}

unfoldable pub talos : Source
talos = record {
  name = text "talos";
  kind = github_asset;
  desc =
      text "Talos Linux (Kubernetes node OS): metal ISO on VirtualBox, Image Factory OVA on VMware";
  notes =
      text "Image Factory publishes no checksum for the vmware OVA, so it "
      ++ (text "downloads unverified. It imports into Fusion with plain ovftool "
          ++ (text "(verified v1.13.8 / ovftool 5.0.0) and boots to maintenance mode, "
              ++ (text "but ovftool defaults its NIC to bridged — switch it to NAT when "
                  ++ text "host-side IP discovery via vmnet DHCP leases is wanted.")));
  variants =
      record {
        family = text "virtualbox";
        arch = [];
        kind = none;
        locator = talos_repo;
        asset = text "metal-{arch}.iso";
        format = iso;
      }
      ∷ record {
        family = text "vmware";
        arch = [];
        kind = some talos_factory;
        locator = talos_vanilla_schematic;
        asset = text "vmware-{arch}.ova";
        format = ova;
      }
      ∷ [];
  default_version = [];
}

unfoldable pub talos_iso : Source
talos_iso = record {
  name = text "talos-iso";
  kind = github_asset;
  desc = text "Talos Linux official metal ISO (Sidero Labs)";
  notes = [];
  variants =
      record {
        family = [];
        arch = [];
        kind = none;
        locator = talos_repo;
        asset = text "metal-{arch}.iso";
        format = iso;
      }
      ∷ [];
  default_version = [];
}

unfoldable pub windows_dev : Source
windows_dev = record {
  name = text "windows-dev";
  kind = url;
  desc = text "Microsoft Windows development environment";
  notes =
      text "~20GB, evaluation-licensed, Microsoft publishes no checksum — downloaded unverified";
  variants =
      record {
        family = text "virtualbox";
        arch = text "amd64";
        kind = none;
        locator = text "https://aka.ms/windev_VM_virtualbox";
        asset = [];
        format = ova;
      }
      ∷ record {
        family = text "vmware";
        arch = text "amd64";
        kind = none;
        locator = text "https://aka.ms/windev_VM_vmware";
        asset = [];
        format = ova;
      }
      ∷ [];
  default_version = [];
}

unfoldable pub ubuntu_cloud_source : Source
ubuntu_cloud_source = record {
  name = text "ubuntu-cloud";
  kind = ubuntu_cloud;
  desc = text "Ubuntu Server cloud image (Canonical)";
  notes =
      text
        "cloud image: no default login — attach a NoCloud cloud-init seed ISO, or use the 'ubuntu' Vagrant entry instead";
  variants =
      record { family = []; arch = []; kind = none; locator = []; asset = []; format = ova } ∷ [];
  default_version = text "24.04";
}

unfoldable pub turnkey_core : Source
turnkey_core = record {
  name = text "turnkey-core";
  kind = url;
  desc = text "TurnKey Linux Core appliance OVA";
  notes = text "fixed version pin; no automated checksum";
  variants =
      record {
        family = [];
        arch = text "amd64";
        kind = none;
        locator =
            text
              "https://mirror.turnkeylinux.org/turnkeylinux/images/ova/turnkey-core-18.1-bookworm-amd64.ova";
        asset = [];
        format = ova;
      }
      ∷ [];
  default_version = [];
}

-- `Catalog`
unfoldable pub catalog : List Source
catalog =
    talos
    ∷ talos_iso
    ∷ windows_dev
    ∷ ubuntu_cloud_source
    ∷ turnkey_core
    ∷ vagrant_source (text "ubuntu") (text "bento/ubuntu-24.04") (text "Ubuntu 24.04 LTS (bento)")
    ∷ vagrant_source (text "debian") (text "bento/debian-12") (text "Debian 12 (bento)")
    ∷ vagrant_source (text "fedora") (text "bento/fedora-41") (text "Fedora 41 (bento)")
    ∷ vagrant_source (text "rocky") (text "bento/rockylinux-9") (text "Rocky Linux 9 (bento)")
    ∷ vagrant_source (text "alma") (text "bento/almalinux-9") (text "AlmaLinux 9 (bento)")
    ∷ vagrant_source (text "opensuse") (text "bento/opensuse-leap-15")
        (text "openSUSE Leap 15 (bento)")
    ∷ vagrant_source (text "freebsd") (text "bento/freebsd-14") (text "FreeBSD 14 (bento)")
    ∷ vagrant_source (text "kali") (text "kalilinux/rolling") (text "Kali Linux rolling")
    ∷ []
