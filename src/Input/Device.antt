-- ===== src/Input/Device.antt =====
-- rkvm-input/src/interceptor.rs and registry.rs: what is known of an input device, and the identity of
-- its device node.
use rkvm.Prelude.{ℕ, Bool, List, Eq, ℕ_discrete}

-- A path, by its bytes.
abbrev pub FilePath : Type 0
FilePath = List ℕ

pub data DeviceOrigin : Type 0 where
  physical virtual : DeviceOrigin

pub record DeviceCapabilities : Type 0 where
  pub key : Bool
  pub relative : Bool
  pub absolute : Bool

pub record DeviceInfo : Type 0 where
  pub path : FilePath
  pub sysfs_path : FilePath
  pub origin : DeviceOrigin
  pub name : List ℕ
  pub bustype : ℕ
  pub vendor : ℕ
  pub product : ℕ
  pub version : ℕ
  pub capabilities : DeviceCapabilities

pub record Entry : Type 0 where
  pub device : ℕ
  pub inode : ℕ

unfoldable pub DeviceOrigin-discrete : Discrete DeviceOrigin
DeviceOrigin-discrete = hlevel

unfoldable pub Entry-discrete : Discrete Entry
unfolding ℕ_discrete
Entry-discrete = hlevel ℕ_discrete

instance abbrev pub Entry_eq : Eq Entry
Entry_eq = record { dec = Entry-discrete }

instance abbrev pub DeviceOrigin_eq : Eq DeviceOrigin
DeviceOrigin_eq = record { dec = DeviceOrigin-discrete }

unfoldable pub FilePath-discrete : Discrete FilePath
unfolding ℕ_discrete
FilePath-discrete = hlevel ℕ_discrete

instance abbrev pub FilePath_eq : Eq FilePath
FilePath_eq = record { dec = FilePath-discrete }
