-- ===== src/Storage/Trusted/Listing.antt =====
-- What the store of crates/storage/src/trusted.rs lists.
use superspace.Base.{◌≡◌, true, List}
use mathlib.Core.List.{Perm}
use superspace.Base.Order
use superspace.Base.Result.{Result, ok}
use superspace.Base.Sort.{IsSorted}
use superspace.Storage.Trusted.{
  TrustedDevice, TrustedDeviceStore, well_formed, list, compare_devices,
}

abbrev pub IsWellFormed : TrustedDevice → Type 0
IsWellFormed device = well_formed device ≡ true

-- A list that the store returns: its devices, each once, and no device before one that is to come first.
pub record IsListed (rows : TrustedDeviceStore) : Type 0 where
  pub devices : List TrustedDevice
  pub listed : list true rows ≡ ok devices
  pub complete : Perm devices rows
  pub ordered : IsSorted compare_devices devices
