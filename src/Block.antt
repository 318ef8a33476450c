-- ===== src/Block.antt =====
-- drivers/block.cpp: the registry of block devices. A name is its characters before the 0, and the
-- messages are left out.
pub mod Lookup
mod Tests
use knail.Prelude.{
  ℕ, zero, suc, ◌+◌, Bool, true, false, not, ◌&&◌, List, [], ◌∷◌, Option, none, some, get_or, set,
  replicate, leb, ◌==◌, if◌then◌else◌,
}

abbrev pub max_devices : ℕ
max_devices = 4

pub record BlockDevice : Type 0 where
  pub sector_count : ℕ
  pub sector_size : ℕ
  pub name : List ℕ
  pub priv : ℕ

-- `devices` has 4 elements.
pub record Registry : Type 0 where
  pub devices : List (Option BlockDevice)
  pub device_count : ℕ

unfoldable pub init : Registry
init = record { devices = replicate max_devices none; device_count = 0 }

unfoldable pub register_device : BlockDevice → Registry → Bool × Registry
register_device dev r = if leb max_devices r.device_count then (false, r) else (
  true,
  record { devices = set r.devices r.device_count (some dev); device_count = r.device_count + 1 },
)

unfoldable pub get : ℕ → Registry → Option BlockDevice
get index r = if leb r.device_count index then none else get_or r.devices index none

-- The comparison of two names.
unfoldable pub same_name : List ℕ → List ℕ → Bool
same_name [] [] = true
same_name [] (b ∷ bs) = false
same_name (a ∷ more) [] = false
same_name (a ∷ more) (b ∷ bs) = (a == b) && same_name more bs

-- The loop of `find`, by the devices left and the index; a null pointer, of which there is none
-- below `device_count`, is no match.
unfoldable pub find_from : ℕ → ℕ → List ℕ → Registry → Option BlockDevice
find_from zero i name r = none
find_from (suc n) i name r =
    let rest = find_from n (i + 1) name r in
    elim (get_or r.devices i none) [
      | none ↦ rest
      | some dev ↦ if same_name dev.name name then some dev else rest
    ]

unfoldable pub find : List ℕ → Registry → Option BlockDevice
find name r = find_from r.device_count 0 name r
