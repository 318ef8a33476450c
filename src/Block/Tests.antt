-- ===== src/Block/Tests.antt =====
-- Runs of the registry with one device.
use knail.Prelude.{◌≡◌, refl, true, some, [], ◌∷◌, arith, if◌then◌else◌}
use knail.Block.{BlockDevice, init, register_device, get}
use knail.Block.Lookup.{IsValid, get-register_device}

abbrev disk : BlockDevice
disk = record { sector_count = 100; sector_size = 512; name = b'h' ∷ b'd' ∷ b'a' ∷ []; priv = 0 }

init-IsValid : IsValid init
unfolding init
init-IsValid = record { sized = refl; count_in = omega arith }

get-register_device_example :
    IsValid (register_device disk init).1
    × (get 0 (register_device disk init).1
        ≡ (if (register_device disk init).0 then some disk else get 0 init))
    × ((register_device disk init).0 ≡ true)
unfolding init
get-register_device_example = get-register_device disk 0 init-IsValid
