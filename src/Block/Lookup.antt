-- ===== src/Block/Lookup.antt =====
-- drivers/block.cpp: what the registry gives back.
use knail.Prelude.{
  ℕ, ◌+◌, ◌≤◌, ◌≡◌, ◌≢◌, refl, false, none, some, arith, length, get_or, set, length-set,
  get_or-set_self, get_or-set_ne, leb, ltb, subst, ◌∙◌, ◌==◌, if◌then◌else◌, Bool-cases, inl, inr,
}
use knail.Block.{BlockDevice, Registry, max_devices, register_device, get}

pub record IsValid (r : Registry) : Type 0 where
  pub sized : length r.devices ≡ max_devices
  pub count_in : r.device_count ≤ max_devices

-- On a valid registry `register_device` fails where four devices stand and changes nothing;
-- otherwise the new device stands behind the others, which stay at their indices. The registry
-- stays valid.
pub get-register_device :
    (dev : BlockDevice) (j : ℕ) {r : Registry}
    → IsValid r
    → IsValid (register_device dev r).1
      × (get j (register_device dev r).1 ≡ (
          if (register_device dev r).0
          then (if j == r.device_count then some dev else get j r)
          else get j r))
      × ((register_device dev r).0 ≡ ltb r.device_count max_devices)
unfolding register_device get
get-register_device dev j {r} v = elim (Bool-cases (leb 4 r.device_count)) [
  | inl full ↦ (rw full v, rw full refl, rw full (ground arith))
  | inr room ↦ (
    rw room (record {
      sized = length-set r.devices r.device_count (some dev) ∙ v.sized;
      count_in = ground arith;
    }),
    rw room (elim (Bool-cases (j == r.device_count)) [
      | inl new ↦
          let same_index : r.device_count ≡ j = ground arith in
          let within : leb (r.device_count + 1) j ≡ false = ground arith in
          rw (new, within)
            (subst (λ i. get_or (set r.devices r.device_count (some dev)) i none ≡ some dev)
              same_index
              (get_or-set_self r.devices r.device_count (some dev) none (ground (arith, v))))
      | inr old ↦
          let apart : r.device_count ≢ j = ground arith in
          let within : leb (r.device_count + 1) j ≡ leb r.device_count j = ground arith in
          rw (old, within, get_or-set_ne r.devices r.device_count j (some dev) none apart) refl
    ]),
    rw room (ground arith),
  )
]
