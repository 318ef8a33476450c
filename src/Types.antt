-- ===== src/Types.antt =====
-- kernel/include/types.hpp: the error codes and `kResult<T>`.

use knail.Prelude.{◌≡◌, refl, ◌⊎◌, inl, inr}

-- `enum class kError`.
pub data KError : Type 0 where
  none invalid_argument null_pointer out_of_memory not_implemented overflow : KError
  io_error timeout device_not_ready device_error : KError
  not_found not_a_directory not_a_file end_of_file filesystem_corrupt read_only : KError
  already_exists no_space is_directory bad_file_descriptor out_of_file_descriptors : KError
  permission_denied busy : KError

-- `kResult<T>`; `kStatus` is `KResult (Unit {0})`.
pub data KResult {ℓ} (A : Type ℓ) : Type ℓ where
  ok : A → KResult A
  err : KError → KResult A

pub KResult-cases {ℓ} :
    {A : Type ℓ} (reply : KResult A)
    → ((value : A) × (reply ≡ ok value)) ⊎ ((why : KError) × (reply ≡ err why))
KResult-cases (ok value) = inl (value, refl)
KResult-cases (err why) = inr (why, refl)
