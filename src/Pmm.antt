-- ===== src/Pmm.antt =====
-- arch/x86_64/pmm.cpp: the bitmap allocator of physical frames. The bitmap is the list of its
-- bytes, and a `uint64_t` counter wraps as in the source. Pmm/Init
-- has `init`.
pub mod Bits
pub mod Init
pub mod Start
pub mod Ends
pub mod Invariant
pub mod Alloc
mod Tests
use Prim.Native.Nat.{bit_and, bit_or}
use knail.Prelude.{
  ℕ, zero, suc, ◌+◌, ◌-◌, ◌*◌, ◌/◌, ◌%◌, ◌^◌, Bool, true, false, not, ◌||◌, List, get_or, set, ltb,
  leb, ◌==◌, if◌then◌else◌,
}

abbrev pub page_size : ℕ
page_size = 4096

abbrev pub max_frames : ℕ
max_frames = 1024 * 1024

pub record Pmm : Type 0 where
  pub bitmap : List ℕ
  pub total_frames : ℕ
  pub used_frames : ℕ

-- The byte operations behind the three bit helpers, on bit `i` of a byte.
unfoldable pub byte_set : ℕ → ℕ → ℕ
byte_set b i = bit_or b (2 ^ i)

unfoldable pub byte_clear : ℕ → ℕ → ℕ
byte_clear b i = bit_and b (255 - 2 ^ i)

unfoldable pub byte_test : ℕ → ℕ → Bool
byte_test b i = b / 2 ^ i % 2 == 1

-- `bitmap[f/8] |= (uint8_t)(1 << (f%8))`
unfoldable pub set_used : List ℕ → ℕ → List ℕ
set_used bitmap f = set bitmap (f / 8) (byte_set (get_or bitmap (f / 8) 0) (f % 8))

-- `bitmap[f/8] &= ~(uint8_t)(1 << (f%8))`
unfoldable pub set_free : List ℕ → ℕ → List ℕ
set_free bitmap f = set bitmap (f / 8) (byte_clear (get_or bitmap (f / 8) 0) (f % 8))

-- `(bitmap[f/8] >> (f%8)) & 1`
unfoldable pub is_used : List ℕ → ℕ → Bool
is_used bitmap f = byte_test (get_or bitmap (f / 8) 0) (f % 8)

abbrev pub add64 : ℕ → ℕ → ℕ
add64 a b = (a + b) % 2 ^ 64

abbrev pub sub64 : ℕ → ℕ → ℕ
sub64 a b = (a + 2 ^ 64 - b) % 2 ^ 64

abbrev pub mul64 : ℕ → ℕ → ℕ
mul64 a b = a * b % 2 ^ 64

-- The body of the loop of `alloc_frame` at a frame that is not used.
abbrev pub take_frame : Pmm → ℕ → Pmm
take_frame p f = record p { bitmap = set_used p.bitmap f; used_frames = add64 p.used_frames 1 }

-- The loop of `alloc_frame`, with the rounds that are left and the frame number.
unfoldable pub alloc_from : ℕ → ℕ → Pmm → Pmm × ℕ
alloc_from zero f p = (p, 0)
alloc_from (suc n) f p =
    let rest = alloc_from n (f + 1) p in
    if is_used p.bitmap f then rest else (take_frame p f, mul64 f page_size)

unfoldable pub alloc_frame : Pmm → Pmm × ℕ
alloc_frame p = alloc_from (p.total_frames - 1) 1 p

-- The last two statements of `free_frame`.
abbrev pub drop_frame : Pmm → ℕ → Pmm
drop_frame p f = record p { bitmap = set_free p.bitmap f; used_frames = sub64 p.used_frames 1 }

unfoldable pub free_frame : Pmm → ℕ → Pmm
free_frame p phys =
    let f = phys / page_size in
    if f == 0 || (leb p.total_frames f || not (is_used p.bitmap f)) then p else drop_frame p f

pub record Stats : Type 0 where
  pub total_bytes : ℕ
  pub usable_bytes : ℕ
  pub used_frames : ℕ
  pub free_frames : ℕ
  pub total_frames : ℕ

unfoldable pub stats : Pmm → Stats
stats p =
    let free_f = sub64 p.total_frames p.used_frames in
    record {
      total_bytes = mul64 p.total_frames page_size;
      usable_bytes = mul64 free_f page_size;
      used_frames = p.used_frames;
      free_frames = free_f;
      total_frames = p.total_frames;
    }
