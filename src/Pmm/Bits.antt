-- ===== src/Pmm/Bits.antt =====
-- arch/x86_64/pmm.cpp: the bitmap as a set of frame numbers.
use mathlib.Core.List.{List}
use knail.Prelude.{
  ℕ, ◌/◌, ◌%◌, ◌<◌, ◌≡◌, refl, ap, ◌∙◌, Bool, true, not, ◌&&◌, ◌||◌, arith, ltb, ◌==◌, same,
  same→eq, ltb→lt, every_below, every_below-at, length, get_or, All, All-get_or, All-set,
  length-set, get_or-set_self, get_or-set_ne,
}
use native.Mathlib.Decide.{ℕ_discrete}
use knail.Pmm.{byte_set, byte_clear, byte_test, set_used, set_free, is_used}

-- One check over all bytes and bit numbers.
byte_laws : ℕ → ℕ → ℕ → Bool
unfolding byte_set byte_clear byte_test
byte_laws b i j =
    same (byte_test (byte_set b i) j) (i == j || byte_test b j)
    && (same (byte_test (byte_clear b i) j) (not (i == j) && byte_test b j)
        && (ltb (byte_set b i) 256 && ltb (byte_clear b i) 256))

byte_table : every_below 256 (λ b. every_below 8 (λ i. every_below 8 (λ j. byte_laws b i j))) ≡ true
unfolding every_below byte_laws
byte_table = refl

byte_laws_hold : (b i j : ℕ) → b < 256 → i < 8 → j < 8 → byte_laws b i j ≡ true
byte_laws_hold b i j hb hi hj =
    every_below-at (λ k. byte_laws b i k) 8 j hj
      (every_below-at (λ k. every_below 8 (λ l. byte_laws b k l)) 8 i hi
        (every_below-at (λ c. every_below 8 (λ k. every_below 8 (λ l. byte_laws c k l))) 256 b hb
          byte_table))

and_parts :
    (a b c d : Bool)
    → (a && (b && (c && d))) ≡ true
    → (a ≡ true) × (b ≡ true) × (c ≡ true) × (d ≡ true)
and_parts a b c d h = ground arith

-- What the table says of one byte.
record ByteLaws (b i j : ℕ) : Type 0 where
  test_set : byte_test (byte_set b i) j ≡ (i == j || byte_test b j)
  test_clear : byte_test (byte_clear b i) j ≡ (not (i == j) && byte_test b j)
  set_small : byte_set b i < 256
  clear_small : byte_clear b i < 256

byte-ByteLaws : (b i j : ℕ) → b < 256 → i < 8 → j < 8 → ByteLaws b i j
unfolding byte_laws
byte-ByteLaws b i j hb hi hj =
    let parts =
      and_parts (same (byte_test (byte_set b i) j) (i == j || byte_test b j))
        (same (byte_test (byte_clear b i) j) (not (i == j) && byte_test b j))
        (ltb (byte_set b i) 256) (ltb (byte_clear b i) 256) (byte_laws_hold b i j hb hi hj) in
    record {
      test_set = same→eq _ _ parts.0;
      test_clear = same→eq _ _ parts.1;
      set_small = ltb→lt _ _ parts.2;
      clear_small = ltb→lt _ _ parts.3;
    }

abbrev pub Bytes : List ℕ → Type 0
Bytes = All (λ b. b < 256)

same_frame : (f g : ℕ) → f / 8 ≡ g / 8 → (f % 8 == g % 8) ≡ (f == g)
same_frame f g e = ground arith

-- Marking frame `f` used changes the status of `f` and of no other frame.
pub is_used-set_used :
    (bitmap : List ℕ) (f g : ℕ)
    → Bytes bitmap
    → f / 8 < length bitmap
    → is_used (set_used bitmap f) g ≡ (f == g || is_used bitmap g)
unfolding is_used set_used
is_used-set_used bitmap f g h lt = elim (ℕ_discrete (f / 8) (g / 8)) [
  | yes e ↦
      rw (← e, get_or-set_self bitmap (f / 8) (byte_set (get_or bitmap (f / 8) 0) (f % 8)) 0 lt)
        (laws.test_set
          ∙ ap (λ b. b || byte_test (get_or bitmap (f / 8) 0) (g % 8)) (same_frame f g e))
  | no ne ↦
      rw (get_or-set_ne bitmap (f / 8) (g / 8) (byte_set (get_or bitmap (f / 8) 0) (f % 8)) 0 ne)
        (ground arith)
]
  where
    laws : ByteLaws (get_or bitmap (f / 8) 0) (f % 8) (g % 8)
    laws =
        byte-ByteLaws _ _ _ (All-get_or (λ b. b < 256) bitmap (f / 8) 0 h lt) (omega arith)
          (omega arith)

-- Marking it free likewise.
pub is_used-set_free :
    (bitmap : List ℕ) (f g : ℕ)
    → Bytes bitmap
    → f / 8 < length bitmap
    → is_used (set_free bitmap f) g ≡ (not (f == g) && is_used bitmap g)
unfolding is_used set_free
is_used-set_free bitmap f g h lt = elim (ℕ_discrete (f / 8) (g / 8)) [
  | yes e ↦
      rw (← e, get_or-set_self bitmap (f / 8) (byte_clear (get_or bitmap (f / 8) 0) (f % 8)) 0 lt)
        (laws.test_clear
          ∙ ap (λ b. not b && byte_test (get_or bitmap (f / 8) 0) (g % 8)) (same_frame f g e))
  | no ne ↦
      rw (get_or-set_ne bitmap (f / 8) (g / 8) (byte_clear (get_or bitmap (f / 8) 0) (f % 8)) 0 ne)
        (ground arith)
]
  where
    laws : ByteLaws (get_or bitmap (f / 8) 0) (f % 8) (g % 8)
    laws =
        byte-ByteLaws _ _ _ (All-get_or (λ b. b < 256) bitmap (f / 8) 0 h lt) (omega arith)
          (omega arith)

pub set_used-Bytes :
    (bitmap : List ℕ) (f : ℕ) → Bytes bitmap → f / 8 < length bitmap → Bytes (set_used bitmap f)
unfolding set_used
set_used-Bytes bitmap f h lt =
    All-set (λ b. b < 256) bitmap (f / 8) _ h
      ((byte-ByteLaws (get_or bitmap (f / 8) 0) (f % 8) 0
        (All-get_or (λ b. b < 256) bitmap (f / 8) 0 h lt) (omega arith) (omega arith)).set_small)

pub set_free-Bytes :
    (bitmap : List ℕ) (f : ℕ) → Bytes bitmap → f / 8 < length bitmap → Bytes (set_free bitmap f)
unfolding set_free
set_free-Bytes bitmap f h lt =
    All-set (λ b. b < 256) bitmap (f / 8) _ h
      ((byte-ByteLaws (get_or bitmap (f / 8) 0) (f % 8) 0
        (All-get_or (λ b. b < 256) bitmap (f / 8) 0 h lt) (omega arith) (omega arith)).clear_small)

pub length-set_used : (bitmap : List ℕ) (f : ℕ) → length (set_used bitmap f) ≡ length bitmap
unfolding set_used
length-set_used bitmap f = length-set bitmap (f / 8) _

pub length-set_free : (bitmap : List ℕ) (f : ℕ) → length (set_free bitmap f) ≡ length bitmap
unfolding set_free
length-set_free bitmap f = length-set bitmap (f / 8) _
