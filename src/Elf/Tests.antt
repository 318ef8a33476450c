-- ===== src/Elf/Tests.antt =====
-- Runs of the loader on a small file: a header and one loadable segment.
use knail.Types.{KResult, ok}
use knail.Prelude.{ℕ, min, ◌≡◌, refl, true, List, [], ◌∷◌, ◌++◌, some, arith, get_or, replicate}
use knail.Elf.{
  Image, Loaded, no_calls, parse, load, header_at, header_ok, walk, visit, add_segment, segment_of,
  finish_walk, image_of, phdr_at, little,
}
use knail.Elf.Segments.{IsImage, parse-IsValid}
use knail.Elf.Load.{IsReader, Settled, load-Settled}

abbrev file : List ℕ
file =
    (0x7f ∷ b'E' ∷ b'L' ∷ b'F' ∷ 2 ∷ 1 ∷ 1 ∷ replicate 9 0)
    ++ (2 ∷ 0 ∷ 0x3e ∷ 0 ∷ 1 ∷ 0 ∷ 0 ∷ 0 ∷ 0 ∷ 16 ∷ replicate 6 0)
    ++ (64 ∷ replicate 15 0)
    ++ (0 ∷ 0 ∷ 0 ∷ 0 ∷ 64 ∷ 0 ∷ 56 ∷ 0 ∷ 1 ∷ 0 ∷ replicate 6 0)
    ++ (1 ∷ 0 ∷ 0 ∷ 0 ∷ 5 ∷ 0 ∷ 0 ∷ 0 ∷ 120 ∷ replicate 7 0)
    ++ (0 ∷ 16 ∷ replicate 14 0)
    ++ (4 ∷ replicate 7 0)
    ++ (8 ∷ replicate 15 0)
    ++ (1 ∷ 2 ∷ 3 ∷ 4 ∷ [])

abbrev file_mem : ℕ → ℕ
file_mem i = get_or file i 0

abbrev image : Image
image = record {
  entry = 4096;
  segments = record { vaddr = 4096; filesz = 4; memsz = 8; flags = 5; data_at = 8312 } ∷ [];
  file_data = 8192;
  file_size = 124;
}

file-image : parse file_mem 8192 124 ≡ some image
unfolding parse header_at header_ok walk visit add_segment segment_of finish_walk image_of phdr_at
    little
file-image = refl

parse-IsValid_example : IsImage file_mem 8192 124 image
parse-IsValid_example = parse-IsValid file_mem 8192 124 image file-image

-- A file that gives at most 31 bytes at a time.
abbrev slow : ℕ → ℕ → KResult ℕ
slow total len = ok (min 31 len)

slow-IsReader : IsReader slow
slow-IsReader total len n e = let same : min 31 len ≡ n = ok_inj e in omega arith
  where
    ok_inj : ok (min 31 len) ≡ ok n → min 31 len ≡ n
    ok_inj e = cc

load-Settled_example :
    (l : Loaded) × (load 125 true slow file_mem 8192 124 no_calls ≡ some l)
    × Settled 8192 124 no_calls l
load-Settled_example =
    load-Settled 125 slow file_mem 8192 124 no_calls slow-IsReader (omega arith) (omega arith)
