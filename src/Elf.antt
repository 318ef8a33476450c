-- ===== src/Elf.antt =====
-- proc/elf.cpp and proc/include/elf.hpp: an ELF64 file is read into a buffer, validated, and its
-- loadable segments are collected. `mem i` is the byte at `buf + i`, which lies in the buffer for
-- `i` below the file's size only. The calls on the file are arguments: whether it opened, its size,
-- and what a read behind `total` bytes answers. In `Calls`, `closed` counts the calls of `vfs::close`
-- and `freed` lists what went to `heap::kfree`. The messages are left out.
pub mod Segments
pub mod Load
mod Tests
use knail.Types.{KResult, ok, err, KError}
use knail.Prelude.{
  ℕ, zero, suc, ◌+◌, ◌-◌, ◌*◌, ◌^◌, ◌%◌, Bool, true, false, not, ◌&&◌, ◌||◌, List, [], ◌∷◌, ◌++◌,
  Option, none, some, ltb, leb, ◌==◌, if◌then◌else◌, length,
}

abbrev pub pt_load : ℕ
pt_load = 1

abbrev pub max_segments : ℕ
max_segments = 16

-- The sizes of `Elf64Header` and `Elf64Phdr`.
abbrev pub header_size : ℕ
header_size = 64

abbrev pub phdr_size : ℕ
phdr_size = 56

-- The `n` bytes from `at` on as a little-endian number.
unfoldable pub little : ℕ → (ℕ → ℕ) → ℕ → ℕ
little zero mem at = 0
little (suc n) mem at = mem at + 256 * little n mem (at + 1)

pub record Elf64Header : Type 0 where
  pub ident : ℕ → ℕ
  pub type : ℕ
  pub machine : ℕ
  pub entry : ℕ
  pub phoff : ℕ
  pub phentsize : ℕ
  pub phnum : ℕ

-- The fields that the loader reads, at their places in the packed structure.
unfoldable pub header_at : (ℕ → ℕ) → Elf64Header
header_at mem = record {
  ident = mem;
  type = little 2 mem 16;
  machine = little 2 mem 18;
  entry = little 8 mem 24;
  phoff = little 8 mem 32;
  phentsize = little 2 mem 54;
  phnum = little 2 mem 56;
}

pub record Elf64Phdr : Type 0 where
  pub type : ℕ
  pub flags : ℕ
  pub offset : ℕ
  pub vaddr : ℕ
  pub filesz : ℕ
  pub memsz : ℕ

unfoldable pub phdr_at : (ℕ → ℕ) → ℕ → Elf64Phdr
phdr_at mem at = record {
  type = little 4 mem at;
  flags = little 4 mem (at + 4);
  offset = little 8 mem (at + 8);
  vaddr = little 8 mem (at + 16);
  filesz = little 8 mem (at + 32);
  memsz = little 8 mem (at + 40);
}

-- `data_at` is the pointer `data`.
pub record Segment : Type 0 where
  pub vaddr : ℕ
  pub filesz : ℕ
  pub memsz : ℕ
  pub flags : ℕ
  pub data_at : ℕ

-- `segments` holds the first `segment_count` elements of the array.
pub record Image : Type 0 where
  pub entry : ℕ
  pub segments : List Segment
  pub file_data : ℕ
  pub file_size : ℕ

unfoldable pub segment_of : ℕ → Elf64Phdr → Segment
segment_of buf ph = record {
  vaddr = ph.vaddr;
  filesz = ph.filesz;
  memsz = ph.memsz;
  flags = ph.flags;
  data_at = (buf + ph.offset) % 2 ^ 64;
}

-- The tests on the header, before the walk.
unfoldable pub header_ok : Elf64Header → ℕ → Bool
header_ok eh size =
    (eh.ident 0 == 0x7F)
    && (eh.ident 1 == b'E')
    && (eh.ident 2 == b'L')
    && (eh.ident 3 == b'F')
    && (eh.ident 4 == 2)
    && (eh.ident 5 == 1)
    && ((eh.type == 2) || (eh.type == 3))
    && (eh.machine == 0x3E)
    && (eh.phentsize == phdr_size)
    && not ((eh.phnum == 0) || ltb 64 eh.phnum)
    && not (ltb size ((eh.phoff + eh.phnum * phdr_size) % 2 ^ 64))

-- What the walk does with one loadable header.
unfoldable pub add_segment : ℕ → ℕ → Elf64Phdr → List Segment → Option (List Segment)
add_segment buf size ph segs =
    if ltb size ((ph.offset + ph.filesz) % 2 ^ 64)
    then none
    else if ltb ph.memsz ph.filesz
    then none
    else if leb max_segments (length segs)
    then none
    else some (segs ++ (segment_of buf ph ∷ []))

unfoldable pub visit : ℕ → ℕ → Elf64Phdr → List Segment → Option (List Segment)
visit buf size ph segs =
    if not (ph.type == pt_load) then some segs else add_segment buf size ph segs

-- The walk over `n` headers from `at` on; `none` is a failure.
unfoldable pub walk : ℕ → (ℕ → ℕ) → ℕ → ℕ → ℕ → List Segment → Option (List Segment)
walk zero mem buf size at segs = some segs
walk (suc n) mem buf size at segs = elim (visit buf size (phdr_at mem at) segs) [
  | none ↦ none
  | some segs' ↦ walk n mem buf size (at + phdr_size) segs'
]

unfoldable pub image_of : ℕ → ℕ → ℕ → List Segment → Option Image
image_of entry buf size [] = none
image_of entry buf size (seg ∷ segs) =
    some (record { entry = entry; segments = seg ∷ segs; file_data = buf; file_size = size })

unfoldable pub finish_walk : ℕ → ℕ → ℕ → Option (List Segment) → Option Image
finish_walk entry buf size none = none
finish_walk entry buf size (some segs) = image_of entry buf size segs

-- The validation of the buffer: `none` where the code calls `fail`.
unfoldable pub parse : (ℕ → ℕ) → ℕ → ℕ → Option Image
parse mem buf size =
    let eh = header_at mem in
    if header_ok eh size
    then finish_walk eh.entry buf size (walk eh.phnum mem buf size eh.phoff [])
    else none

-- The calls on the file and on the heap so far.
pub record Calls : Type 0 where
  pub closed : ℕ
  pub freed : List ℕ

abbrev pub no_calls : Calls
no_calls = record { closed = 0; freed = [] }

unfoldable pub close_file : Calls → Calls
close_file c = record c { closed = c.closed + 1 }

unfoldable pub give_back : ℕ → Calls → Calls
give_back buf c = record c { freed = buf ∷ c.freed }

-- The reading loop, and what it returns early with: `read total len` is the answer of `vfs::read`
-- for `len` bytes behind `total`.
unfoldable pub read_all : ℕ → (ℕ → ℕ → KResult ℕ) → ℕ → ℕ → Option (KResult ℕ)
read_all zero read size total = none
read_all (suc fuel) read size total =
    if ltb total size
    then elim (read total (size - total)) [
      | err e ↦ some (err e)
      | ok n ↦ elim n [
        | zero ↦ some (ok total)
        | suc k ↦ read_all fuel read size ((total + suc k) % 2 ^ 64)
      ]
    ]
    else some (ok total)

pub record Loaded : Type 0 where
  pub result : KResult Image
  pub calls : Calls

-- The end of `load`: an image, or what `fail` does.
unfoldable pub parsed : ℕ → Calls → Option Image → Loaded
parsed buf c none = record { result = err KError.filesystem_corrupt; calls = give_back buf c }
parsed buf c (some img) = record { result = ok img; calls = c }

-- Behind the end of the reading loop, which closes the file.
unfoldable pub whole_read : (ℕ → ℕ) → ℕ → ℕ → ℕ → Calls → Loaded
whole_read mem buf size total c =
    if total == size
    then parsed buf c (parse mem buf size)
    else record { result = err KError.io_error; calls = give_back buf c }

-- Behind the reading loop, or its error.
unfoldable pub after_read : (ℕ → ℕ) → ℕ → ℕ → Calls → KResult ℕ → Loaded
after_read mem buf size c (err e) = record { result = err e; calls = close_file (give_back buf c) }
after_read mem buf size c (ok total) = whole_read mem buf size total (close_file c)

-- `buf` is what `heap::kmalloc` gave, 0 for nothing.
unfoldable pub load_into : ℕ → (ℕ → ℕ → KResult ℕ) → (ℕ → ℕ) → ℕ → ℕ → Calls → Option Loaded
load_into fuel read mem buf size c =
    if buf == 0
    then some (record { result = err KError.out_of_memory; calls = close_file c })
    else elim (read_all fuel read size 0) [
      | none ↦ none
      | some total ↦ some (after_read mem buf size c total)
    ]

unfoldable pub load : ℕ → Bool → (ℕ → ℕ → KResult ℕ) → (ℕ → ℕ) → ℕ → ℕ → Calls → Option Loaded
load fuel opens read mem buf size c =
    if not opens
    then some (record { result = err KError.not_found; calls = c })
    else if ltb size header_size
    then some (record { result = err KError.filesystem_corrupt; calls = close_file c })
    else load_into fuel read mem buf size c

-- `free`: the image after, and what was freed.
unfoldable pub free : Image → Image × List ℕ
free image =
    if image.file_data == 0
    then (image, [])
    else (record image { file_data = 0 }, image.file_data ∷ [])
