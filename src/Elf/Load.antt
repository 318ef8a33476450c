-- ===== src/Elf/Load.antt =====
-- proc/elf.cpp: every way through `load` ends, closes the file and keeps no buffer that it does not
-- give back.
use knail.Types.{KResult, ok, err, KError}
use knail.Prelude.{
  ℕ, zero, suc, ◌+◌, ◌-◌, ◌%◌, ◌^◌, ◌<◌, ◌≤◌, ◌||◌, if◌then◌else◌, false, ◌≡◌, refl, ◌∙◌, true, ◌∷◌,
  Option, none, some, arith, ltb, ◌==◌, ltb→lt, Bool-cases, inl, inr, ◌⊎◌,
}
use knail.Elf.Segments.{parse-IsValid}
use knail.Elf.{
  Image, Calls, Loaded, parse, parsed, close_file, give_back, whole_read, after_read, read_all,
  load_into, load, header_size,
}

-- `vfs::read` answers an error, or a number of bytes that is no greater than what was asked for.
abbrev pub IsReader : (ℕ → ℕ → KResult ℕ) → Type 0
IsReader read = (total len n : ℕ) → read total len ≡ ok n → n ≤ len

-- What a round does with an answer, by the round after it.
answered : ℕ → KResult ℕ → (ℕ → Option (KResult ℕ)) → Option (KResult ℕ)
answered total (err e) later = some (err e)
answered total (ok zero) later = some (ok total)
answered total (ok (suc k)) later = later k

answered-ends :
    (total : ℕ) (a : KResult ℕ) (later : ℕ → Option (KResult ℕ))
    → ((k : ℕ) → a ≡ ok (suc k) → (r : KResult ℕ) × (later k ≡ some r))
    → (r : KResult ℕ) × (answered total a later ≡ some r)
unfolding answered
answered-ends total (err e) later h = (err e, refl)
answered-ends total (ok zero) later h = (ok total, refl)
answered-ends total (ok (suc k)) later h = h k refl

read_all-answered :
    (fuel : ℕ) (read : ℕ → ℕ → KResult ℕ) (size total : ℕ) (a : KResult ℕ)
    → elim a [
      | err e ↦ some (err e)
      | ok n ↦ elim n [
        | zero ↦ some (ok total)
        | suc k ↦ read_all fuel read size ((total + suc k) % 2 ^ 64)
      ]
    ]
      ≡ answered total a (λ k. read_all fuel read size ((total + suc k) % 2 ^ 64))
unfolding answered
read_all-answered fuel read size total (err e) = refl
read_all-answered fuel read size total (ok zero) = refl
read_all-answered fuel read size total (ok (suc k)) = refl

-- With more rounds than bytes that are missing, the reading loop ends.
pub read_all-ends :
    (fuel : ℕ) (read : ℕ → ℕ → KResult ℕ) (size total : ℕ)
    → IsReader read
    → size < 2 ^ 64
    → size - total < fuel
    → (r : KResult ℕ) × (read_all fuel read size total ≡ some r)
unfolding read_all
read_all-ends zero read size total reader small lt = absurd (omega arith)
read_all-ends (suc fuel) read size total reader small lt = elim (Bool-cases (ltb total size)) [
  | inl more ↦
      let (r, e) =
        answered-ends total (read total (size - total))
          (λ k. read_all fuel read size ((total + suc k) % 2 ^ 64))
          (λ k got.
            read_all-ends fuel read size ((total + suc k) % 2 ^ 64) reader small
              (omega (arith, ltb→lt total size more, reader total (size - total) (suc k) got))) in
      (r, rw more (read_all-answered fuel read size total (read total (size - total)) ∙ e))
  | inr done ↦ (ok total, rw done refl)
]

-- What `load` owes its caller behind the calls `c`: the file is closed once more; a buffer stays
-- with the image that the result is, or it is given back once, or there never was one.
pub record Settled (buf size : ℕ) (c : Calls) (l : Loaded) : Type 0 where
  pub closed : l.calls.closed ≡ c.closed + 1
  pub owned :
      ((img : Image) × (l.result ≡ ok img) × (img.file_data ≡ buf) × (l.calls.freed ≡ c.freed))
      ⊎ ((e : KError) × (l.result ≡ err e)
          × (l.calls.freed ≡ (if ltb size header_size || buf == 0 then c.freed else buf ∷ c.freed)))

whole_read-Settled :
    (mem : ℕ → ℕ) (buf size total : ℕ) (c : Calls)
    → (ltb size header_size || buf == 0) ≡ false
    → Settled buf size c (whole_read mem buf size total (close_file c))
unfolding whole_read parsed close_file give_back
whole_read-Settled mem buf size total c had = elim (Bool-cases (total == size)) [
  | inl whole ↦ rw whole (go (parse mem buf size) refl)
  | inr short ↦
      rw short (record { closed = refl; owned = inr (KError.io_error, refl, rw had refl) })
]
  where
    go :
        (o : Option Image)
        → parse mem buf size ≡ o
        → Settled buf size c (parsed buf (close_file c) o)
    go none e = record { closed = refl; owned = inr (KError.filesystem_corrupt, refl, rw had refl) }
    go (some img) e = record {
      closed = refl;
      owned = inl (img, refl, (parse-IsValid mem buf size img e).file_data, refl);
    }

after_read-Settled :
    (mem : ℕ → ℕ) (buf size : ℕ) (c : Calls) (r : KResult ℕ)
    → (ltb size header_size || buf == 0) ≡ false
    → Settled buf size c (after_read mem buf size c r)
unfolding after_read close_file give_back
after_read-Settled mem buf size c (err e) had = record {
  closed = refl;
  owned = inr (e, refl, rw had refl);
}
after_read-Settled mem buf size c (ok total) had = whole_read-Settled mem buf size total c had

-- With more rounds than the file has bytes, fewer than 2^64, and reads that give no more than they
-- are asked for, `load` ends on a file that opens. It closes the file once; a buffer that was
-- allocated is the image's when the result is an image, and is freed, once, when it is an error.
pub load-Settled :
    (fuel : ℕ) (read : ℕ → ℕ → KResult ℕ) (mem : ℕ → ℕ) (buf size : ℕ) (c : Calls)
    → IsReader read
    → size < 2 ^ 64
    → size < fuel
    → (l : Loaded) × (load fuel true read mem buf size c ≡ some l) × Settled buf size c l
unfolding load load_into close_file
load-Settled fuel read mem buf size c reader small lt = elim (Bool-cases (ltb size 64)) [
  | inl short ↦ (
    record { result = err KError.filesystem_corrupt; calls = close_file c },
    rw short refl,
    record { closed = refl; owned = inr (KError.filesystem_corrupt, refl, rw short refl) },
  )
  | inr large ↦ elim (Bool-cases (buf == 0)) [
    | inl no_room ↦ (
      record { result = err KError.out_of_memory; calls = close_file c },
      rw (large, no_room) refl,
      record { closed = refl; owned = inr (KError.out_of_memory, refl, rw (large, no_room) refl) },
    )
    | inr room ↦
        let (r, e) = read_all-ends fuel read size 0 reader small (omega arith) in
        (
          after_read mem buf size c r,
          rw (large, room, e) refl,
          after_read-Settled mem buf size c r (rw (large, room) refl),
        )
  ]
]
