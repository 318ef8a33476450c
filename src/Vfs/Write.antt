-- ===== src/Vfs/Write.antt =====
-- fs/vfs.cpp: what `ramfs_write` does to the bytes of a file, and that `ramfs_read` returns them.
use knail.Types.{KResult, ok, err, KError}
use knail.Prelude.{
  ℕ, zero, suc, ◌+◌, ◌-◌, ◌%◌, ◌^◌, ◌≤◌, ◌<◌, ◌≡◌, ◌⊎◌, inl, inr, refl, ap, ap₂, ◌∙◌, Bool, true,
  ◌||◌, List, [], ◌∷◌, ltb, leb, ◌==◌, if◌then◌else◌, get_or, length, arith, max, min, Bool-cases,
}
use knail.Vfs.{VNode, Fs, kmalloc, set_node, set_bytes}
use knail.Vfs.Ramfs.{copy_out, copy_in, grow, fill_in, ramfs_read, ramfs_write}
use knail.Vfs.Bytes.{
  SameCall, IsFile, IsFileAt, byte_at, patched, Roomy, Grown, grow-Grown, put_self, get_or-copy_in,
  length-copy_in,
}

-- The file of `fs'` is that of `fs` with `src` written at `offset`, and valid.
pub record Written (fs fs' : Fs) (p offset : ℕ) (src : List ℕ) : Type 0 where
  pub valid : IsFileAt fs' p
  pub size : (fs'.nodes p).size ≡ max (fs.nodes p).size (offset + length src)
  pub bytes : (i : ℕ) → byte_at fs' p i ≡ patched offset src (byte_at fs p) i
  pub same : SameCall fs fs' p

patched-past :
    (src : List ℕ) (offset i : ℕ) (old : ℕ → ℕ)
    → offset + length src ≤ i
    → patched offset src old i ≡ old i
patched-past src offset i old past = ground arith

patched_of :
    (src : List ℕ) (offset i : ℕ) (old new : ℕ → ℕ)
    → new i ≡ old i
    → patched offset src new i ≡ patched offset src old i
patched_of src offset i old new e = ground arith

-- The same, of what stands at the addresses of the file and of its buffer.
Written-of :
    (fs fs' : Fs) (p offset : ℕ) (src : List ℕ) (node : VNode) (buf : List ℕ)
    → fs'.nodes p ≡ node
    → fs'.bytes node.data_ptr ≡ buf
    → IsFile node buf
    → node.size ≡ max (fs.nodes p).size (offset + length src)
    → ((i : ℕ) → get_or buf i 0 ≡ patched offset src (byte_at fs p) i)
    → (node.type ≡ (fs.nodes p).type) × (node.ops ≡ (fs.nodes p).ops) × (fs'.files ≡ fs.files)
    → Written fs fs' p offset src
Written-of fs fs' p offset src node buf at_node at_data file size bytes same = record {
  valid = rw (at_node, at_data) file;
  size = rw at_node size;
  bytes = λ i. rw (at_node, at_data) (bytes i);
  same = (rw at_node same.0, rw at_node same.1, same.2);
}

fill_in-Written :
    (fs fs' : Fs) (p offset : ℕ) (src : List ℕ)
    → offset + length src < 2 ^ 62
    → Roomy fs fs' p (offset + length src)
    → Written fs (fill_in p offset src (true, fs')).1 p offset src
unfolding fill_in set_node set_bytes
fill_in-Written fs fs' p offset src small roomy =
    let node = fs'.nodes p in
    let buf = fs'.bytes node.data_ptr in
    let file = roomy.valid in
    let fits : offset + length src ≤ length buf = omega (arith, roomy.room, file.sized) in
    Written-of fs (fill_in p offset src (true, fs')).1 p offset src (record node { size = _ })
      (copy_in src offset buf) (put_self p _ fs'.nodes) (put_self node.data_ptr _ fs'.bytes)
      (record {
        sized = length-copy_in src buf offset ∙ file.sized;
        size_in = ground (arith, roomy.room, file.size_in);
        clear = λ i past.
            get_or-copy_in src offset i buf fits
            ∙ patched-past src offset i (λ k. get_or buf k 0) (ground arith)
            ∙ file.clear i (ground arith);
        null = file.null;
      })
      (ground (arith, roomy.size))
      (λ i.
        get_or-copy_in src offset i buf fits
        ∙ patched_of src offset i (byte_at fs p) (λ k. get_or buf k 0) (roomy.bytes i))
      roomy.same

-- For a valid file and an end below 2^62, `ramfs_write` either answers the length of the bytes,
-- which then stand at the offset, behind them and before them the bytes from before (the table, the type and the
-- descriptors stay), or, for a
-- write beyond the capacity with no memory to be had, `OutOfMemory`, and the allocation that
-- failed is all that changes.
pub ramfs_write-Written :
    (fs : Fs) (p offset : ℕ) (src : List ℕ)
    → IsFileAt fs p
    → offset + length src < 2 ^ 62
    → (((ramfs_write p offset src fs).0 ≡ ok (length src))
        × Written fs (ramfs_write p offset src fs).1 p offset src)
      ⊎ ((ramfs_write p offset src fs ≡ (err KError.out_of_memory, (kmalloc fs).1))
          × ((kmalloc fs).0 ≡ 0)
          × ((fs.nodes p).data_capacity < offset + length src))
unfolding ramfs_write fill_in
ramfs_write-Written fs p offset src file small =
    let e : (offset + length src) % 2 ^ 64 ≡ offset + length src = omega arith in
    rw e
      (finish (grow p (offset + length src) fs) (grow-Grown fs p (offset + length src) file small))
  where
    finish :
        (r : Bool × Fs)
        → Grown fs p (offset + length src) r
        → (((fill_in p offset src r).0 ≡ ok (length src))
            × Written fs (fill_in p offset src r).1 p offset src)
          ⊎ ((fill_in p offset src r ≡ (err KError.out_of_memory, (kmalloc fs).1))
              × ((kmalloc fs).0 ≡ 0)
              × ((fs.nodes p).data_capacity < offset + length src))
    finish (made, fs') (inl (yes_made, roomy)) =
        rw yes_made (inl (refl, fill_in-Written fs fs' p offset src small roomy))
    finish (made, fs') (inr (not_made, same, null, less)) =
        rw (not_made, same) (inr (refl, null, less))

-- The `n` values of `f` from `offset` on.
abbrev pub slice : ℕ → ℕ → (ℕ → ℕ) → List ℕ
slice zero offset f = []
slice (suc n) offset f = f offset ∷ slice n (offset + 1) f

copy_out-slice : (n i : ℕ) (buf : List ℕ) → copy_out n i buf ≡ slice n i (λ k. get_or buf k 0)
unfolding copy_out
copy_out-slice zero i buf = refl
copy_out-slice (suc n) i buf =
    ap (λ (l : List ℕ). get_or buf i 0 ∷ l) (copy_out-slice n (i + 1) buf)

-- `ramfs_read` of a valid file returns the bytes of the file from the offset on, as many as were
-- asked for and as there are.
ramfs_read-slice :
    (fs : Fs) (p offset len : ℕ)
    → IsFileAt fs p
    → ramfs_read p offset len fs
      ≡ (let n = min len ((fs.nodes p).size - offset) in (ok n, slice n offset (byte_at fs p)))
unfolding ramfs_read
ramfs_read-slice fs p offset len file =
    let node = fs.nodes p in
    let reply : ℕ → KResult ℕ × List ℕ = λ n. (ok n, slice n offset (byte_at fs p)) in
    let avail = node.size - offset in
    elim (Bool-cases ((node.data_ptr == 0) || leb node.size offset)) [
      | inl empty ↦ rw empty (ap reply (none_left empty))
      | inr more ↦
          rw
            (
              more,
              copy_out-slice (if ltb avail len then avail else len) offset (fs.bytes node.data_ptr),
            )
            (ap reply (ground arith))
    ]
  where
    none_left :
        ((fs.nodes p).data_ptr == 0) || leb (fs.nodes p).size offset ≡ true
        → 0 ≡ min len ((fs.nodes p).size - offset)
    none_left h = ground (arith, file.null, file.size_in)

slice-same :
    (src : List ℕ) (offset : ℕ) (f : ℕ → ℕ)
    → ((i : ℕ) → i < length src → f (offset + i) ≡ get_or src i 0)
    → slice (length src) offset f ≡ src
slice-same [] offset f h = refl
slice-same (b ∷ bs) offset f h =
    ap₂ (λ (x : ℕ) (l : List ℕ). x ∷ l) (ap f (omega arith) ∙ h 0 (omega arith))
      (slice-same bs (offset + 1) f (λ i lt. ap f (omega arith) ∙ h (suc i) (omega arith)))

-- Behind a write to a valid file that answers success, and with an end below 2^62, a read of as
-- many bytes at the same offset returns those that were written.
pub ramfs_read-ramfs_write :
    (fs : Fs) (p offset : ℕ) (src : List ℕ)
    → IsFileAt fs p
    → offset + length src < 2 ^ 62
    → (ramfs_write p offset src fs).0 ≡ ok (length src)
    → ramfs_read p offset (length src) (ramfs_write p offset src fs).1 ≡ (ok (length src), src)
ramfs_read-ramfs_write fs p offset src file small done =
    elim (ramfs_write-Written fs p offset src file small) [
      | inl (_, w) ↦ back (ramfs_write p offset src fs).1 w
      | inr (failed, _, _) ↦ absurd cc
    ]
  where
    inside :
        (i : ℕ) → i < length src → patched offset src (byte_at fs p) (offset + i) ≡ get_or src i 0
    inside i lt = let e : offset + i - offset ≡ i = omega arith in ground arith

    back :
        (fs' : Fs)
        → Written fs fs' p offset src
        → ramfs_read p offset (length src) fs' ≡ (ok (length src), src)
    back fs' w =
        let all : min (length src) ((fs'.nodes p).size - offset) ≡ length src =
          omega (arith, w.size) in
        ramfs_read-slice fs' p offset (length src) w.valid
        ∙ rw all (
            ap (λ (l : List ℕ). (ok (length src), l))
              (slice-same src offset (byte_at fs' p) (λ i lt. w.bytes (offset + i) ∙ inside i lt)))
