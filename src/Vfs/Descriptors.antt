-- ===== src/Vfs/Descriptors.antt =====
-- fs/vfs.cpp: `read`, `write` and `seek` on a descriptor of a file of the ramfs.
use knail.Types.{KResult, ok}
use knail.Prelude.{
  ℕ, ◌+◌, ◌%◌, ◌^◌, ◌≡◌, ◌≢◌, ◌<◌, refl, sym, ap, ◌∙◌, subst, some, List, length, leb, ◌==◌, true,
  false, arith, inl, inr,
}
use knail.Vfs.{FileDescriptor, Fs, set_file, type_file}
use knail.Vfs.Ramfs.{ramfs_read, ramfs_write, ramfs_readdir}
use knail.Vfs.Bytes.{IsFileAt, put_self}
use knail.Vfs.Write.{ramfs_write-Written, ramfs_read-ramfs_write}
use knail.Vfs.Tree.{FileOps, no_ops, ops_of}
use knail.Vfs.Files.{
  has, vfs_read, vfs_write, vfs_append, moved, advance, read, read_with, write, write_with, seek,
  seek_from, seek_base,
}

-- `ramfs_ops`
unfoldable pub ramfs_ops : ℕ → FileOps
ramfs_ops rounds = record no_ops {
  read =
      some
        (λ p offset len fs. let (reply, bytes) = ramfs_read p offset len fs in (reply, bytes, fs));
  write = some ramfs_write;
  readdir = some (ramfs_readdir rounds);
}

-- An open descriptor, for reading and for writing, of a valid file of the ramfs.
pub record IsOpen (tables : ℕ → FileOps) (rounds fd : ℕ) (fs : Fs) : Type 0 where
  pub live : fd ≢ 0
  pub readable : has (fs.files fd).flags vfs_read ≡ true
  pub writable : has (fs.files fd).flags vfs_write ≡ true
  pub placed : has (fs.files fd).flags vfs_append ≡ false
  pub plain : (fs.nodes (fs.files fd).node).type ≡ type_file
  pub native : ops_of tables (fs.files fd).node fs ≡ ramfs_ops rounds
  pub file : IsFileAt fs (fs.files fd).node

module _ (tables : ℕ → FileOps) (rounds fd : ℕ) where
  write-ramfs_write :
      (src : List ℕ) (fs : Fs)
      → IsOpen tables rounds fd fs
      → write tables fd src fs ≡ (
          let (reply, fs1) =
            ramfs_write
              (fs.files fd).node
              (fs.files fd).offset
              src
              (set_file fd (fs.files fd) fs) in
          (reply, advance fd reply fs1))
  unfolding write write_with ramfs_ops
  write-ramfs_write src fs opened =
      let some_fd : (fd == 0) ≡ false = ground (arith, opened.live) in
      rw (some_fd, opened.writable, opened.plain, opened.native, opened.placed) refl

  read-ramfs_read :
      (len : ℕ) (fs : Fs)
      → IsOpen tables rounds fd fs
      → read tables fd len fs ≡ (
          let (reply, bytes) = ramfs_read (fs.files fd).node (fs.files fd).offset len fs in
          (reply, bytes, advance fd reply fs))
  unfolding read read_with ramfs_ops
  read-ramfs_read len fs opened =
      let some_fd : (fd == 0) ≡ false = ground (arith, opened.live) in
      rw (some_fd, opened.readable, opened.plain, opened.native) refl

  seek-set :
      (off : ℕ) (fs : Fs)
      → fd ≢ 0
      → (fs.nodes (fs.files fd).node).type ≡ type_file
      → off < 2 ^ 63
      → seek fd off 0 fs ≡ (ok off, set_file fd (record (fs.files fd) { offset = off }) fs)
  unfolding seek seek_from seek_base
  seek-set off fs live plain small =
      let some_fd : (fd == 0) ≡ false = ground (arith, live) in
      let same : (0 + off) % 2 ^ 64 ≡ off = omega arith in
      let low : leb (2 ^ 63) off ≡ false = ground arith in rw (some_fd, plain, same, low) refl

  -- The same descriptor at another offset, on the file behind a write to it.
  reopened :
      (fs fs' : Fs) (off : ℕ)
      → IsOpen tables rounds fd fs
      → fs'.files fd ≡ record (fs.files fd) { offset = off }
      → (fs'.nodes (fs.files fd).node).type ≡ type_file
      → (fs'.nodes (fs.files fd).node).ops ≡ (fs.nodes (fs.files fd).node).ops
      → IsFileAt fs' (fs.files fd).node
      → IsOpen tables rounds fd fs'
  unfolding ops_of
  reopened fs fs' off opened at_fd plain ops file = record {
    live = opened.live;
    readable = rw at_fd opened.readable;
    writable = rw at_fd opened.writable;
    placed = rw at_fd opened.placed;
    plain = rw at_fd plain;
    native = rw (at_fd, ops) opened.native;
    file = rw at_fd file;
  }

  -- The state behind a write of `n` bytes that led to `fs1`, and the `seek` back.
  abbrev back_at : ℕ → ℕ → Fs → Fs
  back_at off n fs1 = (seek fd off 0 (advance fd (ok n) fs1)).1

  module _ (off n : ℕ) (fs1 : Fs) where
    at_fd : (advance fd (ok n) fs1).files fd ≡ moved (fs1.files fd) n
    unfolding advance set_file
    at_fd = put_self fd (moved (fs1.files fd) n) fs1.files

    sought :
        fd ≢ 0
        → (fs1.nodes (fs1.files fd).node).type ≡ type_file
        → off < 2 ^ 63
        → back_at off n fs1
          ≡ set_file fd (record (fs1.files fd) { offset = off }) (advance fd (ok n) fs1)
    unfolding advance set_file moved
    sought live plain small =
        ap (λ (r : KResult ℕ × Fs). r.1)
          (seek-set off (advance fd (ok n) fs1) live
            (subst (λ (d : FileDescriptor). (fs1.nodes d.node).type ≡ type_file) (sym at_fd) plain)
            small)
        ∙ ap
            (λ (d : FileDescriptor).
              set_file fd (record d { offset = off }) (advance fd (ok n) fs1))
            at_fd

    read_back :
        (fs : Fs) (src : List ℕ)
        → IsOpen tables rounds fd fs
        → off < 2 ^ 63
        → (fs1.nodes (fs.files fd).node).type ≡ type_file
        → (fs1.nodes (fs.files fd).node).ops ≡ (fs.nodes (fs.files fd).node).ops
        → IsFileAt fs1 (fs.files fd).node
        → fs1.files fd ≡ fs.files fd
        → ramfs_read (fs.files fd).node off (length src) fs1 ≡ (ok (length src), src)
        → ((read tables fd (length src) (back_at off n fs1)).0 ≡ ok (length src))
          × ((read tables fd (length src) (back_at off n fs1)).1 ≡ src)
    unfolding advance set_file ramfs_read
    read_back fs src opened small plain ops file same reads =
        let d : FileDescriptor = record (fs1.files fd) { offset = off } in
        let fs2 : Fs = set_file fd d (advance fd (ok n) fs1) in
        let files : fs2.files fd ≡ d = put_self fd d _ in
        let e : back_at off n fs1 ≡ fs2 = sought opened.live (rw same plain) small in
        let again : IsOpen tables rounds fd fs2 =
          reopened fs fs2 off opened
            (files ∙ ap (λ (c : FileDescriptor). record c { offset = off }) same) plain ops file in
        let got : ramfs_read (fs2.files fd).node (fs2.files fd).offset (length src) fs2
            ≡ (ok (length src), src) =
          rw (files, same) reads in
        let whole = read-ramfs_read (length src) fs2 again in rw (e, whole, got) (refl, refl)

-- With a descriptor that is open for reading and writing on a valid file of the ramfs, not for
-- appending, and an end below 2^62: behind a `write` that succeeds and a `seek` back to the offset
-- from before, a `read` of as many bytes succeeds with the bytes that were written.
pub read-seek-write :
    (tables : ℕ → FileOps) (rounds fd : ℕ) (src : List ℕ) (fs : Fs)
    → IsOpen tables rounds fd fs
    → (fs.files fd).offset + length src < 2 ^ 62
    → (write tables fd src fs).0 ≡ ok (length src)
    → let fs2 = (seek fd (fs.files fd).offset 0 (write tables fd src fs).1).1 in
      ((read tables fd (length src) fs2).0 ≡ ok (length src))
      × ((read tables fd (length src) fs2).1 ≡ src)
unfolding set_file
read-seek-write tables rounds fd src fs opened small done =
    let p = (fs.files fd).node in
    let off = (fs.files fd).offset in
    let fs0 = set_file fd (fs.files fd) fs in
    let call = write-ramfs_write tables rounds fd src fs opened in
    let did : (ramfs_write p off src fs0).0 ≡ ok (length src) =
      ap (λ (r : KResult ℕ × Fs). r.0) (sym call) ∙ done in
    let reads = ramfs_read-ramfs_write fs0 p off src opened.file small did in
    elim (ramfs_write-Written fs0 p off src opened.file small) [
      | inl (_, w) ↦
          rw (call, did)
            (read_back tables rounds fd off (length src) (ramfs_write p off src fs0).1 fs src opened
              (omega arith) (w.same.0 ∙ opened.plain) w.same.1 w.valid
              (ap (λ (files : ℕ → FileDescriptor). files fd) w.same.2
                ∙ put_self fd (fs.files fd) fs.files)
              reads)
      | inr (failed, _, _) ↦ absurd cc
    ]
