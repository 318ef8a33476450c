-- ===== src/Syscall/Duplicate.antt =====
-- kernel/syscall.cpp: `handle_dup` with a full table of descriptors.
use knail.Types.{KResult, ok, err, KError}
use knail.FdTable.{FdTable, lookup, install}
use knail.Vfs.{VNode, Fs, kmalloc, kfree, set_node, set_file}
use knail.Vfs.Bytes.{put_self, kmalloc-rest}
use knail.Vfs.Created.{set_node-same, set_node-ne}
use knail.Vfs.Tree.{FileOps}
use knail.Vfs.Files.{close, dup, dup_to}
use knail.Syscall.{
  System, SyscallArgs, e_nospace, value_or, with_table, with_file, fdt_lookup, fdt_install,
}
use knail.Syscall.Calls.{handle_dup, install_new, give_out}
use knail.Prelude.{
  ℕ, ◌+◌, ◌-◌, ◌%◌, ◌^◌, ◌≤◌, ◌<◌, ◌≡◌, ◌≢◌, refl, ap, ◌∙◌, false, Option, some, ◌∷◌, ◌==◌, arith,
  Bool-cases, inl, inr,
}

-- The copy of a descriptor that `dup` makes, and that `close` takes back.
module _ (f p : ℕ) (fs : Fs) where
  abbrev node_of : ℕ
  node_of = (fs.files f).node

  abbrev counted : ℕ → VNode
  counted r = record (fs.nodes node_of) { refcount = r }

  -- The state behind the copy.
  abbrev copied : Fs
  copied =
      set_node node_of (counted (((fs.nodes node_of).refcount + 1) % 2 ^ 32))
        (set_file p (fs.files f) fs)

  dup_to-copied : p ≢ 0 → dup_to f (p, fs) ≡ (ok p, copied)
  unfolding dup_to
  dup_to-copied live = let some_p : (p == 0) ≡ false = ground (arith, live) in rw some_p refl

  at_copy : copied.files p ≡ fs.files f
  unfolding set_node set_file
  at_copy = put_self p (fs.files f) fs.files

  at_node : copied.nodes node_of ≡ counted (((fs.nodes node_of).refcount + 1) % 2 ^ 32)
  at_node = set_node-same node_of _ _

  close-copied :
      (tables : ℕ → FileOps)
      → p ≢ 0
      → 1 ≤ (fs.nodes node_of).refcount
      → (fs.nodes node_of).refcount < 2 ^ 32 - 1
      → close tables p copied ≡ kfree p (set_node node_of (fs.nodes node_of) copied)
  unfolding close
  close-copied tables live held low =
      let r = (fs.nodes node_of).refcount in
      let some_p : (p == 0) ≡ false = ground (arith, live) in
      let back : ((r + 1) % 2 ^ 32 + 2 ^ 32 - 1) % 2 ^ 32 ≡ r = omega (arith, held, low) in
      let used : (r == 0) ≡ false = ground (arith, held) in
      rw (some_p, at_copy, at_node, back, used) refl

-- A state whose nodes are those from before, and in which one more address went to `kfree`.
pub record Returned (fs fs' : Fs) (p : ℕ) : Type 0 where
  pub nodes : (q : ℕ) → fs'.nodes q ≡ fs.nodes q
  pub freed : fs'.freed ≡ p ∷ fs.freed

Returned-copied :
    (f p : ℕ) (fs : Fs)
    → Returned fs
        (kfree p (set_node (fs.files f).node (fs.nodes (fs.files f).node) (copied f p fs)))
        p
unfolding kfree set_node set_file
Returned-copied f p fs = record {
  nodes = λ q. elim (Bool-cases (q == (fs.files f).node)) [
    | inl e ↦
        let here : q ≡ (fs.files f).node = ground arith in
        rw here (set_node-same (fs.files f).node _ (copied f p fs))
    | inr e ↦
        let away : q ≢ (fs.files f).node = ground arith in
        set_node-ne (fs.files f).node q _ (copied f p fs) away
        ∙ set_node-ne (fs.files f).node q _ (set_file p (fs.files f) fs) away
  ];
  freed = refl;
}

-- With a table that has no room, a descriptor `f` that is in it, and an allocation of `p`:
-- `handle_dup` answers `ENOSPC`, frees the copy, and leaves the table and every node, the count of
-- references included, as they were, for a count from 1 to 2^32 - 2.
pub handle_dup-Returned :
    (tables : ℕ → FileOps) (rounds pipe_table f : ℕ) (t : FdTable) (why : KError)
    (args : SyscallArgs) (sys : System)
    → sys.fdt ≡ some t
    → lookup (some t) args.arg0 ≡ ok f
    → f ≢ 0
    → (kmalloc sys.fs).0 ≢ 0
    → install (some t) (some (kmalloc sys.fs).0) ≡ (err why, some t)
    → 1 ≤ (sys.fs.nodes (sys.fs.files f).node).refcount
    → (sys.fs.nodes (sys.fs.files f).node).refcount < 2 ^ 32 - 1
    → (sys' : System) × (handle_dup tables rounds pipe_table args sys ≡ some (e_nospace, sys'))
      × (sys'.fdt ≡ some t)
      × Returned sys.fs sys'.fs (kmalloc sys.fs).0
unfolding handle_dup fdt_lookup with_table with_file install_new give_out fdt_install value_or dup
handle_dup-Returned tables rounds pipe_table f t why args sys table found live made full held low =
    let p = (kmalloc sys.fs).0 in
    let fs1 : Fs = record sys.fs { supply = (kmalloc sys.fs).1.supply } in
    let some_f : (f == 0) ≡ false = ground (arith, live) in
    let taken : kmalloc sys.fs ≡ (p, fs1) = ap (λ (r : Fs). (p, r)) (kmalloc-rest sys.fs) in
    let did : dup f sys.fs ≡ (ok p, copied f p fs1) =
      rw (some_f, taken) (dup_to-copied f p fs1 made) in
    let gone = close-copied f p fs1 tables made held low in
    let end =
      kfree p
        (set_node (sys.fs.files f).node (sys.fs.nodes (sys.fs.files f).node) (copied f p fs1)) in
    let back = Returned-copied f p fs1 in
    (
      record sys { fs = end; fdt = some t },
      (let go : ℕ → Option (ℕ × System) =
            λ g. some (install_new tables rounds pipe_table sys e_nospace (dup g sys.fs)) in
          let full_table : fdt_install sys.fdt p ≡ (e_nospace, some t) =
            ap (λ (o : Option FdTable). fdt_install o p) table ∙ rw full refl in
          ap
            (λ (o : Option FdTable).
              with_table o (λ u. with_file (lookup (some u) args.arg0) go sys) sys)
            table
          ∙ ap (λ (r : KResult ℕ). with_file r go sys) found
          ∙ ap (λ (r : KResult ℕ × Fs). some (install_new tables rounds pipe_table sys e_nospace r))
              did
          ∙ ap
              (λ (r : ℕ × Option FdTable).
                some (give_out tables rounds pipe_table (record sys { fs = copied f p fs1 }) p r))
              full_table
          ∙ ap (λ (fs2 : Fs). some (e_nospace, record sys { fs = fs2; fdt = some t })) gone),
      refl,
      record { nodes = back.nodes; freed = back.freed },
    )
