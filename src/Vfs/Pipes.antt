-- ===== src/Vfs/Pipes.antt =====
-- fs/vfs.cpp: `vfs::pipe`, and the operations of a pipe on its node.
use knail.Types.{KResult, ok, err, KError}
use knail.Prelude.{ℕ, Option, none, some, [], ◌∷◌, ◌==◌, ◌||◌, if◌then◌else◌}
use knail.Pipe.{PipeBuffer, fresh, pipe_read, pipe_write, pipe_close}
use knail.Vfs.{
  FileDescriptor, Fs, kmalloc, kfree, kfree_some, set_node, set_file, put, alloc_vnode, type_file,
}
use knail.Vfs.Tree.{FileOps, no_ops}
use knail.Vfs.Files.{vfs_read, vfs_write}

-- The buffer that a node points to.
unfoldable pub pipe_of : ℕ → Fs → Option PipeBuffer
pipe_of p fs = if (fs.nodes p).data_ptr == 0 then none else some (fs.pipes (fs.nodes p).data_ptr)

-- The buffer of the node behind an operation.
unfoldable pub set_pipe : ℕ → Option PipeBuffer → Fs → Fs
set_pipe p none fs = fs
set_pipe p (some pb) fs = record fs { pipes = put (fs.nodes p).data_ptr pb fs.pipes }

-- `pipe_close`, which frees the buffer with its last reference.
unfoldable pub close_end : ℕ → Option PipeBuffer → Fs → Fs
close_end p none fs =
    let n = fs.nodes p in set_node p (record n { data_ptr = 0 }) (kfree_some n.data_ptr fs)
close_end p (some pb) fs = set_pipe p (some pb) fs

-- `pipe_ops`
unfoldable pub pipe_ops : FileOps
pipe_ops = record no_ops {
  read = some (λ p offset len fs.
      let (reply, bytes, pb) = pipe_read (pipe_of p fs) len in (reply, bytes, set_pipe p pb fs));
  write = some (λ p offset src fs.
      let (reply, pb) = pipe_write (pipe_of p fs) src in (reply, set_pipe p pb fs));
  close = some (λ p fs. close_end p (pipe_close (pipe_of p fs)) fs);
}

abbrev end_at : ℕ → ℕ → FileDescriptor
end_at node flags = record { node = node; offset = 0; flags = flags; dir_index = 0 }

-- `pipe` behind the allocation of the second descriptor: the reply is the two ends.
unfoldable pub pipe_fds : ℕ → ℕ → ℕ → ℕ × Fs → KResult (ℕ × ℕ) × Fs
pipe_fds pb node rfd (wfd, fs) =
    if (rfd == 0) || (wfd == 0)
    then (err KError.out_of_memory, kfree pb (kfree node (kfree_some wfd (kfree_some rfd fs))))
    else (
      ok (rfd, wfd),
      set_file wfd (end_at node vfs_write) (set_file rfd (end_at node vfs_read) fs),
    )

unfoldable pub pipe_rfd : ℕ → ℕ → ℕ × Fs → KResult (ℕ × ℕ) × Fs
pipe_rfd pb node (rfd, fs) = pipe_fds pb node rfd (kmalloc fs)

-- Behind the allocation of the node, which takes the address of `pipe_ops`.
unfoldable pub pipe_node : ℕ → ℕ → ℕ × Fs → KResult (ℕ × ℕ) × Fs
pipe_node ops pb (node, fs) =
    if node == 0
    then (err KError.out_of_memory, kfree pb fs)
    else pipe_rfd pb node (
        kmalloc
          (set_node node (record (fs.nodes node) { ops = ops; data_ptr = pb; refcount = 2 }) fs))

unfoldable pub pipe_buffer : ℕ → ℕ × Fs → KResult (ℕ × ℕ) × Fs
pipe_buffer ops (pb, fs) =
    let name = b'[' ∷ b'p' ∷ b'i' ∷ b'p' ∷ b'e' ∷ b']' ∷ [] in
    if pb == 0
    then (err KError.out_of_memory, fs)
    else pipe_node ops pb (alloc_vnode name type_file (record fs { pipes = put pb fresh fs.pipes }))

-- `read_out` and `write_out` are not null.
unfoldable pub pipe : ℕ → Fs → KResult (ℕ × ℕ) × Fs
pipe ops fs = pipe_buffer ops (kmalloc fs)
