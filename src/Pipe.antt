-- ===== src/Pipe.antt =====
-- fs/vfs.cpp, the pipe of `vfs::pipe`: `PipeBuffer`, `pipe_read`, `pipe_write` and `pipe_close`.
-- The node's `data` pointer is the option: `none` is the null pointer. The reply of a read or a
-- write is the byte count, which is at most 4096, so the cast to `i64` keeps it.
pub mod Fifo
pub mod Run
mod Tests
use knail.Types.{KResult, ok, err, KError}
use knail.Prelude.{
  ℕ, zero, suc, ◌+◌, ◌-◌, ◌%◌, ◌^◌, Option, none, some, List, [], ◌∷◌, get_or, set, replicate, take,
  length, ltb, ◌==◌, if◌then◌else◌,
}

abbrev pub pipe_buf_size : ℕ
pipe_buf_size = 4096

pub record PipeBuffer : Type 0 where
  pub buf : List ℕ
  pub read_pos : ℕ
  pub write_pos : ℕ
  pub used : ℕ
  pub refcount : ℕ

-- The buffer that `vfs::pipe` zeroes, with one reference for each end.
abbrev pub fresh : PipeBuffer
fresh = record {
  buf = replicate pipe_buf_size 0;
  read_pos = 0;
  write_pos = 0;
  used = 0;
  refcount = 2;
}

-- The copying loop of `pipe_read`, by the rounds left: the bytes read, and the state after.
unfoldable pub read_loop : ℕ → PipeBuffer → List ℕ × PipeBuffer
read_loop zero pb = ([], pb)
read_loop (suc n) pb =
    let (bytes, pb') = read_loop n (record pb { read_pos = (pb.read_pos + 1) % pipe_buf_size }) in
    (get_or pb.buf pb.read_pos 0 ∷ bytes, pb')

-- The copying loop of `pipe_write`, on the bytes that are still to be written.
unfoldable pub write_loop : List ℕ → PipeBuffer → PipeBuffer
write_loop [] pb = pb
write_loop (b ∷ bs) pb =
    write_loop bs (record pb {
      buf = set pb.buf pb.write_pos b;
      write_pos = (pb.write_pos + 1) % pipe_buf_size;
    })

-- The reply, what stands in the caller's buffer, and the state after.
unfoldable pub pipe_read : Option PipeBuffer → ℕ → KResult ℕ × List ℕ × Option PipeBuffer
pipe_read none len = (err KError.invalid_argument, [], none)
pipe_read (some pb) len =
    if pb.used == 0
    then (ok 0, [], some pb)
    else let to_read = if ltb len pb.used then len else pb.used in
      let (bytes, pb') = read_loop to_read pb in
      (ok to_read, bytes, some (record pb' { used = (pb'.used + 2 ^ 64 - to_read) % 2 ^ 64 }))

-- `src` is the caller's buffer and its length.
unfoldable pub pipe_write : Option PipeBuffer → List ℕ → KResult ℕ × Option PipeBuffer
pipe_write none src = (err KError.invalid_argument, none)
pipe_write (some pb) src =
    let space = (pipe_buf_size + 2 ^ 64 - pb.used) % 2 ^ 64 in
    let to_write = if ltb (length src) space then length src else space in
    if to_write == 0
    then (err KError.no_space, some pb)
    else let pb' = write_loop (take to_write src) pb in
      (ok to_write, some (record pb' { used = (pb'.used + to_write) % 2 ^ 64 }))

-- `refcount` is a `uint32_t`. At 0 the buffer is freed and the node's pointer cleared.
unfoldable pub pipe_close : Option PipeBuffer → Option PipeBuffer
pipe_close none = none
pipe_close (some pb) =
    let refcount = (pb.refcount + 2 ^ 32 - 1) % 2 ^ 32 in
    if refcount == 0 then none else some (record pb { refcount = refcount })
