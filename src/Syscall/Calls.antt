-- ===== src/Syscall/Calls.antt =====
-- kernel/syscall.cpp: the handlers of the system calls on files and directories. `tables` are the
-- operations tables of the file systems.
use knail.Types.{KResult, ok, err}
use knail.FdTable.{FdTable, lookup, remove}
use knail.Vfs.{Fs, type_dir}
use knail.Vfs.Ramfs.{Dirent}
use knail.Vfs.Paths.{get_cwd, resolve_internal}
use knail.Vfs.Tree.{FileOps, mkdir, unlink, build_path}
use knail.Vfs.Files.{open_path, close, read, write, readdir, seek, dup}
use knail.Vfs.Mounts.{stat_node}
use knail.Vfs.Pipes.{pipe}
use knail.Prelude.{
  ℕ, ◌%◌, ◌^◌, not, ◌||◌, Option, some, ◌>>=◌, List, [], ◌∷◌, ◌++◌, length, ◌==◌, if◌then◌else◌,
}
use knail.Syscall.{
  System, Handler, e_noent, e_badf, e_fault, e_notdir, e_inval, e_nospace, value_or, done_or,
  with_table, with_file, fdt_lookup, fdt_install, fdt_install_at, is_negative,
}

-- Bytes written to the memory of the program.
abbrev store : ℕ → List ℕ → System → System
store at bytes sys = record sys { stored = (at, bytes) ∷ sys.stored }

-- The bytes of a list sent to the serial line.
unfoldable pub echo : List ℕ → List ℕ → List ℕ
echo [] line = line
echo (c ∷ cs) line = echo cs (c ∷ line)

module _ (tables : ℕ → FileOps) (rounds pipe_table : ℕ) where
  unfoldable pub write_file : List ℕ → System → ℕ → Option (ℕ × System)
  write_file src sys f =
      let (reply, fs) = write tables f src sys.fs in
      some (value_or e_inval reply, record sys { fs = fs })

  unfoldable pub handle_write : Handler
  handle_write args sys =
      let src = sys.user_bytes args.arg1 args.arg2 in
      let sys1 = record sys {
        serial = if args.arg0 == 2 then echo src sys.serial else sys.serial;
      } in
      if args.arg1 == 0
      then some (e_fault, sys)
      else fdt_lookup args.arg0 sys1 (write_file src sys1)

  unfoldable pub read_file : ℕ → ℕ → System → ℕ → Option (ℕ × System)
  read_file buf len sys f =
      let (reply, bytes, fs) = read tables f len sys.fs in
      some (value_or e_inval reply, store buf bytes (record sys { fs = fs }))

  unfoldable pub handle_read : Handler
  handle_read args sys =
      if (args.arg1 == 0) || (args.arg2 == 0)
      then some (e_fault, sys)
      else fdt_lookup args.arg0 sys (read_file args.arg1 args.arg2 sys)

  -- A new file in the table: closed again when the table is full.
  unfoldable pub give_out : System → ℕ → ℕ × Option FdTable → ℕ × System
  give_out sys f (fd, fdt) =
      if is_negative fd
      then (e_nospace, record sys { fs = close tables f sys.fs; fdt = fdt })
      else (fd, record sys { fdt = fdt })

  unfoldable pub install_new : System → ℕ → KResult ℕ × Fs → ℕ × System
  install_new sys why (err _, fs) = (why, record sys { fs = fs })
  install_new sys why (ok f, fs) = give_out (record sys { fs = fs }) f (fdt_install sys.fdt f)

  unfoldable pub handle_open : Handler
  handle_open args sys =
      if args.arg0 == 0
      then some (e_fault, sys)
      else with_table sys.fdt
          (λ t.
            open_path tables rounds (sys.user_string args.arg0) args.arg1 sys.fs
            >>= (λ r. some (install_new sys e_noent r)))
          sys

  unfoldable pub close_removed : System → KResult ℕ × Option FdTable → ℕ × System
  close_removed sys (err _, fdt) = (e_badf, record sys { fdt = fdt })
  close_removed sys (ok f, fdt) = (0, record sys { fdt = fdt; fs = close tables f sys.fs })

  unfoldable pub handle_close : Handler
  handle_close args sys =
      with_table sys.fdt (λ t. some (close_removed sys (remove (some t) args.arg0))) sys

  unfoldable pub seek_file : ℕ → ℕ → System → ℕ → Option (ℕ × System)
  seek_file offset whence sys f =
      let (reply, fs) = seek f offset whence sys.fs in
      some (value_or e_inval reply, record sys { fs = fs })

  unfoldable pub handle_seek : Handler
  handle_seek args sys = fdt_lookup args.arg0 sys (seek_file args.arg1 args.arg2 sys)

  -- The fields that `fill_stat` sets, as words.
  unfoldable pub fill_stat : ℕ → System → ℕ → ℕ × System
  fill_stat out sys node = elim (stat_node sys.fs node) [
    | err why ↦ (e_noent, sys)
    | ok b ↦ (0, store out (b.st_mode ∷ b.st_size ∷ b.st_blksize ∷ b.st_blocks ∷ []) sys)
  ]

  unfoldable pub handle_stat : Handler
  handle_stat args sys =
      if (args.arg0 == 0) || (args.arg1 == 0)
      then some (e_fault, sys)
      else resolve_internal rounds (sys.user_string args.arg0) sys.fs
        >>= (λ node. some (fill_stat args.arg1 sys node))

  unfoldable pub handle_fstat : Handler
  handle_fstat args sys = fdt_lookup args.arg0 sys (λ f.
      if args.arg1 == 0
      then some (e_fault, sys)
      else some (fill_stat args.arg1 sys (sys.fs.files f).node))

  unfoldable pub entry_bytes : KResult Dirent → List ℕ
  entry_bytes (err why) = []
  entry_bytes (ok d) = d.name ++ (0 ∷ d.type ∷ [])

  unfoldable pub readdir_file : ℕ → System → ℕ → Option (ℕ × System)
  readdir_file out sys f =
      let (reply, fs) = readdir tables f sys.fs in
      if out == 0
      then some (e_fault, sys)
      else some (done_or e_fault reply, store out (entry_bytes reply) (record sys { fs = fs }))

  unfoldable pub handle_readdir : Handler
  handle_readdir args sys = fdt_lookup args.arg0 sys (readdir_file args.arg1 sys)

  unfoldable pub handle_mkdir : Handler
  handle_mkdir args sys =
      if args.arg0 == 0
      then some (e_fault, sys)
      else mkdir tables rounds (sys.user_string args.arg0) sys.fs
        >>= (λ r. some (done_or e_inval r.0, record sys { fs = r.1 }))

  unfoldable pub handle_unlink : Handler
  handle_unlink args sys =
      if args.arg0 == 0
      then some (e_fault, sys)
      else unlink tables rounds (sys.user_string args.arg0) sys.fs
        >>= (λ r. some (done_or e_noent r.0, record sys { fs = r.1 }))

  unfoldable pub handle_dup : Handler
  handle_dup args sys =
      fdt_lookup args.arg0 sys (λ f. some (install_new sys e_nospace (dup f sys.fs)))

  -- `handle_dup2` behind the copy: the file in the table at `newfd`.
  unfoldable pub put_at : System → ℕ → KResult ℕ × Fs → ℕ × System
  put_at sys newfd (err _, fs) = (e_nospace, record sys { fs = fs })
  put_at sys newfd (ok f, fs) =
      give_out (record sys { fs = fs }) f (fdt_install_at sys.fdt f (newfd % 2 ^ 32))

  -- Behind the call of `remove`: a success closes `existing`, which is still null.
  unfoldable pub dup2_removed : System → ℕ → ℕ → KResult ℕ × Option FdTable → ℕ × System
  dup2_removed sys f newfd (err _, fdt) = put_at (record sys { fdt = fdt }) newfd (dup f sys.fs)
  dup2_removed sys f newfd (ok found, fdt) =
      let fs = close tables 0 sys.fs in put_at (record sys { fdt = fdt; fs = fs }) newfd (dup f fs)

  unfoldable pub handle_dup2 : Handler
  handle_dup2 args sys =
      with_table sys.fdt
        (λ t.
          if args.arg0 == args.arg1
          then some (args.arg1, sys)
          else with_file (lookup (some t) args.arg0)
              (λ f. some (dup2_removed sys f args.arg1 (remove (some t) args.arg1))) sys)
        sys

  -- `handle_pipe` behind the second `install`, and behind the first.
  unfoldable pub pipe_second : System → ℕ → ℕ → ℕ → ℕ → ℕ × Option FdTable → ℕ × System
  pipe_second sys fds read_end write_end rfd (wfd, fdt) =
      let closed = close tables write_end (close tables read_end sys.fs) in
      if is_negative wfd
      then (e_nospace, record sys { fdt = (remove fdt rfd).1; fs = closed })
      else (0, store fds (rfd % 2 ^ 32 ∷ wfd % 2 ^ 32 ∷ []) (record sys { fdt = fdt }))

  unfoldable pub pipe_first : System → ℕ → ℕ → ℕ → ℕ × Option FdTable → ℕ × System
  pipe_first sys fds read_end write_end (rfd, fdt) =
      let closed = close tables write_end (close tables read_end sys.fs) in
      if is_negative rfd
      then (e_nospace, record sys { fdt = fdt; fs = closed })
      else pipe_second (record sys { fdt = fdt }) fds read_end write_end rfd
          (fdt_install fdt write_end)

  unfoldable pub pipe_made : System → ℕ → KResult (ℕ × ℕ) × Fs → ℕ × System
  pipe_made sys fds (err _, fs) = (e_nospace, record sys { fs = fs })
  pipe_made sys fds (ok (read_end, write_end), fs) =
      pipe_first (record sys { fs = fs }) fds read_end write_end (fdt_install sys.fdt read_end)

  unfoldable pub handle_pipe : Handler
  handle_pipe args sys =
      if args.arg0 == 0
      then some (e_fault, sys)
      else with_table sys.fdt (λ t. some (pipe_made sys args.arg0 (pipe pipe_table sys.fs))) sys

  -- The text of `build_path` and its NUL; its length is the reply.
  unfoldable pub handle_getcwd : Handler
  handle_getcwd args sys =
      let text = build_path (get_cwd sys.fs) args.arg1 sys.fs in
      if (args.arg0 == 0) || (args.arg1 == 0)
      then some (e_fault, sys)
      else some (length text, store args.arg0 (text ++ (0 ∷ [])) sys)

  unfoldable pub change_to : System → ℕ → ℕ × System
  change_to sys node =
      if node == 0
      then (e_noent, sys)
      else if not ((sys.fs.nodes node).type == type_dir)
      then (e_notdir, sys)
      else (0, record sys { fs = record sys.fs { cwd = node } })

  unfoldable pub handle_chdir : Handler
  handle_chdir args sys =
      if args.arg0 == 0
      then some (e_fault, sys)
      else resolve_internal rounds (sys.user_string args.arg0) sys.fs
        >>= (λ node. some (change_to sys node))
