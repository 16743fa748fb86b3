-- ===== src/Filesys/Directory.antt =====
-- The directory side of student-distrib/filesys.c: the readers of names, and the operations that
-- do nothing.
use linux_simulation.Base.{
  ℕ, zero, suc, ◌+◌, ◌*◌, Option, some, List, ◌>>=◌, ◌==◌, ltb, leb, if◌then◌else◌, minus_one,
  store, min, add32,
}
use linux_simulation.CString.{Reader, strlen, strncpy, bytes_of}
use linux_simulation.Filesys.{
  Filesys, Dentry, load8, load32, read_dentry_by_name, read_dentry_by_index, empty_dentry,
}

-- The loop of `fs_dir_read_helper` with `left` for `length`: it stops at 32 bytes, at the end of the
-- name, or when `length` is used up.
unfoldable pub name_loop : ℕ → Filesys → ℕ → ℕ → List ℕ → Option (List ℕ × ℕ)
name_loop zero fs offset bytes_read buf = some (buf, bytes_read)
name_loop (suc left) fs offset bytes_read buf =
    let character = load8 fs.memory (fs.fs_bootblk + 64 + offset * 64 + bytes_read) in
    let more =
      store buf bytes_read character >>= λ b. name_loop left fs offset (bytes_read + 1) b in
    if ltb bytes_read 32
    then if character == 0 then some (buf, bytes_read) else more
    else some (buf, bytes_read)

unfoldable pub fs_dir_read_helper : Filesys → ℕ → List ℕ → ℕ → Option (List ℕ × ℕ)
fs_dir_read_helper fs offset buf count =
    let reading = name_loop count fs offset 0 buf in
    if leb (load32 fs.memory fs.fs_bootblk) offset then some (buf, 0) else reading

-- The same text as `fs_dir_read_helper`, under the name that the tests of lib.c call.
unfoldable pub fs_print_name : Filesys → ℕ → List ℕ → ℕ → Option (List ℕ × ℕ)
fs_print_name fs offset buf count =
    let reading = name_loop count fs offset 0 buf in
    if leb (load32 fs.memory fs.fs_bootblk) offset then some (buf, 0) else reading

-- `for(index = 0; index < 33; index++) buf[index] = '\0';` from `index` on
unfoldable pub clear_name : ℕ → List ℕ → ℕ → Option (List ℕ)
clear_name zero buf index = some buf
clear_name (suc left) buf index = store buf index 0 >>= λ b. clear_name left b (index + 1)

-- The buffer is cleared, and the name of the entry that was read is copied into it.
unfoldable pub pass_name : Dentry → List ℕ → Option (List ℕ × ℕ)
pass_name dentry buf = do
  cleared ← clear_name 33 buf 0
  len ← strlen (bytes_of dentry)
  out ← strncpy cleared (bytes_of dentry) (min len 32)
  some (out, min len 32)

-- Only the name is looked at, and only by the first call of a listing: `fs_dir_read_flag` says
-- whether one is under way, and `file_pos_keeper` where it stands.
unfoldable pub fs_dir_ls_read_helper :
    Filesys → Option Reader → List ℕ → Option (Filesys × List ℕ × ℕ)
fs_dir_ls_read_helper fs fname buf =
    let first = do
      (fs', d, r) ←
          read_dentry_by_name (record fs { fs_dir_read_flag = 1 }) fname (some empty_dentry)
      let passed = d >>= λ dentry. pass_name dentry buf >>= λ (out, n). some (fs', out, n)
      if r == minus_one then some (fs', buf, minus_one) else passed
    in let next = do
      let moved = record fs { file_pos_keeper = add32 fs.file_pos_keeper 1 }
      (d, r) ← read_dentry_by_index moved moved.file_pos_keeper (some empty_dentry)
      let passed = d >>= λ dentry. pass_name dentry buf >>= λ (out, n). some (moved, out, n)
      let ended = some (record fs { file_pos_keeper = 0; fs_dir_read_flag = 0 }, buf, 0)
      if r == 0 then passed else ended
      in if fs.fs_dir_read_flag == 0 then first else next

-- What the operations that do nothing return.
abbrev pub filesys_open : ℕ
filesys_open = 0

abbrev pub filesys_write : ℕ
filesys_write = minus_one

abbrev pub filesys_close : ℕ
filesys_close = 0

abbrev pub fs_dir_open : ℕ
fs_dir_open = 0

abbrev pub fs_dir_write : ℕ
fs_dir_write = minus_one

abbrev pub fs_dir_close : ℕ
fs_dir_close = 0

abbrev pub get_start : Filesys → ℕ
get_start fs = fs.fs_bootblk
