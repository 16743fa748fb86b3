-- ===== src/Process/Files.antt =====
-- The system calls on files of student-distrib/syscall.c.
use linux_simulation.Base.{
  ℕ, zero, suc, ◌+◌, ◌-◌, ◌*◌, Bool, ◌||◌, Option, none, some, List, [], ◌∷◌, ◌++◌, ◌>>=◌, ◌==◌,
  ltb, leb, if◌then◌else◌, get_elem?, take, drop, codes, minus_one, is_negative, lt_signed, add32,
  sub32, store,
}
use linux_simulation.CString.{Reader, bytes_of, strlen, strncmp, strcpy}
use linux_simulation.Filesys.{
  Filesys, Dentry, empty_dentry, read_dentry_by_name, file_type, filesys_read_helper,
}
use linux_simulation.Filesys.Directory.{fs_dir_ls_read_helper}
use linux_simulation.Process.{
  FopTable, no_table, stdin_ops, stdout_ops, rtc_ops, dir_ops, file_ops, stack_inode, FileNode, Pcb,
  Process, closed_node, opened, max_open_file, file_name,
}

-- The loop of `open` from descriptor `i` on: the first free one, unless one in front of it is taken
-- and the last descriptor is open. The inner `none` is `return -1`. Where the loop ends without
-- either, `available_fd` is not set, and its use is undefined.
unfoldable pub find_fd : ℕ → List FileNode → ℕ → Option (Option ℕ)
find_fd zero files i = none
find_fd (suc left) files i = do
  file ← get_elem? files i
  last ← get_elem? files (max_open_file - 1)
  let rest = find_fd left files (i + 1)
  if file.flags == 0 then some (some i) else if last.flags == 1 then some none else rest

-- `strcpy` into the row of a descriptor runs on into the rows behind it.
unfoldable pub write_name : Pcb → ℕ → Reader → Option (List ℕ)
write_name pcb fd filename = strcpy (drop (32 * fd) pcb.file_names) filename >>= λ row.
    some (take (32 * fd) pcb.file_names ++ row)

-- The case of the `switch` with its table: the descriptor is set up, and the name written.
unfoldable pub set_up : Process → ℕ → FopTable → Reader → Option (Process × ℕ)
set_up p fd table filename = do
  files ← store p.pcb.file_array fd (opened table stack_inode)
  names ← write_name p.pcb fd filename
  let pcb = record (p.pcb) {
    file_array = files;
    file_names = names;
    open_file_num = add32 p.pcb.open_file_num 1;
  }
  some (record p { pcb = pcb }, fd)

-- The table of a file type; none is the `default` case.
unfoldable pub table_of : ℕ → Option FopTable
table_of type =
    if type == 0
    then some rtc_ops
    else if type == 1
    then some dir_ops
    else if type == 2
    then some file_ops
    else none

-- The `return -1` of a search without result, and the `switch` on the type's table.
unfoldable pub place : Process → Option ℕ → Option FopTable → Reader → Option (Process × ℕ)
place p none table filename = some (p, minus_one)
place p (some available_fd) none filename = some (p, minus_one)
place p (some available_fd) (some table) filename = set_up p available_fd table filename

-- The part of `open` behind the look-up of the name, which has changed `fs` to `p.fs`.
unfoldable pub allocate : Process → Dentry → Reader → Option (Process × ℕ)
allocate p dentry filename = do
  fd ← find_fd (max_open_file - 2) p.pcb.file_array 2
  type ← file_type dentry
  place p fd (table_of type) filename

-- The part of `open` behind the two names of the terminal: the look-up, and what follows it.
unfoldable pub open_found : Process → Reader → Filesys × Option Dentry × ℕ → Option (Process × ℕ)
open_found p filename (fs', d, r) =
    let p' : Process = record p { fs = fs' } in
    let found = d >>= λ dentry. allocate p' dentry filename in
    if r == minus_one || p.pcb.open_file_num == max_open_file then some (p', minus_one) else found

unfoldable pub open_entry : Process → Reader → Option (Process × ℕ)
open_entry p filename =
    read_dentry_by_name p.fs (some filename) (some empty_dentry) >>= open_found p filename

unfoldable pub sys_open : Process → Reader → Option (Process × ℕ)
sys_open p filename = do
  as_stdin ← strncmp filename (bytes_of (codes "stdin" ++ 0 ∷ [])) 5
  let as_file = do
    as_stdout ← strncmp filename (bytes_of (codes "stdout" ++ 0 ∷ [])) 6
    if as_stdout == 0 then some (p, 0) else open_entry p filename
  if as_stdin == 0 then some (p, 0) else as_file

-- The fourth entry of a jump table, as `close` calls it: what it points to returns 0, and nothing
-- else happens. A null table, and the null entries of the terminal's tables, are undefined.
unfoldable pub call_close : FopTable → Option ℕ
call_close rtc_ops = some 0
call_close dir_ops = some 0
call_close file_ops = some 0
call_close stdin_ops = none
call_close stdout_ops = none
call_close no_table = none

-- `open_file_num <= 2`, of an `int32_t`
abbrev pub not_above : ℕ → Bool
not_above n = is_negative n || leb n 2

-- A descriptor is an `int32_t`: below 0 is a pattern of 2 ^ 31 and above.
unfoldable pub sys_close : Process → ℕ → Option (Process × ℕ)
sys_close p fd =
    let closing = do
      file ← get_elem? p.pcb.file_array fd
      r ← call_close file.fop_table
      files ← store p.pcb.file_array fd closed_node
      let pcb = record (p.pcb) { file_array = files; open_file_num = sub32 p.pcb.open_file_num 1 }
      some (record p { pcb = pcb }, 0)
    in if lt_signed fd 2 || lt_signed 7 fd || not_above p.pcb.open_file_num
      then some (p, minus_one)
      else closing

-- `getargs`; the comparison of the length with `nbytes` is unsigned.
unfoldable pub getargs : Process → Option (List ℕ) → ℕ → Option (Option (List ℕ) × ℕ)
getargs p none nbytes = some (none, minus_one)
getargs p (some buf) nbytes =
    let checked = do
      len ← strlen (bytes_of p.pcb.arg_buffer)
      let copied = strcpy buf (bytes_of p.pcb.arg_buffer) >>= λ out. some (some out, 0)
      if ltb nbytes len || len == 0 then some (some buf, minus_one) else copied
    in if nbytes == 0 then some (some buf, minus_one) else checked

-- `filesys_read`: the position goes on by the result, whatever it is.
unfoldable pub filesys_read : Process → ℕ → List ℕ → ℕ → Option (Process × List ℕ × ℕ)
filesys_read p fd buf nbytes = do
  file ← get_elem? p.pcb.file_array fd
  (fs', out, n) ←
      filesys_read_helper p.fs (some (file_name p.pcb fd)) file.file_pos (some buf) nbytes
  files ← store p.pcb.file_array fd (record file { file_pos = add32 file.file_pos n })
  out' ← out
  some (record { pcb = record (p.pcb) { file_array = files }; fs = fs' }, out', n)

unfoldable pub fs_dir_read : Process → ℕ → List ℕ → Option (Process × List ℕ × ℕ)
fs_dir_read p fd buf = do
  (fs', out, n) ← fs_dir_ls_read_helper p.fs (some (file_name p.pcb fd)) buf
  some (record p { fs = fs' }, out, n)

-- What an entry of a jump table points to, where it is not null.
pub data Driver : Type 0 where
  reads_terminal writes_terminal reads_rtc writes_rtc reads_dir writes_dir reads_file writes_file :
      Driver

-- `fop_table[1]` and `fop_table[2]`; `none` is a null entry or a null table.
unfoldable pub read_entry : FopTable → Option Driver
read_entry no_table = none
read_entry stdin_ops = some reads_terminal
read_entry stdout_ops = none
read_entry rtc_ops = some reads_rtc
read_entry dir_ops = some reads_dir
read_entry file_ops = some reads_file

unfoldable pub write_entry : FopTable → Option Driver
write_entry no_table = none
write_entry stdin_ops = none
write_entry stdout_ops = some writes_terminal
write_entry rtc_ops = some writes_rtc
write_entry dir_ops = some writes_dir
write_entry file_ops = some writes_file

-- The guards of `read` and `write`: the driver that is called, or none for `return -1`.
unfoldable pub guarded : (FopTable → Option Driver) → Process → ℕ → Option (Option Driver)
guarded entry p fd =
    let checked = do
      file ← get_elem? p.pcb.file_array fd
      some (if file.flags == 0 then none else entry file.fop_table)
    in if lt_signed fd 0 || lt_signed 7 fd then some none else checked

-- `read` and `write` up to the call through the table.
unfoldable pub sys_read : Process → ℕ → Option (Option Driver)
sys_read = guarded read_entry

unfoldable pub sys_write : Process → ℕ → Option (Option Driver)
sys_write = guarded write_entry

-- `set_handler` and `sigreturn` are not supported: both return -1.
abbrev pub set_handler : ℕ
set_handler = minus_one

abbrev pub sigreturn : ℕ
sigreturn = minus_one
