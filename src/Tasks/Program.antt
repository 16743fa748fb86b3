-- ===== src/Tasks/Program.antt =====
-- What `execute` of student-distrib/syscall.c knows of a program that it has checked.
use linux_simulation.Base.{
  ℕ, ◌+◌, ◌*◌, ◌≤◌, ◌<◌, ◌≡◌, inl, inr, sym, ap, ◌∙◌, Bool, true, false, ◌||◌, Option, none, some,
  List, ◌==◌, leb, if◌then◌else◌, >>=-eq-some, if-eq-some, replicate, take, length, minus_one,
  arith,
}
use linux_simulation.CString.{Reader}
use linux_simulation.Filesys.{
  Filesys, Dentry, empty_dentry, read_dentry_by_name, read_data, get_dentry_size, inode_index,
  load32, inode_length, num_inodes, num_data_blocks, data_block,
}
use linux_simulation.Filesys.Data.{FilledFrom, read_data-FilledFrom}
use linux_simulation.Filesys.Keeps.{at_pos, read_dentry_by_name-keeps}
use linux_simulation.Tasks.{entry_point}
use linux_simulation.Tasks.Execute.{
  Program, check_buf, same_bytes, check_magic, check_read, check_entry, check_found, check_file,
}
use linux_simulation.Tasks.Stack.{HasFiles}

-- Only an inode in range is read from.
read_data-lt :
    (fs : Filesys) (inode count : ℕ) (buf : List ℕ) (out : Option (List ℕ) × ℕ)
    → read_data fs inode 0 (some buf) count ≡ some out
    → (out.1 == minus_one) ≡ false
    → inode < num_inodes fs
unfolding read_data
read_data-lt fs inode count buf out e ok =
    elim (if-eq-some (leb (num_inodes fs) inode || leb (num_data_blocks fs) (data_block fs inode 0))
      e) [
        | inl (outside, error) ↦ let is_error : out.1 ≡ minus_one = cc in absurd (ground arith)
        | inr (inside, e1) ↦ ground arith
      ]

-- The program's inode is in range, and its size is the length of the file.
pub record IsProgram (fs : Filesys) (program : Program) : Type 0 where
  pub inode_ok : program.inode < num_inodes fs
  pub whole : program.size ≡ inode_length fs program.inode

checked_program :
    (executable : Bool) (accepted : Option (Option Program)) (program : Program)
    → (if executable then accepted else some none) ≡ some (some program)
    → accepted ≡ some (some program)
checked_program true accepted program e = e
checked_program false accepted program e = cc

check_magic-IsProgram :
    (fs : Filesys) (d : Dentry) (inode : ℕ) (buffer : List ℕ) (program : Program)
    → fs.fs_inodes ≡ fs.fs_bootblk + 4096
    → inode_index d ≡ some inode
    → inode < num_inodes fs
    → check_magic fs d inode buffer ≡ some (some program)
    → IsProgram fs program
unfolding check_magic get_dentry_size
check_magic-IsProgram fs d inode buffer program inodes at_inode lt e =
    let e0 = rw at_inode at e in
    let (executable, compares, e1) = >>=-eq-some (same_bytes check_buf buffer 0) _ e0 in
    let e1' = checked_program executable _ program e1 in
    let (entry, is_entry, e2) = >>=-eq-some (entry_point buffer) _ e1' in
    let size : ℕ = load32 fs.memory (fs.fs_bootblk + 4096 + inode * 4096) in
    let p : Program = record { inode = inode; size = size; entry = entry } in
    let is : p ≡ program = cc in
    let is_inode : inode ≡ program.inode = ap (λ p. p.inode) is in
    let is_size : size ≡ program.size = ap (λ p. p.size) is in
    let same : size ≡ inode_length fs inode =
      ap (λ a. load32 fs.memory (a + inode * 4096)) (sym inodes) in
    record { inode_ok = omega arith; whole = sym is_size ∙ same ∙ ap (inode_length fs) is_inode }

check_read-IsProgram :
    (fs : Filesys) (d : Dentry) (inode : ℕ) (out : Option (List ℕ) × ℕ) (program : Program)
    → fs.fs_inodes ≡ fs.fs_bootblk + 4096
    → inode_index d ≡ some inode
    → ((out.1 == minus_one) ≡ false → inode < num_inodes fs)
    → check_read fs d inode out ≡ some (some program)
    → IsProgram fs program
unfolding check_read
check_read-IsProgram fs d inode (buf, retval) program inodes at_inode inside e =
    elim (if-eq-some (retval == minus_one || retval == 0) e) [
      | inl (failed, nothing) ↦ cc
      | inr (works, e1) ↦
          let (buffer, is_buffer, e2) = >>=-eq-some buf _ e1 in
          check_magic-IsProgram fs d inode (take retval buffer) program inodes at_inode
            (inside (ground arith)) e2
    ]

check_entry-IsProgram :
    (fs : Filesys) (d : Dentry) (program : Program)
    → fs.fs_inodes ≡ fs.fs_bootblk + 4096
    → check_entry fs d ≡ some (some program)
    → IsProgram fs program
unfolding check_entry
check_entry-IsProgram fs d program inodes e =
    let (inode, is_inode, e1) = >>=-eq-some (inode_index d) _ e in
    let (out, reads, e2) = >>=-eq-some (read_data fs inode 0 (some (replicate 30 0)) 30) _ e1 in
    check_read-IsProgram fs d inode out program inodes is_inode
      (read_data-lt fs inode 30 (replicate 30 0) out reads) e2

-- What `check_file` passes on: a file system that differs by its position, and perhaps a program.
pub record IsChecked (fs : Filesys) (out : Filesys × Option Program) : Type 0 where
  pub pos : ℕ
  pub keeps : out.0 ≡ at_pos fs pos
  pub program : (p : Program) → out.1 ≡ some p → IsProgram (at_pos fs pos) p

check_found-IsChecked :
    (fs : Filesys) (found : Filesys × Option Dentry × ℕ) (n : ℕ) (out : Filesys × Option Program)
    → fs.fs_inodes ≡ fs.fs_bootblk + 4096
    → found.0 ≡ at_pos fs n
    → check_found found ≡ some out
    → IsChecked fs out
unfolding check_found
check_found-IsChecked fs (fs', d, r) n out inodes keeps e = elim (if-eq-some (r == minus_one) e) [
  | inl (missing, e1) ↦
      let nothing : Option Program = none in
      let same : (fs', nothing) ≡ out = cc in
      record { pos = n; keeps = sym (ap (λ o. o.0) same) ∙ keeps; program = λ p is. cc }
  | inr (there, e1) ↦
      let (dentry, is_dentry, e2) = >>=-eq-some d _ e1 in
      let (program, checks, e3) = >>=-eq-some (check_entry fs' dentry) _ e2 in
      let same : (fs', program) ≡ out = cc in
      let is_program = sym (ap (λ o. o.1) same) in
      record {
        pos = n;
        keeps = sym (ap (λ o. o.0) same) ∙ keeps;
        program = λ p is.
            check_entry-IsProgram (at_pos fs n) dentry p inodes
              (ap (λ f. check_entry f dentry) (sym keeps) ∙ checks ∙ ap some (sym is_program ∙ is));
      }
]

pub check_file-IsChecked :
    (fs : Filesys) (first_cmd : Reader) (out : Filesys × Option Program)
    → fs.fs_inodes ≡ fs.fs_bootblk + 4096
    → check_file fs first_cmd ≡ some out
    → IsChecked fs out
unfolding check_file
check_file-IsChecked fs first_cmd out inodes e =
    let (found, finds, e1) =
      >>=-eq-some (read_dentry_by_name fs (some first_cmd) (some empty_dentry)) _ e in
    let (n, keeps) = read_dentry_by_name-keeps fs first_cmd empty_dentry found finds in
    check_found-IsChecked fs found n out inodes keeps e1

-- Another position changes neither the files nor their lengths.
pub HasFiles-at_pos : (fs : Filesys) (room n : ℕ) → HasFiles fs room → HasFiles (at_pos fs n) room
HasFiles-at_pos fs room n h = record {
  inodes = h.inodes;
  file = λ inode lt. record {
    inode_ok = (h.file inode lt).inode_ok;
    blocks_ok = (h.file inode lt).blocks_ok;
  };
  fits = h.fits;
}

-- The whole program is read into a memory with room for it.
pub read_data-whole :
    (fs : Filesys) (room : ℕ) (program : Program) (image : List ℕ)
    → HasFiles fs room
    → IsProgram fs program
    → room ≤ length image
    → (out : List ℕ) × (read_data fs program.inode 0 (some image) program.size
        ≡ some (some out, program.size))
      × FilledFrom fs program.inode 0 image 0 program.size out
read_data-whole fs room program image h p enough =
    let fits = h.fits program.inode p.inode_ok in
    let whole = p.whole in
    read_data-FilledFrom fs program.inode 0 image program.size program.size
      (h.file program.inode p.inode_ok) (omega arith) (omega arith) (omega arith)
