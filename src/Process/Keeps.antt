-- ===== src/Process/Keeps.antt =====
-- What `open` and `close` of student-distrib/syscall.c leave of a process: who it is, and the files
-- on the disk.
use linux_simulation.Base.{
  ℕ, ◌≡◌, inl, inr, refl, ap, ◌∙◌, Option, none, some, [], ◌∷◌, ◌++◌, codes, ◌||◌, ◌==◌,
  >>=-eq-some, if-eq-some, minus_one, lt_signed, get_elem?, store,
}
use linux_simulation.CString.{Reader, bytes_of, strncmp}
use linux_simulation.Filesys.{Filesys, Dentry, file_type, empty_dentry, read_dentry_by_name}
use linux_simulation.Filesys.Keeps.{at_pos, read_dentry_by_name-keeps}
use linux_simulation.Process.{FopTable, Process, opened, closed_node, stack_inode, max_open_file}
use linux_simulation.Process.Files.{
  find_fd, write_name, set_up, place, table_of, allocate, open_entry, open_found, sys_open,
  not_above, call_close, sys_close,
}

-- The same process, with the same parent, on the same disk.
pub record IsSameTask (p q : Process) : Type 0 where
  pub id : q.pcb.process_id ≡ p.pcb.process_id
  pub child_of : q.pcb.parent_process_id ≡ p.pcb.parent_process_id
  pub running : q.pcb.running_state ≡ p.pcb.running_state
  pub pos : ℕ
  pub disk : q.fs ≡ at_pos p.fs pos

unchanged : (p : Process) → IsSameTask p p
unchanged p = record {
  id = refl;
  child_of = refl;
  running = refl;
  pos = p.fs.file_pos_keeper;
  disk = refl;
}

place-IsSameTask :
    (p : Process) (fd : Option ℕ) (table : Option FopTable) (filename : Reader) (out : Process × ℕ)
    → place p fd table filename ≡ some out
    → IsSameTask p out.0
unfolding place set_up
place-IsSameTask p none table filename out e =
    let same : p ≡ out.0 = cc in rw (← same) (unchanged p)
place-IsSameTask p (some fd) none filename out e =
    let same : p ≡ out.0 = cc in rw (← same) (unchanged p)
place-IsSameTask p (some fd) (some table) filename out e =
    let (files, stored, e1) =
      >>=-eq-some (store p.pcb.file_array fd (opened table stack_inode)) _ e in
    let (names, written, e2) = >>=-eq-some (write_name p.pcb fd filename) _ e1 in
    record { id = cc; child_of = cc; running = cc; pos = p.fs.file_pos_keeper; disk = cc }

open_found-IsSameTask :
    (p : Process) (filename : Reader) (t : Filesys × Option Dentry × ℕ) (n : ℕ) (out : Process × ℕ)
    → t.0 ≡ at_pos p.fs n
    → open_found p filename t ≡ some out
    → IsSameTask p out.0
unfolding open_found allocate
open_found-IsSameTask p filename (fs', d, ret) n out keeps e =
    elim (if-eq-some (ret == minus_one || p.pcb.open_file_num == max_open_file) e) [
      | inl (_, failed) ↦ record { id = cc; child_of = cc; running = cc; pos = n; disk = cc }
      | inr (_, found) ↦
          let (dentry, _, e2) = >>=-eq-some d _ found in
          let (fd, _, e3) = >>=-eq-some (find_fd 6 p.pcb.file_array 2) _ e2 in
          let (type, _, e4) = >>=-eq-some (file_type dentry) _ e3 in
          let s = place-IsSameTask (record p { fs = fs' }) fd (table_of type) filename out e4 in
          record {
            id = s.id;
            child_of = s.child_of;
            running = s.running;
            pos = s.pos;
            disk = s.disk ∙ ap (λ f. at_pos f s.pos) keeps;
          }
    ]

pub sys_open-IsSameTask :
    (p : Process) (filename : Reader) (out : Process × ℕ)
    → sys_open p filename ≡ some out
    → IsSameTask p out.0
unfolding sys_open open_entry
sys_open-IsSameTask p filename out e =
    let (as_stdin, first, e1) =
      >>=-eq-some (strncmp filename (bytes_of (codes "stdin" ++ 0 ∷ [])) 5) _ e in
    elim (if-eq-some (as_stdin == 0) e1) [
      | inl (_, done) ↦ let same : p ≡ out.0 = cc in rw (← same) (unchanged p)
      | inr (_, e2) ↦
          let (as_stdout, second, e3) =
            >>=-eq-some (strncmp filename (bytes_of (codes "stdout" ++ 0 ∷ [])) 6) _ e2 in
          elim (if-eq-some (as_stdout == 0) e3) [
            | inl (_, done) ↦ let same : p ≡ out.0 = cc in rw (← same) (unchanged p)
            | inr (_, e4) ↦
                let (t, finds, e5) =
                  >>=-eq-some (read_dentry_by_name p.fs (some filename) (some empty_dentry)) _ e4 in
                let (n, keeps) = read_dentry_by_name-keeps p.fs filename empty_dentry t finds in
                open_found-IsSameTask p filename t n out keeps e5
          ]
    ]

pub sys_close-IsSameTask :
    (p : Process) (fd : ℕ) (out : Process × ℕ) → sys_close p fd ≡ some out → IsSameTask p out.0
unfolding sys_close
sys_close-IsSameTask p fd out e =
    elim (if-eq-some (lt_signed fd 2 || lt_signed 7 fd || not_above p.pcb.open_file_num) e) [
      | inl (_, failed) ↦ let same : p ≡ out.0 = cc in rw (← same) (unchanged p)
      | inr (_, closing) ↦
          let (file, _, e1) = >>=-eq-some (get_elem? p.pcb.file_array fd) _ closing in
          let (r, _, e2) = >>=-eq-some (call_close file.fop_table) _ e1 in
          let (files, _, e3) = >>=-eq-some (store p.pcb.file_array fd closed_node) _ e2 in
          record { id = cc; child_of = cc; running = cc; pos = p.fs.file_pos_keeper; disk = cc }
    ]
