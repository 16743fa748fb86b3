-- ===== src/Process/Calls.antt =====
-- `open` and `close` of student-distrib/syscall.c as whole calls.
use linux_simulation.Base.{
  ℕ, ◌<◌, ◌≡◌, ◌⊎◌, inl, inr, refl, codes, ◌++◌, ◌||◌, Option, none, some, [], ◌∷◌, >>=-eq-some,
  ◌==◌, if-eq-some, set, minus_one, add32, store, store_lem, length, arith,
}
use linux_simulation.CString.{Reader, bytes_of, strncmp}
use linux_simulation.Filesys.{Filesys, Dentry, file_type, empty_dentry, read_dentry_by_name}
use linux_simulation.Process.{FopTable, stack_inode, Pcb, Process, opened, max_open_file}
use linux_simulation.Process.Files.{
  find_fd, write_name, set_up, place, table_of, allocate, open_entry, open_found, call_close,
  sys_open,
}
use linux_simulation.Process.Opening.{IsFileArray, FirstFree, find_fd-FirstFree}

-- A descriptor was set up: the first free one, with a table whose `close` can be called.
pub record Opens (p q : Pcb) (fd : ℕ) : Type 0 where
  pub first : FirstFree p.file_array 2 fd
  pub table : FopTable
  pub closable : call_close table ≡ some 0
  pub array : q.file_array ≡ set p.file_array fd (opened table stack_inode)
  pub count : q.open_file_num ≡ add32 p.open_file_num 1

-- Nothing was opened, or one file was.
abbrev pub OpensOne : Process → Process → ℕ → Type 0
OpensOne p q r = ((q.pcb ≡ p.pcb) × ((r ≡ 0) ⊎ (r ≡ minus_one))) ⊎ Opens p.pcb q.pcb r

table_of-closable :
    (type : ℕ) (table : FopTable) → table_of type ≡ some table → call_close table ≡ some 0
unfolding table_of call_close
table_of-closable type table h = ground arith

set_up-Opens :
    (p q : Process) (fd r : ℕ) (table : FopTable) (filename : Reader)
    → fd < length p.pcb.file_array
    → set_up p fd table filename ≡ some (q, r)
    → (r ≡ fd)
      × (q.pcb.file_array ≡ set p.pcb.file_array fd (opened table stack_inode))
      × (q.pcb.open_file_num ≡ add32 p.pcb.open_file_num 1)
unfolding set_up
set_up-Opens p q fd r table filename lt h =
    let (files, stored, h1) =
      >>=-eq-some (store p.pcb.file_array fd (opened table stack_inode)) _ h in
    let (names, written, h2) = >>=-eq-some (write_name p.pcb fd filename) _ h1 in
    let fits = store_lem p.pcb.file_array fd (opened table stack_inode) lt in
    let same : files ≡ set p.pcb.file_array fd (opened table stack_inode) = cc in (cc, cc, cc)

place-OpensOne :
    (p q : Process) (fd : Option ℕ) (table : Option FopTable) (filename : Reader) (r : ℕ)
    → length p.pcb.file_array ≡ 8
    → ((i : ℕ) → fd ≡ some i → FirstFree p.pcb.file_array 2 i)
    → ((t : FopTable) → table ≡ some t → call_close t ≡ some 0)
    → place p fd table filename ≡ some (q, r)
    → OpensOne p q r
unfolding place
place-OpensOne p q none table filename r size first closable e = inl (cc, inr cc)
place-OpensOne p q (some fd) none filename r size first closable e = inl (cc, inr cc)
place-OpensOne p q (some fd) (some table) filename r size first closable e =
    let f = first fd refl in
    let high = f.high in
    let (r_fd, array, count) = set_up-Opens p q fd r table filename (omega arith) e in
    inr (
      rw r_fd (record {
        first = f;
        table = table;
        closable = closable table refl;
        array = array;
        count = count;
      }))

allocate-OpensOne :
    (p q : Process) (d : Dentry) (filename : Reader) (r : ℕ)
    → IsFileArray p.pcb.file_array
    → allocate p d filename ≡ some (q, r)
    → OpensOne p q r
unfolding allocate
allocate-OpensOne p q d filename r h e =
    let (fd, found, e1) = >>=-eq-some (find_fd 6 p.pcb.file_array 2) _ e in
    let (type, typed, e2) = >>=-eq-some (file_type d) _ e1 in
    let first : (i : ℕ) → fd ≡ some i → FirstFree p.pcb.file_array 2 i = λ i is.
      elim (find_fd-FirstFree p.pcb.file_array h) [
        | inl (j, runs, f) ↦ let i_j : i ≡ j = cc in rw i_j f
        | inr (runs, _, _) ↦ absurd cc
      ] in
    place-OpensOne p q fd (table_of type) filename r h.size first
      (λ t is. table_of-closable type t is) e2

open_found-OpensOne :
    (p q : Process) (filename : Reader) (t : Filesys × Option Dentry × ℕ) (r : ℕ)
    → IsFileArray p.pcb.file_array
    → open_found p filename t ≡ some (q, r)
    → OpensOne p q r
unfolding open_found
open_found-OpensOne p q filename (fs', d, ret) r h e =
    elim (if-eq-some (ret == minus_one || p.pcb.open_file_num == max_open_file) e) [
      | inl (_, failed) ↦ inl (cc, inr cc)
      | inr (_, found) ↦
          let (dentry, _, e2) = >>=-eq-some d _ found in
          allocate-OpensOne (record p { fs = fs' }) q dentry filename r h e2
    ]

open_entry-OpensOne :
    (p q : Process) (filename : Reader) (r : ℕ)
    → IsFileArray p.pcb.file_array
    → open_entry p filename ≡ some (q, r)
    → OpensOne p q r
unfolding open_entry
open_entry-OpensOne p q filename r h e =
    let (t, _, e1) =
      >>=-eq-some (read_dentry_by_name p.fs (some filename) (some empty_dentry)) _ e in
    open_found-OpensOne p q filename t r h e1

-- `open` of a process with a file array in order, when it returns: it changes nothing of the process
-- and returns 0 or -1, or it returns the first free descriptor from 2 on, whose node alone is set
-- up, and one is added to the count.
pub sys_open-OpensOne :
    (p q : Process) (filename : Reader) (r : ℕ)
    → IsFileArray p.pcb.file_array
    → sys_open p filename ≡ some (q, r)
    → OpensOne p q r
unfolding sys_open
sys_open-OpensOne p q filename r h e =
    let (as_stdin, first, e1) =
      >>=-eq-some (strncmp filename (bytes_of (codes "stdin" ++ 0 ∷ [])) 5) _ e in
    elim (if-eq-some (as_stdin == 0) e1) [
      | inl (_, done) ↦ inl (cc, inl cc)
      | inr (_, e2) ↦
          let (as_stdout, second, e3) =
            >>=-eq-some (strncmp filename (bytes_of (codes "stdout" ++ 0 ∷ [])) 6) _ e2 in
          elim (if-eq-some (as_stdout == 0) e3) [
            | inl (_, done) ↦ inl (cc, inl cc)
            | inr (_, e4) ↦ open_entry-OpensOne p q filename r h e4
          ]
    ]
