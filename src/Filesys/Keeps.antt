-- ===== src/Filesys/Keeps.antt =====
-- A look-up of student-distrib/filesys.c moves `file_pos_keeper`, and changes nothing else.
use linux_simulation.Base.{
  ℕ, zero, suc, ◌+◌, ◌≡◌, inl, inr, Option, some, >>=-eq-some, if-eq-some, ◌==◌, min,
}
use linux_simulation.CString.{Reader, strlen}
use linux_simulation.Filesys.{
  Filesys, Dentry, copy_dentry, dentry_matches, find_dentry, read_dentry_by_name,
}

-- The file system with another `file_pos_keeper`.
abbrev pub at_pos : Filesys → ℕ → Filesys
at_pos fs n = record fs { file_pos_keeper = n }

find_dentry-keeps :
    (left : ℕ) (fs : Filesys) (fname : Reader) (fname_len i : ℕ) (d : Dentry)
    (out : Filesys × Dentry × ℕ)
    → find_dentry left fs fname fname_len i d ≡ some out
    → (n : ℕ) × (out.0 ≡ at_pos fs n)
unfolding find_dentry
find_dentry-keeps zero fs fname fname_len i d out e = (fs.file_pos_keeper, cc)
find_dentry-keeps (suc left) fs fname fname_len i d out e =
    let (found, matches, e1) = >>=-eq-some (dentry_matches fs fname fname_len i) _ e in
    elim (if-eq-some found e1) [
      | inl (here, copied) ↦
          let (d', copies, e2) = >>=-eq-some (copy_dentry fs i d) _ copied in (i, cc)
      | inr (further, rest) ↦ find_dentry-keeps left fs fname fname_len (i + 1) d out rest
    ]

pub read_dentry_by_name-keeps :
    (fs : Filesys) (fname : Reader) (d : Dentry) (out : Filesys × Option Dentry × ℕ)
    → read_dentry_by_name fs (some fname) (some d) ≡ some out
    → (n : ℕ) × (out.0 ≡ at_pos fs n)
unfolding read_dentry_by_name
read_dentry_by_name-keeps fs fname d out e =
    let (len, is_len, e1) = >>=-eq-some (strlen fname) _ e in
    elim (if-eq-some (min len 32 == 0) e1) [
      | inl (empty, same) ↦ (fs.file_pos_keeper, cc)
      | inr (more, searched) ↦
          let (found, finds, e2) =
            >>=-eq-some (find_dentry 63 fs fname (min len 32) 0 d) _ searched in
          let (n, keeps) = find_dentry-keeps 63 fs fname (min len 32) 0 d found finds in (n, cc)
    ]
