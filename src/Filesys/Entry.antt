-- ===== src/Filesys/Entry.antt =====
-- What a look-up copies into a `dentry_t`.
use linux_simulation.Base.{
  ℕ, ◌+◌, ◌/◌, ◌%◌, ◌^◌, ◌≤◌, ◌<◌, ◌≡◌, ◌⊎◌, inl, ◌∙◌, ap, some, arith, List, length, get_elem?,
  set, store_lem, length-set, get_elem?-set_self, get_elem?-set_ne,
}
use linux_simulation.CString.Length.{IsString}
use linux_simulation.CString.Copy.{strcpy-CopiedFrom}
use linux_simulation.Filesys.{
  Filesys, Dentry, load32, string_at, store32, fetch32, inode_index, file_type, dentry_addr,
  copy_dentry,
}
use linux_simulation.Filesys.Data.{load32-lt}

-- `r` is `xs` with the word `w` at index `i`.
pub record HasWord (xs : List ℕ) (i w : ℕ) (r : List ℕ) : Type 0 where
  pub same_length : length r ≡ length xs
  pub word : fetch32 r i ≡ some w
  pub kept : (j : ℕ) → (j < i) ⊎ (i + 4 ≤ j) → get_elem? r j ≡ get_elem? xs j

pub store32-HasWord :
    (xs : List ℕ) (i w : ℕ)
    → w < 2 ^ 32
    → i + 4 ≤ length xs
    → (r : List ℕ) × (store32 xs i w ≡ some r) × HasWord xs i w r
unfolding store32 fetch32
store32-HasWord xs i w h room =
    let a : List ℕ = set xs i (w % 256) in
    let b : List ℕ = set a (i + 1) (w / 2 ^ 8 % 256) in
    let c : List ℕ = set b (i + 2) (w / 2 ^ 16 % 256) in
    let d : List ℕ = set c (i + 3) (w / 2 ^ 24 % 256) in
    let la : length a ≡ length xs = length-set xs i _ in
    let lb : length b ≡ length xs = length-set a (i + 1) _ ∙ la in
    let lc : length c ≡ length xs = length-set b (i + 2) _ ∙ lb in
    let ld : length d ≡ length xs = length-set c (i + 3) _ ∙ lc in
    let d3 : get_elem? d (i + 3) ≡ some (w / 2 ^ 24 % 256) =
      get_elem?-set_self c (i + 3) _ (omega arith) in
    let d2 : get_elem? d (i + 2) ≡ some (w / 2 ^ 16 % 256) =
      get_elem?-set_ne c (i + 3) (i + 2) _ (omega arith)
      ∙ get_elem?-set_self b (i + 2) _ (omega arith) in
    let d1 : get_elem? d (i + 1) ≡ some (w / 2 ^ 8 % 256) =
      get_elem?-set_ne c (i + 3) (i + 1) _ (omega arith)
      ∙ get_elem?-set_ne b (i + 2) (i + 1) _ (omega arith)
      ∙ get_elem?-set_self a (i + 1) _ (omega arith) in
    let d0 : get_elem? d i ≡ some (w % 256) =
      get_elem?-set_ne c (i + 3) i _ (omega arith)
      ∙ get_elem?-set_ne b (i + 2) i _ (omega arith)
      ∙ get_elem?-set_ne a (i + 1) i _ (omega arith)
      ∙ get_elem?-set_self xs i _ (omega arith) in
    (
      d,
      rw (
        store_lem xs i (w % 256) (omega arith),
        store_lem a (i + 1) (w / 2 ^ 8 % 256) (omega arith),
        store_lem b (i + 2) (w / 2 ^ 16 % 256) (omega arith),
        store_lem c (i + 3) (w / 2 ^ 24 % 256) (omega arith),
      ),
      record {
        same_length = ld;
        word = rw (d0, d1, d2, d3) (ap some (omega arith));
        kept = λ j p.
            get_elem?-set_ne c (i + 3) j _ (ground arith)
            ∙ get_elem?-set_ne b (i + 2) j _ (ground arith)
            ∙ get_elem?-set_ne a (i + 1) j _ (ground arith)
            ∙ get_elem?-set_ne xs i j _ (ground arith);
      },
    )

-- `d` is a copy of directory entry `i`, whose name has `m` bytes: its type and inode are those of
-- the entry, and so are the first 32 bytes of its name, up to the terminating zero.
pub record IsEntry (fs : Filesys) (i m : ℕ) (d : Dentry) : Type 0 where
  pub size : length d ≡ 64
  pub name : (j : ℕ) → j ≤ m → j < 32 → get_elem? d j ≡ string_at fs.memory (dentry_addr fs i) j
  pub type_of : file_type d ≡ some (load32 fs.memory (dentry_addr fs i + 32))
  pub inode_of : inode_index d ≡ some (load32 fs.memory (dentry_addr fs i + 36))

pub copy_dentry-IsEntry :
    (fs : Filesys) (i m : ℕ) (dentry : Dentry)
    → IsString (string_at fs.memory (dentry_addr fs i)) m
    → m < 64
    → length dentry ≡ 64
    → (d : Dentry) × (copy_dentry fs i dentry ≡ some d) × IsEntry fs i m d
unfolding copy_dentry
copy_dentry-IsEntry fs i m dentry t h size =
    let src = string_at fs.memory (dentry_addr fs i) in
    let ty : ℕ = load32 fs.memory (dentry_addr fs i + 32) in
    let ino : ℕ = load32 fs.memory (dentry_addr fs i + 36) in
    let (named, e1, c) = strcpy-CopiedFrom dentry src m (omega arith) t (omega arith) in
    let l1 : length named ≡ 64 = c.same_length ∙ size in
    let (typed, e2, w1) = store32-HasWord named 32 ty (load32-lt fs.memory _) (omega arith) in
    let l2 : length typed ≡ 64 = w1.same_length ∙ l1 in
    let (done, e3, w2) = store32-HasWord typed 36 ino (load32-lt fs.memory _) (omega arith) in
    (
      done,
      rw (e1, e2) e3,
      record {
        size = w2.same_length ∙ l2;
        name =
            λ j p q. w2.kept j (inl (omega arith)) ∙ w1.kept j (inl q) ∙ c.copied j (omega arith) p;
        type_of =
            unfold fetch32 in
            rw
              (
                w2.kept 32 (inl (omega arith)),
                w2.kept 33 (inl (omega arith)),
                w2.kept 34 (inl (omega arith)),
                w2.kept 35 (inl (omega arith)),
              )
              w1.word;
        inode_of = w2.word;
      },
    )
