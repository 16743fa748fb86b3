-- ===== src/Filesys/Listing.antt =====
-- A listing of the directory by `fs_dir_ls_read_helper`.
use linux_simulation.Base.{
  ℕ, zero, suc, ◌+◌, ◌^◌, ◌≤◌, ◌<◌, min, ◌≡◌, ◌⊎◌, inl, inr, refl, ◌∙◌, ap, some, ◌==◌, arith, List,
  Bool-cases, length, get_elem?, get_or, set, ltb, get_elem?-eq-get_or, store_lem, length-set,
  get_elem?-set_self, get_elem?-set_ne,
}
use linux_simulation.CString.{bytes_of}
use linux_simulation.CString.Length.{
  IsString, strlen-IsString_iff, first_zero, IsStringFrom-prepend,
}
use linux_simulation.CString.Copy.{strncpy-Padded}
use linux_simulation.Filesys.{Filesys, Dentry, load32, dentry_addr, fetch32}
use linux_simulation.Filesys.Entry.{IsEntry}
use linux_simulation.Filesys.Lookup.{entry_name}
use linux_simulation.Filesys.Directory.{clear_name, pass_name}

-- A word below 2 ^ 24 has a zero as its highest byte.
fetch32-high :
    (d : Dentry) (i w : ℕ)
    → i + 4 ≤ length d
    → fetch32 d i ≡ some w
    → w < 2 ^ 24
    → get_elem? d (i + 3) ≡ some 0
unfolding fetch32
fetch32-high d i w room e small = ground (
  arith,
  get_elem?-eq-get_or d i 0 (omega arith),
  get_elem?-eq-get_or d (i + 1) 0 (omega arith),
  get_elem?-eq-get_or d (i + 2) 0 (omega arith),
  get_elem?-eq-get_or d (i + 3) 0 (omega arith),
)

-- The name in a copied entry is a terminated string, and the same one up to 32 bytes.
IsEntry-IsString :
    {fs : Filesys} {i m : ℕ} {d : Dentry}
    → IsEntry fs i m d
    → IsString (entry_name fs i) m
    → load32 fs.memory (dentry_addr fs i + 32) < 2 ^ 24
    → (n : ℕ) × (n < 64) × (min n 32 ≡ min m 32) × IsString (bytes_of d) n
IsEntry-IsString {fs} {i} {m} {d} e t small = elim (Bool-cases (ltb m 32)) [
  | inl short ↦
      let lt : m < 32 = ground arith in
      (
        m,
        omega arith,
        refl,
        record {
          before = omega arith;
          inside = λ j p q.
              let (c, r, ne) = t.inside j p q in (c, e.name j (omega arith) (omega arith) ∙ r, ne);
          at_end = e.name m (omega arith) lt ∙ t.at_end;
        },
      )
  | inr long ↦
      let ge : 32 ≤ m = ground arith in
      let room = e.size in
      let z = fetch32-high d 32 _ (omega arith) e.type_of small in
      let (n, lim, tail) =
        first_zero 3 (bytes_of d) 32
          (λ j p q. (get_or d j 0, get_elem?-eq-get_or d j 0 (omega arith))) z in
      let b : 32 ≤ n = tail.before in
      (
        n,
        omega arith,
        omega arith,
        IsStringFrom-prepend (bytes_of d) 0 32 n (omega arith)
            (λ j p q.
              let (c, r, ne) = t.inside j p (omega arith) in (c, e.name j (omega arith) q ∙ r, ne))
            tail,
      )
]

clear_name_lem :
    (left : ℕ) (buf : List ℕ) (i : ℕ)
    → i + left ≤ length buf
    → (r : List ℕ) × (clear_name left buf i ≡ some r)
      × (length r ≡ length buf)
      × ((j : ℕ) → i ≤ j → j < i + left → get_elem? r j ≡ some 0)
      × ((j : ℕ) → (j < i) ⊎ (i + left ≤ j) → get_elem? r j ≡ get_elem? buf j)
unfolding clear_name
clear_name_lem zero buf i room = (buf, refl, refl, λ j p q. absurd (omega arith), λ j p. refl)
clear_name_lem (suc left) buf i room =
    let (r, runs, len, zeros, kept) =
      clear_name_lem left (set buf i 0) (i + 1) (omega (arith, length-set buf i 0)) in
    (
      r,
      ground (arith, store_lem buf i 0 (omega arith), runs),
      len ∙ length-set buf i 0,
      λ j p q. elim (Bool-cases (j == i)) [
        | inl eq ↦ ground (arith, kept j, get_elem?-set_self buf i 0)
        | inr ne ↦ zeros j (ground arith) (omega arith)
      ],
      λ j p. ground (arith, kept j, get_elem?-set_ne buf i j 0),
    )

-- `out` is `buf` with the name of entry `i`, cut off at 32 bytes, and zeros behind it up to 33.
pub record HoldsName (fs : Filesys) (i m : ℕ) (buf out : List ℕ) : Type 0 where
  pub same_length : length out ≡ length buf
  pub name : (j : ℕ) → j < min m 32 → get_elem? out j ≡ entry_name fs i j
  pub ended : (j : ℕ) → min m 32 ≤ j → j < 33 → get_elem? out j ≡ some 0
  pub kept : (j : ℕ) → 33 ≤ j → get_elem? out j ≡ get_elem? buf j

pub pass_name-HoldsName :
    {fs : Filesys} {i m : ℕ} {d : Dentry} (buf : List ℕ)
    → IsEntry fs i m d
    → IsString (entry_name fs i) m
    → load32 fs.memory (dentry_addr fs i + 32) < 2 ^ 24
    → 33 ≤ length buf
    → (out : List ℕ) × (pass_name d buf ≡ some (out, min m 32)) × HoldsName fs i m buf out
unfolding pass_name
pass_name-HoldsName {fs} {i} {m} {d} buf e t small room =
    let (n, lim, same, str) = IsEntry-IsString e t small in
    let (cleared, runs, len, zeros, rest) = clear_name_lem 33 buf 0 (omega arith) in
    let (out, copies, p) = strncpy-Padded cleared (bytes_of d) n (min n 32) str (omega arith) in
    (
      out,
      rw (runs, (strlen-IsString_iff (bytes_of d) n (omega arith)).1 str, copies)
          (ap (λ k. some (out, k)) same),
      record {
        same_length = p.same_length ∙ len;
        name = λ j q.
            p.copied j (omega arith) (omega arith) (omega arith)
            ∙ e.name j (omega arith) (omega arith);
        ended = λ j q r. p.kept j (inr (omega arith)) ∙ zeros j (omega arith) (omega arith);
        kept = λ j q. p.kept j (inr (omega arith)) ∙ rest j (inr (omega arith));
      },
    )
