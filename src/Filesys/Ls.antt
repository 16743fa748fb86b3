-- ===== src/Filesys/Ls.antt =====
-- A whole directory listing: the calls of `fs_dir_ls_read_helper` that a program makes until one
-- returns 0.
use linux_simulation.Base.{
  ℕ, zero, suc, ◌+◌, ◌^◌, ◌≤◌, ◌<◌, min, ◌≡◌, ◌≢◌, ◌⊎◌, inl, inr, some, none, Option, ◌==◌, arith,
  List, [], ◌∷◌, refl, ap, ◌∙◌, take, get_elem?, true, false, length, ◌>>=◌, minus_one,
  if◌then◌else◌, length-replicate, add32,
}
use linux_simulation.CString.{Reader}
use linux_simulation.CString.Length.{IsString}
use linux_simulation.CString.Compare.{IsByteReader}
use linux_simulation.Filesys.{Filesys, Memory, load8, load32, dentry_addr, empty_dentry}
use linux_simulation.Filesys.Lookup.{
  HasNames, Takes, read_dentry_by_index-IsEntry, read_dentry_by_name-Takes,
}
use linux_simulation.Filesys.Directory.{fs_dir_ls_read_helper}
use linux_simulation.Filesys.Listing.{HoldsName, pass_name-HoldsName}

-- A directory whose names end within their entries and whose type fields are small.
pub record IsDirectory (fs : Filesys) (size : ℕ → ℕ) : Type 0 where
  pub names : HasNames fs size
  pub types : (i : ℕ) → i < 63 → load32 fs.memory (dentry_addr fs i + 32) < 2 ^ 24

-- The number of entries that can be read by index.
abbrev pub entries : Filesys → ℕ
entries fs = min 63 (load32 fs.memory fs.fs_bootblk)

size-empty_dentry : length empty_dentry ≡ 64
size-empty_dentry = length-replicate {A = ℕ} 64 0

module _ (fs : Filesys) (size : ℕ → ℕ) (dir : IsDirectory fs size) where
  -- A call during a listing gives the name of the entry behind the last one, and remembers it.
  pub fs_dir_ls_read_helper_next :
      (fname : Option Reader) (buf : List ℕ)
      → fs.fs_dir_read_flag ≢ 0
      → fs.file_pos_keeper + 1 < entries fs
      → 33 ≤ length buf
      → (out : List ℕ) × (fs_dir_ls_read_helper fs fname buf
          ≡ some (
            record fs { file_pos_keeper = fs.file_pos_keeper + 1 },
            out,
            min (size (fs.file_pos_keeper + 1)) 32,
          ))
        × HoldsName fs (fs.file_pos_keeper + 1) (size (fs.file_pos_keeper + 1)) buf out
  unfolding fs_dir_ls_read_helper
  fs_dir_ls_read_helper_next fname buf on more room =
      let k : ℕ = fs.file_pos_keeper + 1 in
      let moved : Filesys = record fs { file_pos_keeper = k } in
      let same : add32 fs.file_pos_keeper 1 ≡ k = omega arith in
      let flag : (fs.fs_dir_read_flag == 0) ≡ false = ground arith in
      elim (read_dentry_by_index-IsEntry moved size k empty_dentry
        (record { fits = dir.names.fits; is_string = dir.names.is_string }) size-empty_dentry) [
          | inr (out, runs) ↦ absurd (omega arith)
          | inl (p, q, (d, runs, is)) ↦
              let (out, passes, holds) =
                pass_name-HoldsName buf is (dir.names.is_string k p) (dir.types k p) room in
              (
                out,
                rw flag (rw same (rw (runs, passes))),
                record {
                  same_length = holds.same_length;
                  name = holds.name;
                  ended = holds.ended;
                  kept = holds.kept;
                },
              )
        ]

  -- At the end of the directory a call returns 0 and ends the listing.
  pub fs_dir_ls_read_helper_end :
      (fname : Option Reader) (buf : List ℕ)
      → fs.fs_dir_read_flag ≢ 0
      → entries fs ≤ fs.file_pos_keeper + 1
      → fs.file_pos_keeper + 1 < 2 ^ 32
      → fs_dir_ls_read_helper fs fname buf
        ≡ some (record fs { file_pos_keeper = 0; fs_dir_read_flag = 0 }, buf, 0)
  unfolding fs_dir_ls_read_helper
  fs_dir_ls_read_helper_end fname buf on over lim =
      let k : ℕ = fs.file_pos_keeper + 1 in
      let moved : Filesys = record fs { file_pos_keeper = k } in
      let same : add32 fs.file_pos_keeper 1 ≡ k = omega arith in
      let flag : (fs.fs_dir_read_flag == 0) ≡ false = ground arith in
      elim (read_dentry_by_index-IsEntry moved size k empty_dentry
        (record { fits = dir.names.fits; is_string = dir.names.is_string }) size-empty_dentry) [
          | inr (out, runs) ↦ rw flag (rw same (rw runs))
          | inl (p, q, (d, runs, is)) ↦ absurd (omega arith)
        ]

-- The loop of a program that lists the directory: the bytes that the calls give, each time as many as the
-- call returns, until a call returns 0, with `fuel` calls at most.
pub listing : ℕ → Filesys → Option Reader → List ℕ → Option (Filesys × List (List ℕ))
listing zero fs fname buf = none
listing (suc fuel) fs fname buf = do
  (fs', out, n) ← fs_dir_ls_read_helper fs fname buf
  let rest = listing fuel fs' fname out >>= λ (fs'', ns). some (fs'', take n out ∷ ns)
  if n == 0 then some (fs', []) else rest

-- Bytes of the memory, from an address on.
abbrev pub bytes_at : Memory → ℕ → ℕ → List ℕ
bytes_at m a zero = []
bytes_at m a (suc n) = load8 m a ∷ bytes_at m (a + 1) n

taken_bytes :
    (m : Memory) (n a : ℕ) (out : List ℕ)
    → ((j : ℕ) → j < n → get_elem? out j ≡ some (load8 m (a + j)))
    → take n out ≡ bytes_at m a n
taken_bytes m zero a out h = refl
taken_bytes m (suc n) a [] h = let e = h 0 (omega arith) in absurd cc
taken_bytes m (suc n) a (b ∷ out) h =
    let at : a + 0 ≡ a = omega arith in
    let first : some b ≡ some (load8 m a) = h 0 (omega arith) ∙ ap (λ x. some (load8 m x)) at in
    let same : b ≡ load8 m a = cc in
    let others = taken_bytes m n (a + 1) out (λ j lt.
      let next : a + suc j ≡ a + 1 + j = omega arith in
      h (suc j) (omega arith) ∙ ap (λ x. some (load8 m x)) next) in
    ap (λ x. x ∷ take n out) same ∙ ap (λ l. load8 m a ∷ l) others

-- The names of the `left` entries behind entry `k`, each cut off at 32 bytes, as they stand in the image.
abbrev pub names_behind : Filesys → (ℕ → ℕ) → ℕ → ℕ → List (List ℕ)
names_behind fs size k zero = []
names_behind fs size k (suc left) =
    bytes_at fs.memory (dentry_addr fs (k + 1)) (min (size (k + 1)) 32)
    ∷ names_behind fs size (k + 1) left

-- The names are those of the image, wherever the listing stands.
names_behind-moved :
    (fs : Filesys) (size : ℕ → ℕ) (n k left : ℕ)
    → names_behind (record fs { file_pos_keeper = n }) size k left ≡ names_behind fs size k left
names_behind-moved fs size n k zero = refl
names_behind-moved fs size n k (suc left) =
    ap (λ l. bytes_at fs.memory (dentry_addr fs (k + 1)) (min (size (k + 1)) 32) ∷ l)
      (names_behind-moved fs size n (k + 1) left)

-- A listing that stands at entry `k` gives the names of all entries behind it, byte for byte, in order and
-- each once, then returns 0 and is over; one call more than there are entries is enough. Names are cut
-- off at 32 bytes, and none of them is empty.
pub listing-names_behind :
    (left fuel : ℕ) (fs : Filesys) (size : ℕ → ℕ) (fname : Option Reader) (buf : List ℕ)
    → IsDirectory fs size
    → ((i : ℕ) → i < entries fs → size i ≢ 0)
    → fs.fs_dir_read_flag ≢ 0
    → fs.file_pos_keeper + 1 + left ≡ entries fs
    → left < fuel
    → 33 ≤ length buf
    → listing fuel fs fname buf
      ≡ some (
        record fs { file_pos_keeper = 0; fs_dir_read_flag = 0 },
        names_behind fs size fs.file_pos_keeper left,
      )
unfolding listing
listing-names_behind left zero fs size fname buf dir named on e lt room = elim lt [ ]
listing-names_behind zero (suc fuel) fs size fname buf dir named on e lt room =
    rw (fs_dir_ls_read_helper_end fs size dir fname buf on (omega arith) (omega arith))
listing-names_behind (suc left) (suc fuel) fs size fname buf dir named on e lt room =
    let k : ℕ = fs.file_pos_keeper + 1 in
    let moved : Filesys = record fs { file_pos_keeper = k } in
    let (out, runs, holds) =
      fs_dir_ls_read_helper_next fs size dir fname buf on (omega arith) room in
    let len = holds.same_length in
    let dir' : IsDirectory moved size = record {
      names = record { fits = dir.names.fits; is_string = dir.names.is_string };
      types = dir.types;
    } in
    let rest =
      listing-names_behind left fuel moved size fname out dir' named on (omega arith) (omega arith)
        (omega arith) in
    let ne : (min (size k) 32 == 0) ≡ false = let n = named k (omega arith) in ground arith in
    let name =
      taken_bytes fs.memory (min (size k) 32) (dentry_addr fs k) out (λ j lt. holds.name j lt) in
    rw runs (rw ne (rw rest (rw name (rw (names_behind-moved fs size k k left) refl))))

-- The call that starts a listing: it looks the name up, and gives the name of the entry found.
fs_dir_ls_read_helper_first :
    (fs : Filesys) (size : ℕ → ℕ) (fname : Reader) (n : ℕ) (buf : List ℕ)
    → IsDirectory fs size
    → fs.fs_dir_read_flag ≡ 0
    → IsByteReader fname
    → IsString fname n
    → 0 < n
    → n < 2 ^ 32
    → 33 ≤ length buf
    → ((fs_dir_ls_read_helper fs (some fname) buf
          ≡ some (record fs { fs_dir_read_flag = 1 }, buf, minus_one))
        × ((j : ℕ) → j < 63 → ¬ (Takes fs size fname (min n 32) j)))
      ⊎ ((k : ℕ) × (out : List ℕ) × (fs_dir_ls_read_helper fs (some fname) buf
            ≡ some (record fs { file_pos_keeper = k; fs_dir_read_flag = 1 }, out, min (size k) 32))
          × (k < 63)
          × HoldsName fs k (size k) buf out)
unfolding fs_dir_ls_read_helper
fs_dir_ls_read_helper_first fs size fname n buf dir off bytes t pos lim room =
    let on : Filesys = record fs { fs_dir_read_flag = 1 } in
    let flag : (fs.fs_dir_read_flag == 0) ≡ true = ground arith in
    elim (read_dentry_by_name-Takes on size fname n empty_dentry
      (record { fits = dir.names.fits; is_string = dir.names.is_string }) bytes t pos lim
      size-empty_dentry) [
        | inl (runs, none_takes) ↦ inl (
          rw flag (rw runs),
          λ j p q. none_takes j p (record { long_enough = q.long_enough; agrees = q.agrees }),
        )
        | inr (k, d, runs, p, takes, is, first) ↦
            let (out, passes, holds) =
              pass_name-HoldsName buf is (dir.names.is_string k p) (dir.types k p) room in
            inr (
              k,
              out,
              rw flag (rw (runs, passes)),
              p,
              record {
                same_length = holds.same_length;
                name = holds.name;
                ended = holds.ended;
                kept = holds.kept;
              },
            )
      ]
