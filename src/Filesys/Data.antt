-- ===== src/Filesys/Data.antt =====
-- `read_data` against the contents of a file.
use linux_simulation.Base.{
  ℕ, zero, suc, ◌+◌, ◌-◌, ◌*◌, ◌/◌, ◌%◌, ◌^◌, ◌≤◌, ◌<◌, min, ◌≡◌, ◌⊎◌, inl, inr, refl, ◌∙◌, ap,
  some, Option, ◌==◌, arith, List, Bool-cases, length, get_elem?, set, store_lem, length-set,
  get_elem?-set_self, get_elem?-set_ne, leb,
}
use linux_simulation.Filesys.{
  Memory, Filesys, load8, load32, data_block, inode_length, num_inodes, num_data_blocks, read_loop,
  read_data,
}

pub load8-lt : (m : Memory) (a : ℕ) → load8 m a < 256
unfolding load8
load8-lt m a = omega arith

pub load32-lt : (m : Memory) (a : ℕ) → load32 m a < 2 ^ 32
unfolding load32
load32-lt m a =
    omega (arith, load8-lt m a, load8-lt m (a + 1), load8-lt m (a + 2), load8-lt m (a + 3))

-- The byte of the file at a position, through the block that holds it.
abbrev pub file_byte : Filesys → ℕ → ℕ → ℕ
file_byte fs inode p =
    load8 fs.memory (fs.fs_datablocks + data_block fs inode (p / 4096) * 4096 + p % 4096)

-- An inode whose blocks exist. The block behind the last one counts too when the length is a
-- multiple of the block size.
pub record IsFile (fs : Filesys) (inode : ℕ) : Type 0 where
  pub inode_ok : inode < num_inodes fs
  pub blocks_ok :
      (k : ℕ) → k * 4096 ≤ inode_length fs inode → data_block fs inode k < num_data_blocks fs

-- `out` is `buf` with the file's bytes from `offset + i` on written over `[i, n)`.
pub record FilledFrom (fs : Filesys) (inode offset : ℕ) (buf : List ℕ) (i n : ℕ) (out : List ℕ)
    : Type 0 where
  pub same_length : length out ≡ length buf
  pub filled : (j : ℕ) → i ≤ j → j < n → get_elem? out j ≡ some (file_byte fs inode (offset + j))
  pub kept : (j : ℕ) → (j < i) ⊎ (n ≤ j) → get_elem? out j ≡ get_elem? buf j

module _ (fs : Filesys) (inode offset : ℕ) where
  FilledFrom-none : (buf : List ℕ) (i n : ℕ) → n ≤ i → FilledFrom fs inode offset buf i n buf
  FilledFrom-none buf i n h = record {
    same_length = refl;
    filled = λ j p q. absurd (omega arith);
    kept = λ j p. refl;
  }

  FilledFrom-cons :
      (buf : List ℕ) (i n c : ℕ) (out : List ℕ)
      → i < n
      → i < length buf
      → c ≡ file_byte fs inode (offset + i)
      → FilledFrom fs inode offset (set buf i c) (i + 1) n out
      → FilledFrom fs inode offset buf i n out
  FilledFrom-cons buf i n c out lt room e f = record {
    same_length = f.same_length ∙ length-set buf i c;
    filled = λ j p q. elim (Bool-cases (j == i)) [
      | inl eq ↦
          let eq' : j ≡ i = ground arith in
          rw eq' (f.kept i (inl (omega arith)) ∙ get_elem?-set_self buf i c room ∙ ap some e)
      | inr ne ↦ f.filled j (ground arith) q
    ];
    kept = λ j p. f.kept j (ground arith) ∙ get_elem?-set_ne buf i j c (ground arith);
  }

  -- The state of the loop at index `i` is given by the position `offset + i`.
  abbrev pub loop_at : ℕ → ℕ → List ℕ → Option (List ℕ × ℕ)
  loop_at left i buf =
      read_loop left fs inode offset i ((offset + i) % 4096) ((offset + i) / 4096)
        (data_block fs inode ((offset + i) / 4096)) buf

  -- One round: the byte at the position is stored, and the position moves on. On the last byte of
  -- a block the number of the next block has to be in range.
  pub loop_at-suc :
      (left i : ℕ) (buf : List ℕ)
      → offset + i < inode_length fs inode
      → i < length buf
      → data_block fs inode ((offset + (i + 1)) / 4096) < num_data_blocks fs
      → loop_at (suc left) i buf
        ≡ loop_at left (i + 1) (set buf i (file_byte fs inode (offset + i)))
  unfolding read_loop
  loop_at-suc left i buf h room ok =
      let lim = load32-lt fs.memory (fs.fs_inodes + inode * 0x1000) in
      elim (Bool-cases (leb 4096 ((offset + i) % 4096 + 1))) [
        | inl cross ↦
            let c : 4096 ≤ (offset + i) % 4096 + 1 = ground arith in
            let q : (offset + (i + 1)) / 4096 ≡ (offset + i) / 4096 + 1 = omega arith in
            let r : (offset + (i + 1)) % 4096 ≡ 0 = omega arith in
            let ok' : data_block fs inode ((offset + i) / 4096 + 1) < num_data_blocks fs =
              rw (← q) ok in
            rw (q, r) (ground (arith, store_lem buf i (file_byte fs inode (offset + i)) room))
        | inr stay ↦
            let c : (offset + i) % 4096 + 1 < 4096 = ground arith in
            let q : (offset + (i + 1)) / 4096 ≡ (offset + i) / 4096 = omega arith in
            let r : (offset + (i + 1)) % 4096 ≡ (offset + i) % 4096 + 1 = omega arith in
            rw (q, r) (ground (arith, store_lem buf i (file_byte fs inode (offset + i)) room))
      ]

  -- The loop stops at the end of the file.
  loop_at-end :
      (left i : ℕ) (buf : List ℕ)
      → offset + i ≡ inode_length fs inode
      → loop_at left i buf ≡ some (buf, i)
  unfolding read_loop
  loop_at-end zero i buf h = refl
  loop_at-end (suc left) i buf h =
      let lim = load32-lt fs.memory (fs.fs_inodes + inode * 0x1000) in ground arith

  loop_at_lem :
      (left i n : ℕ) (buf : List ℕ)
      → offset + i ≤ inode_length fs inode
      → n ≡ min (i + left) (inode_length fs inode - offset)
      → n ≤ length buf
      → ((k : ℕ) → k * 4096 ≤ offset + n → data_block fs inode k < num_data_blocks fs)
      → (out : List ℕ) × (loop_at left i buf ≡ some (out, n))
        × FilledFrom fs inode offset buf i n out
  loop_at_lem zero i n buf h e room ok =
      let i_n : i ≡ n = omega arith in
      (buf, unfold read_loop in rw i_n, FilledFrom-none buf i n (omega arith))
  loop_at_lem (suc left) i n buf h e room ok =
      elim (Bool-cases (offset + i == inode_length fs inode)) [
        | inl done ↦
            let i_n : i ≡ n = ground arith in
            (
              buf,
              loop_at-end (suc left) i buf (ground arith) ∙ ap (λ t. some (buf, t)) i_n,
              FilledFrom-none buf i n (omega arith),
            )
        | inr more ↦
            let lt : offset + i < inode_length fs inode = ground arith in
            let c : ℕ = file_byte fs inode (offset + i) in
            let below : i < n = omega arith in
            let in_buf : i < length buf = omega arith in
            let (out, runs, f) =
              loop_at_lem left (i + 1) n (set buf i c) (omega arith) (omega arith)
                (omega (arith, length-set buf i c)) ok in
            (
              out,
              loop_at-suc left i buf lt in_buf (ok ((offset + (i + 1)) / 4096) (omega arith))
                  ∙ runs,
              FilledFrom-cons buf i n c out below in_buf refl f,
            )
      ]

  -- Reading a file whose blocks exist, into a buffer with room: the result is the number of bytes
  -- up to the count or to the end of the file, whichever comes first, the buffer holds exactly the
  -- file's bytes from the offset on, and the rest of the buffer is as it was.
  pub read_data-FilledFrom :
      (buf : List ℕ) (count n : ℕ)
      → IsFile fs inode
      → offset ≤ inode_length fs inode
      → n ≡ min count (inode_length fs inode - offset)
      → n ≤ length buf
      → (out : List ℕ) × (read_data fs inode offset (some buf) count ≡ some (some out, n))
        × FilledFrom fs inode offset buf 0 n out
  unfolding read_data
  read_data-FilledFrom buf count n v h e room =
      let zero_add : offset + 0 ≡ offset = omega arith in
      let first = v.blocks_ok (offset / 4096) (omega arith) in
      let inode_in = v.inode_ok in
      let (out, runs, f) =
        loop_at_lem count 0 n buf (omega arith) (omega arith) room
          (λ k p. v.blocks_ok k (omega arith)) in
      let runs' = rw zero_add at runs in
      elim (Bool-cases (leb (inode_length fs inode) offset)) [
        | inl past ↦ (buf, ground arith, FilledFrom-none buf 0 n (ground arith))
        | inr inside ↦ (out, ground (arith, runs'), f)
      ]
