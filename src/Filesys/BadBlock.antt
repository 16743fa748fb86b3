-- ===== src/Filesys/BadBlock.antt =====
-- `read_data` on an inode that names a block out of range.
use linux_simulation.Base.{
  ℕ, zero, suc, ◌+◌, ◌-◌, ◌*◌, ◌/◌, ◌%◌, ◌≤◌, ◌<◌, min, ◌≡◌, ◌≢◌, inl, inr, ◌∙◌, some, ◌==◌, arith,
  List, Bool-cases, length, set, store_lem, length-set, leb, minus_one,
}
use linux_simulation.Filesys.{
  Filesys, data_block, inode_length, num_inodes, num_data_blocks, read_loop, read_data,
}
use linux_simulation.Filesys.Data.{file_byte, load32-lt, loop_at, loop_at-suc}

module _ (fs : Filesys) (inode offset : ℕ) (k : ℕ)
    (bad : num_data_blocks fs ≤ data_block fs inode k) where
  -- The round that reads the last byte in front of block `k`.
  loop_at-bad :
      (left i : ℕ) (buf : List ℕ)
      → offset + i < inode_length fs inode
      → i < length buf
      → offset + (i + 1) ≡ k * 4096
      → loop_at fs inode offset (suc left) i buf
        ≡ some (set buf i (file_byte fs inode (offset + i)), minus_one)
  unfolding read_loop
  loop_at-bad left i buf h room e =
      let lim = load32-lt fs.memory (fs.fs_inodes + inode * 0x1000) in
      let q : (offset + i) / 4096 + 1 ≡ k = omega arith in
      let r : 4096 ≤ (offset + i) % 4096 + 1 = omega arith in
      rw q (ground (arith, store_lem buf i (file_byte fs inode (offset + i)) room))

  loop_at-fails :
      (left i : ℕ) (buf : List ℕ)
      → offset + i < k * 4096
      → k * 4096 ≤ offset + (i + left)
      → k * 4096 ≤ inode_length fs inode
      → k * 4096 ≤ offset + length buf
      → ((j : ℕ) → j < k → offset / 4096 ≤ j → data_block fs inode j < num_data_blocks fs)
      → (out : List ℕ) × (loop_at fs inode offset left i buf ≡ some (out, minus_one))
  loop_at-fails zero i buf below reach in_file room ok = absurd (omega arith)
  loop_at-fails (suc left) i buf below reach in_file room ok =
      elim (Bool-cases (offset + (i + 1) == k * 4096)) [
        | inl last ↦ (
          set buf i (file_byte fs inode (offset + i)),
          loop_at-bad left i buf (omega arith) (omega arith) (ground arith),
        )
        | inr more ↦
            let c : ℕ = file_byte fs inode (offset + i) in
            let nx : offset + (i + 1) < k * 4096 = ground arith in
            let (out, runs) =
              loop_at-fails left (i + 1) (set buf i c) nx (omega arith) in_file
                (omega (arith, length-set buf i c)) ok in
            (
              out,
              loop_at-suc fs inode offset left i buf (omega arith) (omega arith)
                    (ok ((offset + (i + 1)) / 4096) (omega arith) (omega arith))
                  ∙ runs,
            )
      ]

  -- `read_data` fails when the bytes asked for reach a block that is out of range, which they also
  -- do when they only end in front of it: the result is then -1 although every byte of the file that
  -- was asked for stands in a block that exists.
  pub read_data_bad_block :
      (buf : List ℕ) (count : ℕ)
      → offset / 4096 ≤ k
      → k * 4096 ≤ offset + min count (inode_length fs inode - offset)
      → k * 4096 ≤ offset + length buf
      → offset < inode_length fs inode
      → ((j : ℕ) → j < k → offset / 4096 ≤ j → data_block fs inode j < num_data_blocks fs)
      → (out : List ℕ) × (read_data fs inode offset (some buf) count ≡ some (some out, minus_one))
  unfolding read_data
  read_data_bad_block buf count from reach room inside ok =
      elim (Bool-cases (leb (num_data_blocks fs) (data_block fs inode (offset / 4096)))) [
        | inl now ↦ (buf, ground arith)
        | inr fine ↦ elim (Bool-cases (leb (num_inodes fs) inode)) [
          | inl out_of_range ↦ (buf, ground arith)
          | inr known ↦
              let ne : offset / 4096 ≢ k = λ e.
                let lt : data_block fs inode (offset / 4096) < num_data_blocks fs = ground arith in
                let lt' : data_block fs inode k < num_data_blocks fs = rw e at lt in omega arith in
              let zero_add : offset + 0 ≡ offset = omega arith in
              let (out, runs) =
                loop_at-fails count 0 buf (omega arith) (omega arith) (omega arith) room ok in
              let runs' = rw zero_add at runs in (out, ground (arith, runs'))
        ]
      ]
