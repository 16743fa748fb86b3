-- ===== src/Filesys.antt =====
-- student-distrib/filesys.c: the read-only file system in a boot module, with its constants and
-- layouts from filesys.h.
--
-- The image stands in physical memory, which is a byte at each of the 2 ^ 32 addresses; the
-- globals hold addresses into it. The buffers of the callers are other objects: lists of bytes.
-- A null pointer is `none`. A result `none` is undefined behaviour or a loop that does not end.
pub mod Lookup
pub mod Data
pub mod Directory
pub mod Entry
pub mod BadBlock
pub mod Listing
pub mod Ls
pub mod Keeps
mod Tests
use linux_simulation.Base.{
  ℕ, zero, suc, ◌+◌, ◌-◌, ◌*◌, ◌/◌, ◌%◌, ◌^◌, Bool, true, false, ◌&&◌, ◌||◌, Option, none, some,
  List, ◌>>=◌, ◌==◌, ltb, leb, if◌then◌else◌, u32, add32, minus_one, store, min, get_elem?,
}
use linux_simulation.CString.{Reader, strlen, strncmp, strcpy, strncpy, bytes_of}

abbrev pub Memory : Type 0
Memory = ℕ → ℕ

-- The byte and the little-endian word at an address; addresses wrap.
unfoldable pub load8 : Memory → ℕ → ℕ
load8 m a = m (a % 2 ^ 32) % 256

unfoldable pub load32 : Memory → ℕ → ℕ
load32 m a =
    load8 m a + 2 ^ 8 * load8 m (a + 1) + 2 ^ 16 * load8 m (a + 2) + 2 ^ 24 * load8 m (a + 3)

-- The string at an address.
abbrev pub string_at : Memory → ℕ → Reader
string_at m a i = some (load8 m (a + i))

-- The globals of filesys.c, with the memory that they point into.
pub record Filesys : Type 0 where
  pub memory : Memory
  pub fs_bootblk : ℕ
  pub fs_dentries : ℕ
  pub fs_inodes : ℕ
  pub fs_datablocks : ℕ
  pub file_pos_keeper : ℕ
  pub fs_dir_read_flag : ℕ

-- `dentry_t`: 64 bytes, of which the file name takes 32, the type 4 and the inode index 4.
abbrev pub Dentry : Type 0
Dentry = List ℕ

unfoldable pub init_filesys : Filesys → ℕ → Filesys
init_filesys fs start_addr =
    let num_inode = load32 fs.memory (start_addr + 4) in
    record fs {
      fs_bootblk = start_addr;
      fs_dentries = add32 start_addr 64;
      fs_inodes = add32 start_addr 4096;
      fs_datablocks = u32 (start_addr + (num_inode + 1) * 4096);
    }

-- A word written into a structure, low byte first.
unfoldable pub store32 : List ℕ → ℕ → ℕ → Option (List ℕ)
store32 xs i w = do
  a ← store xs i (w % 256)
  b ← store a (i + 1) (w / 2 ^ 8 % 256)
  c ← store b (i + 2) (w / 2 ^ 16 % 256)
  store c (i + 3) (w / 2 ^ 24 % 256)

unfoldable pub fetch32 : List ℕ → ℕ → Option ℕ
fetch32 xs i = do
  a ← get_elem? xs i
  b ← get_elem? xs (i + 1)
  c ← get_elem? xs (i + 2)
  d ← get_elem? xs (i + 3)
  some (a + 2 ^ 8 * b + 2 ^ 16 * c + 2 ^ 24 * d)

-- `dentry->inode_index` and `dentry->file_type`.
abbrev pub inode_index : Dentry → Option ℕ
inode_index d = fetch32 d 36

abbrev pub file_type : Dentry → Option ℕ
file_type d = fetch32 d 32

-- `((int8_t*)fs_dentries) + DENTRY_SIZE * i`
abbrev pub dentry_addr : Filesys → ℕ → ℕ
dentry_addr fs i = fs.fs_dentries + 64 * i

-- What both look-ups do with the entry that they found: the name is copied by `strcpy`, which may
-- run on into the fields behind it, and then the two words are written.
unfoldable pub copy_dentry : Filesys → ℕ → Dentry → Option Dentry
copy_dentry fs i dentry = do
  named ← strcpy dentry (string_at fs.memory (dentry_addr fs i))
  typed ← store32 named 32 (load32 fs.memory (dentry_addr fs i + 32))
  store32 typed 36 (load32 fs.memory (dentry_addr fs i + 36))

-- The test of both `if`s of the loop: the lengths fit, and `strncmp` returns zero.
unfoldable pub dentry_matches : Filesys → Reader → ℕ → ℕ → Option Bool
dentry_matches fs fname fname_len i = do
  len ← strlen (string_at fs.memory (dentry_addr fs i))
  let compared =
      strncmp fname (string_at fs.memory (dentry_addr fs i)) fname_len >>= λ r. some (r == 0)
  if len == fname_len || leb 32 len then compared else some false

-- The loop of `read_dentry_by_name` at entry `i`, with `63 - i` rounds left.
unfoldable pub find_dentry : ℕ → Filesys → Reader → ℕ → ℕ → Dentry → Option (Filesys × Dentry × ℕ)
find_dentry zero fs fname fname_len i dentry = some (fs, dentry, minus_one)
find_dentry (suc left) fs fname fname_len i dentry = do
  found ← dentry_matches fs fname fname_len i
  let copied = copy_dentry fs i dentry >>= λ d. some (record fs { file_pos_keeper = i }, d, 0)
  let rest = find_dentry left fs fname fname_len (i + 1) dentry
  if found then copied else rest

-- `strlen(fname)` is read before `fname` is compared to NULL, so a null name is undefined.
unfoldable pub read_dentry_by_name :
    Filesys → Option Reader → Option Dentry → Option (Filesys × Option Dentry × ℕ)
read_dentry_by_name fs none dentry = none
read_dentry_by_name fs (some fname) none = do len ← strlen fname; some (fs, none, minus_one)
read_dentry_by_name fs (some fname) (some dentry) = do
  len ← strlen fname
  let fname_len = min len 32
  let searched = find_dentry 63 fs fname fname_len 0 dentry >>= λ (fs', d, r). some (fs', some d, r)
  if fname_len == 0 then some (fs, some dentry, minus_one) else searched

pub read_dentry_by_index : Filesys → ℕ → Option Dentry → Option (Option Dentry × ℕ)
read_dentry_by_index fs index none = some (none, minus_one)
read_dentry_by_index fs index (some dentry) =
    let dir_num = load32 fs.memory fs.fs_bootblk in
    let copied = copy_dentry fs index dentry >>= λ d. some (some d, 0) in
    if leb 63 index || leb dir_num index then some (some dentry, minus_one) else copied

unfoldable pub get_dentry_size : Filesys → Dentry → Option ℕ
get_dentry_size fs dentry = do
  inode ← inode_index dentry
  some (load32 fs.memory (fs.fs_bootblk + 4096 + inode * 4096))

-- `inode_ptr`, and the fields of the inode there.
abbrev pub inode_addr : Filesys → ℕ → ℕ
inode_addr fs inode = fs.fs_inodes + inode * 0x1000

abbrev pub inode_length : Filesys → ℕ → ℕ
inode_length fs inode = load32 fs.memory (inode_addr fs inode)

abbrev pub data_block : Filesys → ℕ → ℕ → ℕ
data_block fs inode n = load32 fs.memory (inode_addr fs inode + 4 + 4 * n)

-- The counts in the boot block.
abbrev pub num_inodes : Filesys → ℕ
num_inodes fs = load32 fs.memory (fs.fs_bootblk + 4)

abbrev pub num_data_blocks : Filesys → ℕ
num_data_blocks fs = load32 fs.memory (fs.fs_bootblk + 8)

-- The `while` loop of `read_data` with `left = length - i`. It returns the buffer and the result.
unfoldable pub read_loop : ℕ → Filesys → ℕ → ℕ → ℕ → ℕ → ℕ → ℕ → List ℕ → Option (List ℕ × ℕ)
read_loop zero fs inode offset i byte_tracker nth_blk cur_block buf = some (buf, i)
read_loop (suc left) fs inode offset i byte_tracker nth_blk cur_block buf =
    let body =
      store buf i (load8 fs.memory (fs.fs_datablocks + cur_block * 4096 + byte_tracker)) >>= λ buf'.
      let next_block = data_block fs inode (nth_blk + 1) in
      let same = read_loop left fs inode offset (i + 1) (byte_tracker + 1) nth_blk cur_block buf' in
      let moved = read_loop left fs inode offset (i + 1) 0 (nth_blk + 1) next_block buf' in
      if leb 4096 (byte_tracker + 1)
      then if leb (num_data_blocks fs) next_block then some (buf', minus_one) else moved
      else same in
    if ltb (add32 i offset) (inode_length fs inode) then body else some (buf, i)

unfoldable pub read_data : Filesys → ℕ → ℕ → Option (List ℕ) → ℕ → Option (Option (List ℕ) × ℕ)
read_data fs inode offset none count = some (none, minus_one)
read_data fs inode offset (some buf) count =
    let nth_blk = offset / 4096 in
    let cur_block = data_block fs inode nth_blk in
    let body =
      read_loop count fs inode offset 0 (offset % 4096) nth_blk cur_block buf >>= λ (buf', r).
      some (some buf', r) in
    if leb (num_inodes fs) inode || leb (num_data_blocks fs) cur_block
    then some (some buf, minus_one)
    else if leb (inode_length fs inode) offset
    then some (some buf, 0)
    else body

-- A `dentry_t` on the stack: its bytes are not initialised, and are taken to be zero.
abbrev pub empty_dentry : Dentry
empty_dentry = linux_simulation.Base.replicate 64 0

unfoldable pub filesys_read_helper :
    Filesys → Option Reader → ℕ → Option (List ℕ) → ℕ → Option (Filesys × Option (List ℕ) × ℕ)
filesys_read_helper fs none offset buf count = some (fs, buf, minus_one)
filesys_read_helper fs (some fname) offset none count = some (fs, none, minus_one)
filesys_read_helper fs (some fname) offset (some buf) count = do
  (fs', d, r) ← read_dentry_by_name fs (some fname) (some empty_dentry)
  let reading = do
    dentry ← d
    inode ← inode_index dentry
    (out, n) ← read_data fs' inode offset (some buf) count
    some (fs', out, n)
  if r == minus_one then some (fs', some buf, minus_one) else reading
