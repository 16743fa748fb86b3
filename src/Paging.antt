-- ===== src/Paging.antt =====
-- student-distrib/paging.c: the page directory and the one page table, with the constants of paging.h,
-- and the entries that syscall.c and terminal.c write into them.
--
-- Each table has 1024 words, and the linker puts it at an address of its own. `enable_paging` loads
-- the control registers and `flush_tlb` forgets old translations: from then on the processor
-- translates through the tables as they stand. `none` is an access outside a table.
pub mod Entries
pub mod Walk
pub mod Setup
pub mod UserPages
mod Tests
use linux_simulation.Base.{
  ℕ, zero, suc, ◌+◌, ◌*◌, ◌/◌, ◌^◌, ◌||◌, Option, none, some, List, ◌>>=◌, ◌==◌, ltb, leb,
  if◌then◌else◌, minus_one, u32, bit_and, bit_or, store, get_elem?,
}

pub record Paging : Type 0 where
  pub page_dir : List ℕ
  pub page_tab : List ℕ
  pub page_dir_addr : ℕ
  pub page_tab_addr : ℕ

abbrev pub set_rw_not_present : ℕ
set_rw_not_present = 0x2

abbrev pub set_rw_present : ℕ
set_rw_present = 0x3

abbrev pub user : ℕ
user = 0x4

abbrev pub page_4mb : ℕ
page_4mb = 0x80

abbrev pub set_video_mem : ℕ
set_video_mem = 0x7

abbrev pub video : ℕ
video = 0xB8000

abbrev pub kernel_addr : ℕ
kernel_addr = 0x400000

abbrev pub bits20_mask : ℕ
bits20_mask = 0xFFFFF000

-- `table[i] |= bits`
pub or_into : List ℕ → ℕ → ℕ → Option (List ℕ)
or_into table i bits = get_elem? table i >>= λ entry. store table i (bit_or entry bits)

-- `for(i = 0; i < n; i++) table[i] = SET_RW_NOT_PRESENT;` from `i` on
pub clear_entries : ℕ → List ℕ → ℕ → Option (List ℕ)
clear_entries zero table i = some table
clear_entries (suc left) table i =
    store table i set_rw_not_present >>= λ table'. clear_entries left table' (i + 1)

-- `init_paging`, with the addresses of the two arrays.
pub init_paging : ℕ → ℕ → Paging → Option Paging
init_paging dir_addr tab_addr p = do
  dir ← clear_entries 1024 p.page_dir 0
  tab ← clear_entries 1024 p.page_tab 0
  let video_addr = video / 2 ^ 12
  tab1 ← or_into tab video_addr set_video_mem
  tab2 ← or_into tab1 video_addr set_rw_present
  tab3 ← or_into tab2 video_addr video
  dir1 ← or_into dir 0 (bit_or (bit_and tab_addr bits20_mask) set_rw_present)
  dir2 ← or_into dir1 1 page_4mb
  dir3 ← or_into dir2 1 set_rw_present
  dir4 ← or_into dir3 1 (bit_and kernel_addr bits20_mask)
  some (record {
    page_dir = dir4;
    page_tab = tab3;
    page_dir_addr = dir_addr;
    page_tab_addr = tab_addr;
  })

-- What `execute` and `halt` do with the directory: entry 32 becomes the page of 4 MB of a task.
pub map_task : List ℕ → ℕ → Option (List ℕ)
map_task dir pos = do
  dir0 ← store dir 32 0
  dir1 ← store dir0 32 set_rw_not_present
  dir2 ← or_into dir1 32 page_4mb
  dir3 ← or_into dir2 32 set_rw_present
  dir4 ← or_into dir3 32 user
  or_into dir4 32 (bit_and (u32 (0x800000 + 0x400000 * pos)) bits20_mask)

-- What `vidmap` and `terminal_switch` do: entry 34 becomes the page table, for the user too, and the
-- table's first entry the page at a physical address.
pub map_video : Paging → ℕ → Option Paging
map_video p physical = do
  dir0 ← store p.page_dir 34 0
  dir1 ← store dir0 34 set_rw_not_present
  dir2 ← or_into dir1 34 set_rw_present
  dir3 ← or_into dir2 34 user
  dir4 ← or_into dir3 34 (bit_and p.page_tab_addr bits20_mask)
  tab ← store p.page_tab 0 (bit_or (bit_or physical set_rw_present) user)
  some (record p { page_dir = dir4; page_tab = tab })

-- The entry for the video buffer of a terminal, which `terminal_boot` sets up.
unfoldable pub map_buffer : Paging → ℕ → Option Paging
map_buffer p physical = do
  tab0 ← or_into p.page_tab (physical / 2 ^ 12) 0x7
  tab ← or_into tab0 (physical / 2 ^ 12) physical
  some (record p { page_tab = tab })

-- `vidmap`, with the pointer it is given as a number; what it stores there is the second result.
pub vidmap : Paging → ℕ → Option (Paging × Option ℕ × ℕ)
vidmap p screen_start =
    let mapped = map_video p video >>= λ q. some (q, some 0x8800000, 0x8800000) in
    if screen_start == 0 || leb 0x8400000 screen_start || ltb screen_start 0x8000000
    then some (p, none, minus_one)
    else mapped
