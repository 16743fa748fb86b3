-- ===== src/Paging/Tests.antt =====
-- The theorems on student-distrib/paging.c, with the tables of a kernel that has just booted.
use linux_simulation.Base.{
  ℕ, ◌+◌, ◌-◌, ◌^◌, ◌<◌, ◌≡◌, refl, Bool, false, ◌&&◌, Option, none, some, List, leb, ltb,
  if◌then◌else◌, replicate, minus_one, arith,
}
use linux_simulation.Paging.{Paging, init_paging, map_task, vidmap}
use linux_simulation.Paging.Setup.{kernel_page, init_paging-translate}
use linux_simulation.Paging.UserPages.{task_page, map_task-translate, vidmap-translate}
use linux_simulation.Paging.Walk.{translate}

abbrev tables : Paging
tables = record {
  page_dir = replicate 1024 0;
  page_tab = replicate 1024 0;
  page_dir_addr = 0;
  page_tab_addr = 0x402000;
}

init_paging-translate_example :
    (q : Paging) × (init_paging 0x401000 0x402000 tables ≡ some q)
    × ((va : ℕ) → va < 2 ^ 32 → translate false q va ≡ (if kernel_page va then some va else none))
init_paging-translate_example = init_paging-translate tables 0x401000 0x402 refl refl (omega arith)

map_task-translate_example :
    (dir : List ℕ) × (map_task tables.page_dir 2 ≡ some dir)
    × ((user_mode : Bool) (va : ℕ)
        → translate user_mode (record tables { page_dir = dir }) va ≡ (
            if task_page va
            then some (0x1000000 + (va - 0x8000000))
            else translate user_mode tables va))
map_task-translate_example = map_task-translate tables 2 refl (omega arith)

vidmap-translate_example :
    (q : Paging) × (start : Option ℕ) × (r : ℕ) × (vidmap tables 0x8048000 ≡ some (q, start, r))
    × (if leb 0x8000000 0x8048000 && ltb 0x8048000 0x8400000
        then ((start ≡ some 0x8800000)
            × (r ≡ 0x8800000)
            × ((user_mode : Bool) (o : ℕ)
                → o < 4096
                → translate user_mode q (0x8800000 + o) ≡ some (0xB8000 + o)))
        else ((q ≡ tables) × (start ≡ none) × (r ≡ minus_one)))
vidmap-translate_example = vidmap-translate tables 0x402 0x8048000 refl refl refl (omega arith)
