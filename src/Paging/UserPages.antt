-- ===== src/Paging/UserPages.antt =====
-- The pages that student-distrib/syscall.c maps for the user: a task's, and the video memory.
use linux_simulation.Base.{
  ℕ, ◌+◌, ◌-◌, ◌*◌, ◌/◌, ◌%◌, ◌^◌, ◌<◌, ◌≡◌, ◌≢◌, refl, ap, ◌∙◌, Bool, true, false, ◌&&◌, ◌||◌,
  Option, none, some, List, set, length, length-set, get_elem?, get_elem?-set_self,
  get_elem?-set_ne, ltb, leb, ◌==◌, if◌then◌else◌, Bool-cases, inl, inr, u32, bit_and, bit_or,
  store_lem, minus_one, arith,
}
use linux_simulation.Base.Bits.{bit_and-page, bit_or-flags, flags-bit_or}
use linux_simulation.Paging.{Paging, map_task, map_video, vidmap}
use linux_simulation.Paging.Entries.{set-set, or_into-set}
use linux_simulation.Paging.Walk.{allows, translate, translate-big, translate-small, translate-same}

-- The directory's entry for the task in a slot.
abbrev pub task_entry : ℕ → ℕ
task_entry pos = (0x800 + 0x400 * pos) * 4096 + 0x87

task_entry_lem :
    (pos : ℕ)
    → pos < 6
    → bit_or
        (bit_or (bit_or (bit_or 2 0x80) 0x3) 0x4)
        (bit_and (u32 (0x800000 + 0x400000 * pos)) 0xFFFFF000)
      ≡ task_entry pos
task_entry_lem pos h =
    let masked : bit_and (u32 (0x800000 + 0x400000 * pos)) 0xFFFFF000
        ≡ (0x800 + 0x400 * pos) * 4096 + 0 =
      bit_and-page (u32 (0x800000 + 0x400000 * pos)) (omega arith) ∙ omega arith in
    ap (bit_or 0x87) masked ∙ flags-bit_or (0x800 + 0x400 * pos) 0x87 0 (omega arith) (omega arith)

-- `map_task` writes that entry, and no other.
pub map_task_lem :
    (dir : List ℕ) (pos : ℕ)
    → length dir ≡ 1024
    → pos < 6
    → map_task dir pos ≡ some (set dir 32 (task_entry pos))
unfolding map_task
map_task_lem dir pos size h =
    let d1 = length-set dir 32 0 in
    let fits : 32 < length (set dir 32 0) = omega arith in
    let again = set-set dir 32 0 2 in
    let or1 = or_into-set dir 32 2 0x80 (omega arith) in
    let or2 = or_into-set dir 32 (bit_or 2 0x80) 0x3 (omega arith) in
    let or3 = or_into-set dir 32 (bit_or (bit_or 2 0x80) 0x3) 0x4 (omega arith) in
    let or4 =
      or_into-set dir 32 (bit_or (bit_or (bit_or 2 0x80) 0x3) 0x4)
        (bit_and (u32 (0x800000 + 0x400000 * pos)) 0xFFFFF000) (omega arith) in
    rw (store_lem dir 32 0 (omega arith)) (
      rw (store_lem (set dir 32 0) 32 2 fits) (
        rw again
          (rw or1 (rw or2 (rw or3 (or4 ∙ ap (λ e. some (set dir 32 e)) (task_entry_lem pos h)))))))

-- The 4 MB from 128 MB on, where each task finds its own program.
abbrev pub task_page : ℕ → Bool
task_page va = leb 0x8000000 va && ltb va 0x8400000

-- After `map_task`, the user's 4 MB from 0x8000000 on stand for the slot's own 4 MB of memory, from
-- 0x800000 + 0x400000 * pos on, and every other address is translated as before.
pub map_task-translate :
    (p : Paging) (pos : ℕ)
    → length p.page_dir ≡ 1024
    → pos < 6
    → (dir : List ℕ) × (map_task p.page_dir pos ≡ some dir)
      × ((user_mode : Bool) (va : ℕ)
          → translate user_mode (record p { page_dir = dir }) va ≡ (
              if task_page va
              then some (0x800000 + 0x400000 * pos + (va - 0x8000000))
              else translate user_mode p va))
map_task-translate p pos size h = (
  set p.page_dir 32 (task_entry pos),
  map_task_lem p.page_dir pos size h,
  λ user_mode va. elim (Bool-cases (task_page va)) [
    | inl inside ↦
        let entry : va / 2 ^ 22 ≡ 32 = ground arith in
        let is : task_entry pos / 2 ^ 22 * 2 ^ 22 + va % 2 ^ 22
            ≡ 0x800000 + 0x400000 * pos + (va - 0x8000000) =
          ground arith in
        let odd : task_entry pos % 2 ≡ 1 = omega arith in
        let by_user : task_entry pos / 4 % 2 ≡ 1 = omega arith in
        let allowed : allows user_mode (task_entry pos) ≡ true = rw (odd, by_user) (ground arith) in
        rw inside (
          translate-big user_mode (record p { page_dir = set p.page_dir 32 (task_entry pos) }) va
            (task_entry pos)
            (ap (get_elem? (set p.page_dir 32 (task_entry pos))) entry
              ∙ get_elem?-set_self p.page_dir 32 (task_entry pos) (omega arith))
            allowed (omega arith)
          ∙ ap some is)
    | inr outside ↦
        let entry : 32 ≢ va / 2 ^ 22 = ground arith in
        rw outside (
          translate-same user_mode p (record p { page_dir = set p.page_dir 32 (task_entry pos) }) va
            (get_elem?-set_ne p.page_dir 32 (va / 2 ^ 22) (task_entry pos) entry) refl refl)
  ],
)

-- The tables after `map_video`: entry 34 of the directory, and the first page.
pub record IsVideoMapped (p q : Paging) (m n : ℕ) : Type 0 where
  pub dir : q.page_dir ≡ set p.page_dir 34 (n * 4096 + 7)
  pub tab : q.page_tab ≡ set p.page_tab 0 (m * 4096 + 7)
  pub tab_addr : q.page_tab_addr ≡ p.page_tab_addr

pub map_video-IsVideoMapped :
    (p : Paging) (m n : ℕ)
    → length p.page_dir ≡ 1024
    → length p.page_tab ≡ 1024
    → p.page_tab_addr ≡ n * 4096
    → n < 2 ^ 20
    → (q : Paging) × (map_video p (m * 4096) ≡ some q) × IsVideoMapped p q m n
unfolding map_video
map_video-IsVideoMapped p m n dir_size tab_size addr h =
    let dir = p.page_dir in
    let masked : bit_and p.page_tab_addr 0xFFFFF000 ≡ n * 4096 + 0 =
      ap (λ a. bit_and a 0xFFFFF000) addr ∙ bit_and-page (n * 4096) (omega arith) ∙ omega arith in
    let table : bit_or 7 (bit_and p.page_tab_addr 0xFFFFF000) ≡ n * 4096 + 7 =
      ap (bit_or 7) masked ∙ flags-bit_or n 7 0 (omega arith) (omega arith) in
    let three = bit_or-flags m 0 3 (omega arith) (omega arith) in
    let zero_flags : m * 4096 ≡ m * 4096 + 0 = omega arith in
    let page : bit_or (bit_or (m * 4096) 0x3) 0x4 ≡ m * 4096 + 7 =
      ap (λ a. bit_or (bit_or a 0x3) 0x4) zero_flags
      ∙ ap (λ a. bit_or a 0x4) three
      ∙ bit_or-flags m 3 4 (omega arith) (omega arith) in
    let d1 = length-set dir 34 0 in
    let fits : 34 < length (set dir 34 0) = omega arith in
    let or1 = or_into-set dir 34 2 0x3 (omega arith) in
    let or2 = or_into-set dir 34 (bit_or 2 0x3) 0x4 (omega arith) in
    let or3 =
      or_into-set dir 34 (bit_or (bit_or 2 0x3) 0x4) (bit_and p.page_tab_addr 0xFFFFF000)
        (omega arith) in
    let written = store_lem p.page_tab 0 (bit_or (bit_or (m * 4096) 0x3) 0x4) (omega arith) in
    (
      record p {
        page_dir = set dir 34 (bit_or 7 (bit_and p.page_tab_addr 0xFFFFF000));
        page_tab = set p.page_tab 0 (bit_or (bit_or (m * 4096) 0x3) 0x4);
      },
      rw (store_lem dir 34 0 (omega arith)) (
          rw (store_lem (set dir 34 0) 34 2 fits)
            (rw (set-set dir 34 0 2) (rw or1 (rw or2 (rw or3 (rw written refl)))))),
      record { dir = ap (set dir 34) table; tab = ap (set p.page_tab 0) page; tab_addr = refl },
    )

-- The page at 0x8800000 is then the physical page, for the user too.
pub IsVideoMapped-translate :
    (p q : Paging) (m n : ℕ)
    → length p.page_dir ≡ 1024
    → length p.page_tab ≡ 1024
    → p.page_tab_addr ≡ n * 4096
    → n < 2 ^ 20
    → IsVideoMapped p q m n
    → (user_mode : Bool) (o : ℕ) → o < 4096
    → translate user_mode q (0x8800000 + o) ≡ some (m * 4096 + o)
IsVideoMapped-translate p q m n dir_size tab_size addr h v user_mode o lt =
    let entry : (0x8800000 + o) / 2 ^ 22 ≡ 34 = omega arith in
    let page : (0x8800000 + o) / 2 ^ 12 % 2 ^ 10 ≡ 0 = omega arith in
    let at_34 : get_elem? q.page_dir ((0x8800000 + o) / 2 ^ 22) ≡ some (n * 4096 + 7) =
      rw (v.dir, entry) (get_elem?-set_self p.page_dir 34 (n * 4096 + 7) (omega arith)) in
    let at_0 : get_elem? q.page_tab ((0x8800000 + o) / 2 ^ 12 % 2 ^ 10) ≡ some (m * 4096 + 7) =
      rw (v.tab, page) (get_elem?-set_self p.page_tab 0 (m * 4096 + 7) (omega arith)) in
    let odd : (n * 4096 + 7) % 2 ≡ 1 = omega arith in
    let by_user : (n * 4096 + 7) / 4 % 2 ≡ 1 = omega arith in
    let odd' : (m * 4096 + 7) % 2 ≡ 1 = omega arith in
    let by_user' : (m * 4096 + 7) / 4 % 2 ≡ 1 = omega arith in
    let allowed : allows user_mode (n * 4096 + 7) ≡ true = rw (odd, by_user) (ground arith) in
    let allowed' : allows user_mode (m * 4096 + 7) ≡ true = rw (odd', by_user') (ground arith) in
    let same = v.tab_addr in
    let is : (m * 4096 + 7) / 2 ^ 12 * 2 ^ 12 + (0x8800000 + o) % 2 ^ 12 ≡ m * 4096 + o =
      omega arith in
    translate-small user_mode q (0x8800000 + o) (n * 4096 + 7) (m * 4096 + 7) at_34 allowed
      (omega arith) (omega arith) at_0
    ∙ rw allowed' (ap some is)

-- `vidmap` returns -1 and changes nothing for a pointer that is null or outside the 4 MB of the
-- program; otherwise it passes on and returns 0x8800000, where the user then finds the video memory.
pub vidmap-translate :
    (p : Paging) (n screen_start : ℕ)
    → length p.page_dir ≡ 1024
    → length p.page_tab ≡ 1024
    → p.page_tab_addr ≡ n * 4096
    → n < 2 ^ 20
    → (q : Paging) × (start : Option ℕ) × (r : ℕ) × (vidmap p screen_start ≡ some (q, start, r))
      × (if leb 0x8000000 screen_start && ltb screen_start 0x8400000
          then ((start ≡ some 0x8800000)
              × (r ≡ 0x8800000)
              × ((user_mode : Bool) (o : ℕ)
                  → o < 4096
                  → translate user_mode q (0x8800000 + o) ≡ some (0xB8000 + o)))
          else ((q ≡ p) × (start ≡ none) × (r ≡ minus_one)))
unfolding vidmap
vidmap-translate p n screen_start dir_size tab_size addr h =
    elim (Bool-cases (leb 0x8000000 screen_start && ltb screen_start 0x8400000)) [
      | inl ok ↦
          let (q, runs, v) = map_video-IsVideoMapped p 0xB8 n dir_size tab_size addr h in
          let valid : (screen_start == 0
                || leb 0x8400000 screen_start
                || ltb screen_start 0x8000000)
              ≡ false =
            ground arith in
          (
            q,
            some 0x8800000,
            0x8800000,
            rw valid (rw runs refl),
            rw ok (
              refl,
              refl,
              λ user_mode o lt.
                  IsVideoMapped-translate p q 0xB8 n dir_size tab_size addr h v user_mode o lt,
            ),
          )
      | inr bad ↦
          let invalid : (screen_start == 0
                || leb 0x8400000 screen_start
                || ltb screen_start 0x8000000)
              ≡ true =
            ground arith in
          (p, none, minus_one, rw invalid refl, rw bad (refl, refl, refl))
    ]
