-- ===== src/Paging/Setup.antt =====
-- The translation that `init_paging` of student-distrib/paging.c sets up.
use linux_simulation.Base.{
  ℕ, ◌+◌, ◌*◌, ◌/◌, ◌%◌, ◌^◌, ◌≤◌, ◌<◌, ◌≡◌, ◌≢◌, refl, sym, ap, ◌∙◌, Bool, true, false, ◌&&◌, ◌||◌,
  none, some, set, length, length-set, get_elem?, get_elem?-set_self, get_elem?-set_ne, ltb, leb,
  ◌==◌, if◌then◌else◌, Bool-cases, inl, inr, bit_and, bit_or, arith,
}
use linux_simulation.Base.Bits.{bit_and-page, bit_or-flags, flags-bit_or}
use linux_simulation.Paging.{Paging, init_paging}
use linux_simulation.Paging.Entries.{or_into-set, or_into_lem, clear_entries-IsCleared}
use linux_simulation.Paging.Walk.{allows, translate, translate-big, translate-small, translate-none}

-- The page table's place in the directory's entry: the address, and "present" and "writable".
pub table_entry :
    (n : ℕ) → n < 2 ^ 20 → bit_or 0x2 (bit_or (bit_and (n * 4096) 0xFFFFF000) 0x3) ≡ n * 4096 + 3
table_entry n h =
    let masked : bit_and (n * 4096) 0xFFFFF000 ≡ n * 4096 + 0 =
      bit_and-page (n * 4096) (omega arith) ∙ omega arith in
    let three : bit_or 0 3 ≡ 3 = refl in
    let two : bit_or 2 3 ≡ 3 = refl in
    let inner = ap (λ a. bit_or a 3) masked ∙ bit_or-flags n 0 3 (omega arith) (omega arith) in
    ap (bit_or 2) (inner ∙ ap (λ b. n * 4096 + b) three)
    ∙ flags-bit_or n 2 3 (omega arith) (omega arith)
    ∙ ap (λ b. n * 4096 + b) two

-- The tables after `init_paging`.
record IsSetUp (q : Paging) (n : ℕ) : Type 0 where
  tab_addr : q.page_tab_addr ≡ n * 4096
  first : get_elem? q.page_dir 0 ≡ some (n * 4096 + 3)
  second : get_elem? q.page_dir 1 ≡ some 0x400083
  others : (j : ℕ) → 2 ≤ j → j < 1024 → get_elem? q.page_dir j ≡ some 2
  video_page : get_elem? q.page_tab 0xB8 ≡ some 0xB8007
  pages : (j : ℕ) → j ≢ 0xB8 → j < 1024 → get_elem? q.page_tab j ≡ some 2

-- `init_paging` runs, and leaves these entries.
init_paging-IsSetUp :
    (p : Paging) (dir_addr n : ℕ)
    → length p.page_dir ≡ 1024
    → length p.page_tab ≡ 1024
    → n < 2 ^ 20
    → (q : Paging) × (init_paging dir_addr (n * 4096) p ≡ some q) × IsSetUp q n
unfolding init_paging
init_paging-IsSetUp p dir_addr n dir_size tab_size h =
    let (dir, dir_runs, d) = clear_entries-IsCleared 1024 p.page_dir 0 (omega arith) in
    let (tab, tab_runs, t) = clear_entries-IsCleared 1024 p.page_tab 0 (omega arith) in
    let dsize = d.size in
    let tsize = t.size in
    let tab1 =
      or_into_lem tab 0xB8 2 0x7 (t.cleared 0xB8 (omega arith) (omega arith)) (omega arith) in
    let tab2 = or_into-set tab 0xB8 (bit_or 2 0x7) 0x3 (omega arith) in
    let tab3 = or_into-set tab 0xB8 (bit_or (bit_or 2 0x7) 0x3) 0xB8000 (omega arith) in
    let e0 = bit_or 0x2 (bit_or (bit_and (n * 4096) 0xFFFFF000) 0x3) in
    let d1 = set dir 0 e0 in
    let d1_size = length-set dir 0 e0 in
    let at_1 =
      get_elem?-set_ne dir 0 1 e0 (omega arith) ∙ d.cleared 1 (omega arith) (omega arith) in
    let dir1 =
      or_into_lem dir 0 2 (bit_or (bit_and (n * 4096) 0xFFFFF000) 0x3)
        (d.cleared 0 (omega arith) (omega arith)) (omega arith) in
    let dir2 = or_into_lem d1 1 2 0x80 at_1 (omega arith) in
    let dir3 = or_into-set d1 1 (bit_or 2 0x80) 0x3 (omega arith) in
    let dir4 =
      or_into-set d1 1 (bit_or (bit_or 2 0x80) 0x3) (bit_and 0x400000 0xFFFFF000) (omega arith) in
    let e1 = bit_or (bit_or (bit_or 2 0x80) 0x3) (bit_and 0x400000 0xFFFFF000) in
    let v = bit_or (bit_or (bit_or 2 0x7) 0x3) 0xB8000 in
    (
      record {
        page_dir = set d1 1 e1;
        page_tab = set tab 0xB8 v;
        page_dir_addr = dir_addr;
        page_tab_addr = n * 4096;
      },
      rw dir_runs
          (rw tab_runs (rw tab1 (rw tab2 (rw tab3 (rw dir1 (rw dir2 (rw dir3 (rw dir4 refl)))))))),
      record {
        tab_addr = refl;
        first =
            get_elem?-set_ne d1 1 0 e1 (omega arith)
            ∙ get_elem?-set_self dir 0 e0 (omega arith)
            ∙ ap some (table_entry n h);
        second = get_elem?-set_self d1 1 e1 (omega arith);
        others = λ j lo hi.
            get_elem?-set_ne d1 1 j e1 (omega arith)
            ∙ get_elem?-set_ne dir 0 j e0 (omega arith)
            ∙ d.cleared j (omega arith) (omega arith);
        video_page = get_elem?-set_self tab 0xB8 v (omega arith);
        pages = λ j ne hi.
            get_elem?-set_ne tab 0xB8 j v (λ e. ne (sym e))
            ∙ t.cleared j (omega arith) (omega arith);
      },
    )

-- Is the address in the page of the video memory, or among the 4 MB of the kernel?
abbrev pub kernel_page : ℕ → Bool
kernel_page va = (leb 0xB8000 va && ltb va 0xB9000) || (leb 0x400000 va && ltb va 0x800000)

-- Below 4 MB, the page table decides.
translated_low :
    (q : Paging) (n : ℕ)
    → IsSetUp q n
    → (va pte : ℕ) → va < 2 ^ 22
    → get_elem? q.page_tab (va / 2 ^ 12) ≡ some pte
    → translate false q va
      ≡ (if allows false pte then some (pte / 2 ^ 12 * 2 ^ 12 + va % 2 ^ 12) else none)
translated_low q n s va pte lt there =
    let first_entry : va / 2 ^ 22 ≡ 0 = omega arith in
    let page : va / 2 ^ 12 % 2 ^ 10 ≡ va / 2 ^ 12 = omega arith in
    let addr = s.tab_addr in
    translate-small false q va (n * 4096 + 3) pte (ap (get_elem? q.page_dir) first_entry ∙ s.first)
      (ground arith) (omega arith) (omega arith) (ap (get_elem? q.page_tab) page ∙ there)

translated :
    (q : Paging) (n : ℕ)
    → IsSetUp q n
    → (va : ℕ) → va < 2 ^ 32
    → translate false q va ≡ (if kernel_page va then some va else none)
translated q n s va lt = elim (Bool-cases (ltb va 0x400000)) [
  | inl low ↦ elim (Bool-cases (va / 2 ^ 12 == 0xB8)) [
    | inl is_video ↦
        let page : va / 2 ^ 12 ≡ 0xB8 = ground arith in
        let inside : kernel_page va ≡ true = ground arith in
        let same : 0xB8007 / 2 ^ 12 * 2 ^ 12 + va % 2 ^ 12 ≡ va = omega arith in
        translated_low q n s va 0xB8007 (ground arith)
          (ap (get_elem? q.page_tab) page ∙ s.video_page)
        ∙ rw inside (ap some same)
    | inr other ↦
        let ne : va / 2 ^ 12 ≢ 0xB8 = ground arith in
        let outside : kernel_page va ≡ false = ground arith in
        translated_low q n s va 2 (ground arith) (s.pages (va / 2 ^ 12) ne (ground arith))
        ∙ rw outside refl
  ]
  | inr high ↦ elim (Bool-cases (ltb va 0x800000)) [
    | inl kernel ↦
        let second_entry : va / 2 ^ 22 ≡ 1 = ground arith in
        let inside : kernel_page va ≡ true = ground arith in
        let same : 0x400083 / 2 ^ 22 * 2 ^ 22 + va % 2 ^ 22 ≡ va = ground arith in
        translate-big false q va 0x400083 (ap (get_elem? q.page_dir) second_entry ∙ s.second) refl
          refl
        ∙ rw inside (ap some same)
    | inr more ↦
        let outside : kernel_page va ≡ false = ground arith in
        translate-none false q va 2 (s.others (va / 2 ^ 22) (ground arith) (ground arith)) refl
        ∙ rw outside refl
  ]
]

-- After `init_paging`, which runs, exactly the page of the video memory and the 4 MB of the kernel
-- are mapped, each address to itself, and all others of the 2 ^ 32 addresses fault.
pub init_paging-translate :
    (p : Paging) (dir_addr n : ℕ)
    → length p.page_dir ≡ 1024
    → length p.page_tab ≡ 1024
    → n < 2 ^ 20
    → (q : Paging) × (init_paging dir_addr (n * 4096) p ≡ some q)
      × ((va : ℕ) → va < 2 ^ 32 → translate false q va ≡ (if kernel_page va then some va else none))
init_paging-translate p dir_addr n dir_size tab_size h =
    let (q, runs, s) = init_paging-IsSetUp p dir_addr n dir_size tab_size h in
    (q, runs, λ va lt. translated q n s va lt)
