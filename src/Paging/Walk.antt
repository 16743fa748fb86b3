-- ===== src/Paging/Walk.antt =====
-- How the processor translates an address through the tables of student-distrib/paging.c.
use linux_simulation.Base.{
  ℕ, ◌+◌, ◌*◌, ◌/◌, ◌%◌, ◌^◌, ◌≡◌, refl, Bool, true, false, not, ◌&&◌, ◌||◌, Option, none, some,
  ◌>>=◌, ◌==◌, if◌then◌else◌, get_elem?, arith,
}
use linux_simulation.Paging.{Paging}

-- May an entry be used? It is present, and allows the user where the user asks.
abbrev pub allows : Bool → ℕ → Bool
allows user_mode entry = (entry % 2 == 1) && (not user_mode || (entry / 4 % 2 == 1))

-- The physical address, or none for a page fault. The only page table is that of paging.c.
pub translate : Bool → Paging → ℕ → Option ℕ
translate user_mode p va = do
  pde ← get_elem? p.page_dir (va / 2 ^ 22)
  let small = do
    pte ← get_elem? p.page_tab (va / 2 ^ 12 % 2 ^ 10)
    if allows user_mode pte then some (pte / 2 ^ 12 * 2 ^ 12 + va % 2 ^ 12) else none
  let through_table = if pde / 2 ^ 12 == p.page_tab_addr / 2 ^ 12 then small else none
  let big = some (pde / 2 ^ 22 * 2 ^ 22 + va % 2 ^ 22)
  if allows user_mode pde then if pde / 2 ^ 7 % 2 == 1 then big else through_table else none

-- Through a page of 4 MB.
pub translate-big :
    (user_mode : Bool) (p : Paging) (va pde : ℕ)
    → get_elem? p.page_dir (va / 2 ^ 22) ≡ some pde
    → allows user_mode pde ≡ true
    → pde / 2 ^ 7 % 2 ≡ 1
    → translate user_mode p va ≡ some (pde / 2 ^ 22 * 2 ^ 22 + va % 2 ^ 22)
unfolding translate
translate-big user_mode p va pde e allowed is_big =
    let b : (pde / 2 ^ 7 % 2 == 1) ≡ true = ground arith in rw e (rw allowed (rw b refl))

-- Through the page table, to a page or to a fault.
pub translate-small :
    (user_mode : Bool) (p : Paging) (va pde pte : ℕ)
    → get_elem? p.page_dir (va / 2 ^ 22) ≡ some pde
    → allows user_mode pde ≡ true
    → pde / 2 ^ 7 % 2 ≡ 0
    → pde / 2 ^ 12 ≡ p.page_tab_addr / 2 ^ 12
    → get_elem? p.page_tab (va / 2 ^ 12 % 2 ^ 10) ≡ some pte
    → translate user_mode p va
      ≡ (if allows user_mode pte then some (pte / 2 ^ 12 * 2 ^ 12 + va % 2 ^ 12) else none)
unfolding translate
translate-small user_mode p va pde pte e allowed is_small table there =
    let b : (pde / 2 ^ 7 % 2 == 1) ≡ false = ground arith in
    let t : (pde / 2 ^ 12 == p.page_tab_addr / 2 ^ 12) ≡ true = ground arith in
    rw e (rw allowed (rw b (rw t (rw there refl))))

-- A page fault at the directory.
pub translate-none :
    (user_mode : Bool) (p : Paging) (va pde : ℕ)
    → get_elem? p.page_dir (va / 2 ^ 22) ≡ some pde
    → allows user_mode pde ≡ false
    → translate user_mode p va ≡ none
unfolding translate
translate-none user_mode p va pde e refused = rw e (rw refused refl)

-- Only the directory's entry for the address counts, as long as the table stays.
pub translate-same :
    (user_mode : Bool) (p q : Paging) (va : ℕ)
    → get_elem? q.page_dir (va / 2 ^ 22) ≡ get_elem? p.page_dir (va / 2 ^ 22)
    → q.page_tab ≡ p.page_tab
    → q.page_tab_addr ≡ p.page_tab_addr
    → translate user_mode q va ≡ translate user_mode p va
unfolding translate
translate-same user_mode p q va dir tab addr = rw (dir, tab, addr) refl
