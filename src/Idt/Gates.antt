-- ===== src/Idt/Gates.antt =====
-- What the descriptor table of student-distrib/idt_init.c holds.
use linux_simulation.Base.{
  ℕ, zero, suc, ◌+◌, ◌*◌, ◌/◌, ◌%◌, ◌^◌, ◌≤◌, ◌<◌, ◌≡◌, ◌↔◌, inl, inr, refl, sym, ap, ◌∙◌, Bool,
  true, false, ◌&&◌, Bool-cases, Option, none, some, List, [], ◌∷◌, ◌==◌, ltb, if◌then◌else◌,
  store_lem, get_elem?, set, length, length-set, get_elem?-set_self, get_elem?-set_ne,
  get_elem?-none, arith,
}
use linux_simulation.Idt.{
  exception, de, db, nmi, bp, of, br, ud, nm, df, old_mf, ts, np, ss, gp, pf, spurious, mf, ac, mc,
  xf, interrupt_pit, interrupt_kb, interrupt_rtc, interrupt_mouse, syscall, Handler, Gate,
  syscall_vector, set_gate, set_gates, with_offset, entries, set_entries, idt_set_all,
}

elem_there : (idt : List Gate) (i : ℕ) → i < length idt → (g : Gate) × (get_elem? idt i ≡ some g)
elem_there [] i h = elim h [ ]
elem_there (g ∷ idt) zero h = (g, refl)
elem_there (g ∷ idt) (suc i) h = elem_there idt i (omega arith)

-- All entries from `index` on are set.
set_gates_lem :
    (left : ℕ) (idt : List Gate) (index : ℕ)
    → index + left ≡ length idt
    → (out : List Gate) × (set_gates left idt index ≡ some out)
      × (length out ≡ length idt)
      × ((j : ℕ) → j < index → get_elem? out j ≡ get_elem? idt j)
      × ((j : ℕ) (g : Gate)
          → index ≤ j
          → get_elem? idt j ≡ some g
          → get_elem? out j ≡ some (set_gate j g))
unfolding set_gates
set_gates_lem zero idt index h = (
  idt,
  refl,
  refl,
  λ j lt. refl,
  λ j g lo there. let nothing = get_elem?-none idt j (omega arith) in cc,
)
set_gates_lem (suc left) idt index h =
    let (g, here) = elem_there idt index (omega arith) in
    let len = length-set idt index (set_gate index g) in
    let (out, runs, size, before, behind) =
      set_gates_lem left (set idt index (set_gate index g)) (index + 1) (omega arith) in
    (
      out,
      rw here (rw (store_lem idt index (set_gate index g) (omega arith)) runs),
      size ∙ len,
      λ j lt.
          before j (omega arith) ∙ get_elem?-set_ne idt index j (set_gate index g) (omega arith),
      λ j g' lo there. elim (Bool-cases (j == index)) [
        | inl eq ↦
            let is : j ≡ index = ground arith in
            let same : g ≡ g' = (let x = ap (get_elem? idt) is in cc) in
            ap (get_elem? out) is
            ∙ before index (omega arith)
            ∙ get_elem?-set_self idt index (set_gate index g) (omega arith)
            ∙ (let y : set_gate index g ≡ set_gate j g' = rw (is, same) refl in ap some y)
        | inr ne ↦
            behind j g' (ground arith)
              (get_elem?-set_ne idt index j (set_gate index g) (ground arith) ∙ there)
      ],
    )

-- The handler that is set last for a vector.
abbrev pub handler_at : List (ℕ × Handler) → ℕ → Option Handler
handler_at [] v = none
handler_at ((vector, handler) ∷ more) v = elim (handler_at more v) [
  | none ↦ if v == vector then some handler else none
  | some later ↦ some later
]

abbrev pub with_handler : (Handler → ℕ) → Gate → Option Handler → Gate
with_handler address g none = g
with_handler address g (some h) = with_offset g (address h)

abbrev all_inside : List (ℕ × Handler) → ℕ → Bool
all_inside [] n = true
all_inside ((vector, handler) ∷ more) n = ltb vector n && all_inside more n

-- A later entry for the same vector wins.
later_wins :
    (address : Handler → ℕ) (g : Gate) (handler : Handler) (later : Option Handler) (same : Bool)
    → with_handler address (if same then with_offset g (address handler) else g) later
      ≡ with_handler address g
          (elim later [ none ↦ if same then some handler else none | some h ↦ some h ])
later_wins address g handler none true = refl
later_wins address g handler none false = refl
later_wins address g handler (some h) true = refl
later_wins address g handler (some h) false = refl

set_entries_lem :
    (address : Handler → ℕ) (es : List (ℕ × Handler)) (idt : List Gate)
    → all_inside es (length idt) ≡ true
    → (out : List Gate) × (set_entries address es idt ≡ some out)
      × ((v : ℕ) (g : Gate)
          → get_elem? idt v ≡ some g
          → get_elem? out v ≡ some (with_handler address g (handler_at es v)))
unfolding set_entries
set_entries_lem address [] idt inside = (idt, refl, λ v g there. there)
set_entries_lem address ((vector, handler) ∷ more) idt inside =
    let (old, here) = elem_there idt vector (ground arith) in
    let new = with_offset old (address handler) in
    let len = length-set idt vector new in
    let inside' : all_inside more (length (set idt vector new)) ≡ true =
      ap (all_inside more) len ∙ ground arith in
    let (out, runs, at) = set_entries_lem address more (set idt vector new) inside' in
    (
      out,
      rw here (rw (store_lem idt vector new (ground arith)) runs),
      λ v g there. elim (Bool-cases (v == vector)) [
        | inl eq ↦
            let is : v ≡ vector = ground arith in
            let same : old ≡ g = (let x = ap (get_elem? idt) is in cc) in
            let written : get_elem? (set idt vector new) v
                ≡ some (with_offset g (address handler)) =
              ap (get_elem? (set idt vector new)) is
              ∙ get_elem?-set_self idt vector new (ground arith)
              ∙ ap (λ o. some (with_offset o (address handler))) same in
            at v (with_offset g (address handler)) written
            ∙ ap some (
                later_wins address g handler (handler_at more v) true
                ∙ ap (with_handler address g) (
                    ap
                      (λ b. elim (handler_at more v) [
                        | none ↦ if b then some handler else none
                        | some h ↦ some h
                      ])
                      (sym eq)))
        | inr ne ↦
            at v g (get_elem?-set_ne idt vector v new (ground arith) ∙ there)
            ∙ ap some (
                later_wins address g handler (handler_at more v) false
                ∙ ap (with_handler address g) (
                    ap
                      (λ b. elim (handler_at more v) [
                        | none ↦ if b then some handler else none
                        | some h ↦ some h
                      ])
                      (sym ne)))
      ],
    )

-- The vector by which the processor, or the interrupt controllers, reach a handler: the processor numbers
-- its exceptions itself, and the controllers send their sixteen lines as the vectors from 0x20 on. The
-- timer is line 0, the keyboard line 1, the clock line 8 and the mouse line 12.
abbrev pub vector_of : Handler → ℕ
vector_of (exception de) = 0
vector_of (exception db) = 1
vector_of (exception nmi) = 2
vector_of (exception bp) = 3
vector_of (exception of) = 4
vector_of (exception br) = 5
vector_of (exception ud) = 6
vector_of (exception nm) = 7
vector_of (exception df) = 8
vector_of (exception old_mf) = 9
vector_of (exception ts) = 10
vector_of (exception np) = 11
vector_of (exception ss) = 12
vector_of (exception gp) = 13
vector_of (exception pf) = 14
vector_of (exception spurious) = 15
vector_of (exception mf) = 16
vector_of (exception ac) = 17
vector_of (exception mc) = 18
vector_of (exception xf) = 19
vector_of interrupt_pit = 0x20 + 0
vector_of interrupt_kb = 0x20 + 1
vector_of interrupt_rtc = 0x20 + 8
vector_of interrupt_mouse = 0x20 + 12
vector_of syscall = 0x80

handler_found : (h : Handler) → handler_at entries (vector_of h) ≡ some h
handler_found (exception de) = refl
handler_found (exception db) = refl
handler_found (exception nmi) = refl
handler_found (exception bp) = refl
handler_found (exception of) = refl
handler_found (exception br) = refl
handler_found (exception ud) = refl
handler_found (exception nm) = refl
handler_found (exception df) = refl
handler_found (exception old_mf) = refl
handler_found (exception ts) = refl
handler_found (exception np) = refl
handler_found (exception ss) = refl
handler_found (exception gp) = refl
handler_found (exception pf) = refl
handler_found (exception spurious) = refl
handler_found (exception mf) = refl
handler_found (exception ac) = refl
handler_found (exception mc) = refl
handler_found (exception xf) = refl
handler_found interrupt_pit = refl
handler_found interrupt_kb = refl
handler_found interrupt_rtc = refl
handler_found interrupt_mouse = refl
handler_found syscall = refl

-- What a vector does: the gate is a present 32-bit gate of the kernel's segment, which a program may
-- only call where it is the vector of the system calls; the handler of the vector is found.
pub record IsGate (address : Handler → ℕ) (v : ℕ) (g : Gate) : Type 0 where
  pub present : g.present ≡ 1
  pub selector : g.seg_selector ≡ 0x10
  pub wide : g.size ≡ 1
  pub callable : (g.dpl ≡ 3) ↔ (v ≡ syscall_vector)
  pub goes_to :
      (h : Handler)
      → vector_of h ≡ v
      → address h < 2 ^ 32
      → g.offset_31_16 * 2 ^ 16 + g.offset_15_00 ≡ address h

gate_of :
    (address : Handler → ℕ) (v : ℕ) (g : Gate) (found : Option Handler)
    → handler_at entries v ≡ found
    → IsGate address v (with_handler address (set_gate v g) found)
unfolding set_gate
gate_of address v g none e = record {
  present = refl;
  selector = refl;
  wide = refl;
  callable = ground arith;
  goes_to = λ h is small. let found = ap (handler_at entries) is in let at = handler_found h in cc;
}
gate_of address v g (some h) e = record {
  present = refl;
  selector = refl;
  wide = refl;
  callable = ground arith;
  goes_to = λ h' is small.
      let found = ap (handler_at entries) is in
      let at = handler_found h' in
      let same : h ≡ h' = cc in
      ap (λ x. address x / 2 ^ 16 % 2 ^ 16 * 2 ^ 16 + address x % 2 ^ 16) same ∙ omega arith;
}

-- After `_idt_set_all` every one of the 256 vectors has a gate that is present, 32 bits wide and in the
-- kernel's segment; a program can call the vector of the system calls and no other; and each handler
-- stands at its own vector: the exceptions from 0 to 19, the lines of the interrupt controllers from 0x20
-- on, and the system calls at 0x80.
pub idt_set_all-IsGate :
    (address : Handler → ℕ) (idt : List Gate)
    → length idt ≡ 256
    → (out : List Gate) × (idt_set_all address idt ≡ some out)
      × ((v : ℕ) → v < 256 → (g : Gate) × (get_elem? out v ≡ some g) × IsGate address v g)
unfolding idt_set_all
idt_set_all-IsGate address idt size =
    let (gates, sets, len, before, set_there) = set_gates_lem 256 idt 0 (omega arith) in
    let inside : all_inside entries (length gates) ≡ true =
      ap (all_inside entries) (len ∙ size) ∙ refl in
    let (out, runs, at) = set_entries_lem address entries gates inside in
    (
      out,
      rw sets runs,
      λ v lt.
          let (g, there) = elem_there idt v (omega arith) in
          (
            with_handler address (set_gate v g) (handler_at entries v),
            at v (set_gate v g) (set_there v g (omega arith) there),
            gate_of address v g (handler_at entries v) refl,
          ),
    )
