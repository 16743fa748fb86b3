-- ===== src/Idt/Exceptions.antt =====
-- What an exception does, by the handlers of student-distrib/idt_init.c.
use linux_simulation.Base.{
  ℕ, ◌^◌, ◌<◌, ◌≡◌, refl, ap, ◌∙◌, Bool, true, not, ◌&&◌, some, List, [], ◌∷◌, ◌++◌, codes, ◌==◌,
  ◌>>=◌, length, append_assoc, get_elem?, arith,
}
use linux_simulation.Console.{Console}
use linux_simulation.Console.Bounds.{IsConsole}
use linux_simulation.Console.Items.{Item, bytes, argument, literal, hex_aligned, format_of, args_of}
use linux_simulation.Console.Output.{clear}
use linux_simulation.Console.Printf.{word, printf}
use linux_simulation.Console.Printing.{printf-ShowsAll}
use linux_simulation.Console.Putc.{puts-Stays}
use linux_simulation.Idt.{
  Exception, de, db, nmi, bp, of, br, ud, nm, df, old_mf, ts, np, ss, gp, pf, spurious, mf, ac, mc,
  xf, message, print_fault, handle_exception,
}
use linux_simulation.Process.{Pcb}
use linux_simulation.Tasks.{Kernel, resumes}
use linux_simulation.Tasks.Ending.{halt-pops}
use linux_simulation.Tasks.Stack.{Represents}

-- A text without a percent sign, as a format.
abbrev no_percent : List ℕ → Bool
no_percent [] = true
no_percent (c ∷ cs) = not (c == 0x25) && no_percent cs

literals :
    (cs : List ℕ)
    → no_percent cs ≡ true
    → (items : List Item) × (format_of items ≡ cs) × (args_of items ≡ [])
literals [] h = ([], refl, refl)
literals (c ∷ cs) h =
    let (items, format, args) = literals cs (ground arith) in
    (literal c (ground arith) ∷ items, ap (λ f. c ∷ f) format, args)

-- `printf` of a fitting format writes inside the screen.
printf-Stays :
    (c : Console) (items : List Item)
    → IsConsole c
    → (c' : Console) × (printf c (format_of items) (args_of items)
        ≡ some (c', length (format_of items)))
      × IsConsole c'
printf-Stays c items h =
    let (ds, shows, runs) = printf-ShowsAll items in
    let (c', puts_all, stays) = puts-Stays c ds h in
    (c', runs c ∙ ap (λ o. o >>= λ x. some (x, length (format_of items))) puts_all, stays.console)

message_plain : (e : Exception) → no_percent (message e) ≡ true
message_plain de = refl
message_plain db = refl
message_plain nmi = refl
message_plain bp = refl
message_plain of = refl
message_plain br = refl
message_plain ud = refl
message_plain nm = refl
message_plain df = refl
message_plain old_mf = refl
message_plain ts = refl
message_plain np = refl
message_plain ss = refl
message_plain gp = refl
message_plain pf = refl
message_plain spurious = refl
message_plain mf = refl
message_plain ac = refl
message_plain mc = refl
message_plain xf = refl

behind :
    (front back : List Item)
    → (items : List Item) × (format_of items ≡ format_of front ++ format_of back)
      × (args_of items ≡ args_of front ++ args_of back)
behind [] back = (back, refl, refl)
behind (i ∷ front) back =
    let (items, format, args) = behind front back in
    (
      i ∷ items,
      ap (λ f. bytes i ++ f) format ∙ append_assoc (bytes i) (format_of front) (format_of back),
      ap (λ a. argument i ++ a) args ∙ append_assoc (argument i) (args_of front) (args_of back),
    )

fault_items :
    (fault_addr : ℕ)
    → fault_addr < 2 ^ 32
    → (items : List Item) × (format_of items ≡ codes "faulting at addr 0x%#x" ++ 0x0A ∷ [])
      × (args_of items ≡ word fault_addr ∷ [])
fault_items fault_addr h =
    let (front, format, args) = literals (codes "faulting at addr 0x") refl in
    let (items, format', args') =
      behind front (hex_aligned fault_addr h ∷ literal 0x0A (omega arith) ∷ []) in
    (
      items,
      format'
          ∙ ap (λ f. f ++ format_of (hex_aligned fault_addr h ∷ literal 0x0A (omega arith) ∷ []))
              format,
      args' ∙ ap (λ a. a ++ word fault_addr ∷ []) args,
    )

print_fault-IsConsole :
    (e : Exception) (c : Console) (fault_addr : ℕ)
    → IsConsole c
    → fault_addr < 2 ^ 32
    → (c' : Console) × (print_fault e c fault_addr ≡ some c') × IsConsole c'
unfolding print_fault
print_fault-IsConsole pf c fault_addr h lt =
    let (items, format, args) = fault_items fault_addr lt in
    let (c', runs, h') = printf-Stays c items h in
    (c', rw (← format) (rw (← args) (rw runs refl)), h')
print_fault-IsConsole de c fault_addr h lt = (c, refl, h)
print_fault-IsConsole db c fault_addr h lt = (c, refl, h)
print_fault-IsConsole nmi c fault_addr h lt = (c, refl, h)
print_fault-IsConsole bp c fault_addr h lt = (c, refl, h)
print_fault-IsConsole of c fault_addr h lt = (c, refl, h)
print_fault-IsConsole br c fault_addr h lt = (c, refl, h)
print_fault-IsConsole ud c fault_addr h lt = (c, refl, h)
print_fault-IsConsole nm c fault_addr h lt = (c, refl, h)
print_fault-IsConsole df c fault_addr h lt = (c, refl, h)
print_fault-IsConsole old_mf c fault_addr h lt = (c, refl, h)
print_fault-IsConsole ts c fault_addr h lt = (c, refl, h)
print_fault-IsConsole np c fault_addr h lt = (c, refl, h)
print_fault-IsConsole ss c fault_addr h lt = (c, refl, h)
print_fault-IsConsole gp c fault_addr h lt = (c, refl, h)
print_fault-IsConsole spurious c fault_addr h lt = (c, refl, h)
print_fault-IsConsole mf c fault_addr h lt = (c, refl, h)
print_fault-IsConsole ac c fault_addr h lt = (c, refl, h)
print_fault-IsConsole mc c fault_addr h lt = (c, refl, h)
print_fault-IsConsole xf c fault_addr h lt = (c, refl, h)

clear-IsConsole : (c : Console) → IsConsole c → IsConsole (clear c)
unfolding clear
clear-IsConsole c h = record {
  column = h.column;
  row = h.row;
  tracker_size = h.tracker_size;
  buffer_size = h.buffer_size;
}

-- An exception in a task that another one started: its handler returns to the parent, whose `execute`
-- returns 256, with the console in order and the task off the stack.
pub handle_exception-resumes :
    (e : Exception) (fault_addr room : ℕ) (c : Console) (k : Kernel) (i j : ℕ) (s : List ℕ)
    → fault_addr < 2 ^ 32
    → IsConsole c
    → Represents room k (i ∷ j ∷ s)
    → (c' : Console) × (k' : Kernel) × (pcb : Pcb) × (get_elem? k.pcbs i ≡ some pcb)
      × (handle_exception e fault_addr c k
          ≡ some (c', k', resumes pcb.parent_esp pcb.parent_ebp 256))
      × IsConsole c'
      × Represents room k' (j ∷ s)
unfolding handle_exception
handle_exception-resumes e fault_addr room c k i j s lt h r =
    let (items, format, args) = literals (message e) (message_plain e) in
    let (c1, prints, h1) = printf-Stays (clear c) items (clear-IsConsole c h) in
    let prints' : printf (clear c) (message e) [] ≡ some (c1, length (format_of items)) =
      rw (← format) (rw (← args) prints) in
    let (c2, faults, h2) = print_fault-IsConsole e c1 fault_addr h1 lt in
    let (k', pcb, block, halts, ended) = halt-pops room k i j s 255 r in
    (c2, k', pcb, block, rw prints' (rw faults (rw halts refl)), h2, ended)
