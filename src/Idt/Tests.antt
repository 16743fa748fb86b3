-- ===== src/Idt/Tests.antt =====
-- The theorems on student-distrib/idt_init.c, at an empty table and at a task that another one started.
use linux_simulation.Base.{ℕ, ◌<◌, ◌≡◌, refl, some, List, [], ◌∷◌, replicate, get_elem?, arith}
use linux_simulation.Console.{Console}
use linux_simulation.Console.Bounds.{IsConsole}
use linux_simulation.Examples.{screen, screen-IsConsole}
use linux_simulation.Idt.{
  pf, Handler, exception, interrupt_pit, interrupt_kb, interrupt_rtc, interrupt_mouse, syscall,
  Gate, idt_set_all, handle_exception,
}
use linux_simulation.Idt.Exceptions.{handle_exception-resumes}
use linux_simulation.Idt.Gates.{IsGate, idt_set_all-IsGate}
use linux_simulation.Process.{Pcb}
use linux_simulation.Tasks.{Kernel, resumes}
use linux_simulation.Tasks.Examples.{with_child}
use linux_simulation.Tasks.Stack.{Represents}

abbrev empty_gate : Gate
empty_gate = record {
  offset_15_00 = 0;
  seg_selector = 0;
  reserved4 = 0;
  reserved3 = 0;
  reserved2 = 0;
  reserved1 = 0;
  size = 0;
  reserved0 = 0;
  dpl = 0;
  present = 0;
  offset_31_16 = 0;
}

abbrev handler_address : Handler → ℕ
handler_address (exception e) = 0x410000
handler_address interrupt_pit = 0x420000
handler_address interrupt_kb = 0x420100
handler_address interrupt_rtc = 0x420200
handler_address interrupt_mouse = 0x420300
handler_address syscall = 0x420400

idt_set_all-IsGate_example :
    (out : List Gate) × (idt_set_all handler_address (replicate 256 empty_gate) ≡ some out)
    × ((v : ℕ) → v < 256 → (g : Gate) × (get_elem? out v ≡ some g) × IsGate handler_address v g)
idt_set_all-IsGate_example = idt_set_all-IsGate handler_address (replicate 256 empty_gate) refl

handle_exception-resumes_example :
    (c' : Console) × (k' : Kernel) × (pcb : Pcb) × (get_elem? with_child.0.pcbs with_child.1
      ≡ some pcb)
    × (handle_exception pf 0xB8000 screen with_child.0
        ≡ some (c', k', resumes pcb.parent_esp pcb.parent_ebp 256))
    × IsConsole c'
    × Represents 30 k' (0 ∷ [])
handle_exception-resumes_example =
    handle_exception-resumes pf 0xB8000 30 screen with_child.0 with_child.1 0 [] (omega arith)
      screen-IsConsole with_child.4
