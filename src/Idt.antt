-- ===== src/Idt.antt =====
-- student-distrib/idt_init.c: the interrupt descriptor table and the handlers of the exceptions, with
-- the descriptor of x86_desc.h.
--
-- The linker gives each handler its address, which is a parameter. The entry stubs of the device
-- interrupts and of the system calls are assembly, and only their addresses are taken.
pub mod Gates
pub mod Exceptions
mod Tests
use linux_simulation.Base.{
  ℕ, zero, suc, ◌+◌, ◌*◌, ◌/◌, ◌%◌, ◌^◌, Option, none, some, List, [], ◌∷◌, ◌++◌, codes, ◌>>=◌,
  ◌==◌, if◌then◌else◌, bit_and, store, get_elem?,
}
use linux_simulation.Console.{Console}
use linux_simulation.Console.Output.{clear}
use linux_simulation.Console.Printf.{Arg, word, printf}
use linux_simulation.Tasks.{Kernel, Outcome}
use linux_simulation.Tasks.Halt.{halt}

-- The exceptions, in the order of their vectors.
pub data Exception : Type 0 where
  de db nmi bp of br ud nm df old_mf ts np ss gp pf spurious mf ac mc xf : Exception

pub data Handler : Type 0 where
  exception : Exception → Handler
  interrupt_pit interrupt_kb interrupt_rtc interrupt_mouse syscall : Handler

-- `idt_desc_t`
pub record Gate : Type 0 where
  pub offset_15_00 : ℕ
  pub seg_selector : ℕ
  pub reserved4 : ℕ
  pub reserved3 : ℕ
  pub reserved2 : ℕ
  pub reserved1 : ℕ
  pub size : ℕ
  pub reserved0 : ℕ
  pub dpl : ℕ
  pub present : ℕ
  pub offset_31_16 : ℕ

abbrev pub num_vec : ℕ
num_vec = 256

abbrev pub syscall_vector : ℕ
syscall_vector = 0x80

-- The body of the loop at `index`.
pub set_gate : ℕ → Gate → Gate
set_gate index g =
    let is_call = index == syscall_vector in
    record g {
      reserved4 = bit_and g.reserved4 0x1F;
      reserved3 = if is_call then 1 else 0;
      reserved2 = 1;
      reserved1 = 1;
      reserved0 = 0;
      seg_selector = 0x10;
      size = 1;
      dpl = if is_call then 3 else 0;
      present = 1;
    }

-- The loop over the table, from `index` on.
pub set_gates : ℕ → List Gate → ℕ → Option (List Gate)
set_gates zero idt index = some idt
set_gates (suc left) idt index = do
  g ← get_elem? idt index
  idt' ← store idt index (set_gate index g)
  set_gates left idt' (index + 1)

-- `SET_IDT_ENTRY` of an address
abbrev pub with_offset : Gate → ℕ → Gate
with_offset g address = record g {
  offset_31_16 = address / 2 ^ 16 % 2 ^ 16;
  offset_15_00 = address % 2 ^ 16;
}

-- The entries that are set, in order.
abbrev pub entries : List (ℕ × Handler)
entries =
    (0, exception de)
    ∷ (1, exception db)
    ∷ (2, exception nmi)
    ∷ (3, exception bp)
    ∷ (4, exception of)
    ∷ (5, exception br)
    ∷ (6, exception ud)
    ∷ (7, exception nm)
    ∷ (8, exception df)
    ∷ (9, exception old_mf)
    ∷ (10, exception ts)
    ∷ (11, exception np)
    ∷ (12, exception ss)
    ∷ (13, exception gp)
    ∷ (14, exception pf)
    ∷ (15, exception spurious)
    ∷ (16, exception mf)
    ∷ (17, exception ac)
    ∷ (18, exception mc)
    ∷ (19, exception xf)
    ∷ (0x20, interrupt_pit)
    ∷ (0x21, interrupt_kb)
    ∷ (0x28, interrupt_rtc)
    ∷ (0x2C, interrupt_mouse)
    ∷ (0x80, syscall)
    ∷ []

pub set_entries : (Handler → ℕ) → List (ℕ × Handler) → List Gate → Option (List Gate)
set_entries address [] idt = some idt
set_entries address ((vector, handler) ∷ more) idt = do
  g ← get_elem? idt vector
  idt' ← store idt vector (with_offset g (address handler))
  set_entries address more idt'

-- `_idt_set_all`
pub idt_set_all : (Handler → ℕ) → List Gate → Option (List Gate)
idt_set_all address idt = do gates ← set_gates num_vec idt 0; set_entries address entries gates

-- The text that a handler prints.
abbrev pub message : Exception → List ℕ
message de = codes "Divide-by-zero."
message db = codes "Debug."
message nmi = codes "Non-maskable Interrupt."
message bp = codes "Breakpoint."
message of = codes "Overflow."
message br = codes "Bound Range Exceeded."
message ud = codes "Invalid Opcode."
message nm = codes "Device Not Available."
message df = codes "Double Fault."
message old_mf = codes "Coprocessor Segment Overrun."
message ts = codes "Invalid TSS."
message np = codes "Segment Not Present."
message ss = codes "Stack Segment Fault."
message gp = codes "General Protection Fault."
message pf = codes "Page Fault." ++ 0x0A ∷ []
message spurious = codes "Spurious Interrupt."
message mf = codes "x87 Floating-Point Exception."
message ac = codes "Alignment Check."
message mc = codes "Machine Check."
message xf = codes "SIMD Floating-Point Exception."

-- What the handler of a page fault prints besides, with the address in CR2.
pub print_fault : Exception → Console → ℕ → Option Console
print_fault pf c fault_addr =
    printf c (codes "faulting at addr 0x%#x" ++ 0x0A ∷ []) (word fault_addr ∷ []) >>= λ out.
    some out.0
print_fault e c fault_addr = some c

-- `_idt_handle_exception_...`: each one clears the screen, prints and calls `halt(255)`.
pub handle_exception : Exception → ℕ → Console → Kernel → Option (Console × Kernel × Outcome)
handle_exception e fault_addr c k = do
  printed ← printf (clear c) (message e) []
  c' ← print_fault e printed.0 fault_addr
  halted ← halt k 255
  some (c', halted.0, halted.1)
