-- ===== src/Tasks/Success.antt =====
-- `execute` of student-distrib/syscall.c of a program that it can start.
use linux_simulation.Base.{
  length-drop, ℕ, zero, suc, ◌+◌, ◌-◌, ◌*◌, ◌<◌, ◌≡◌, ◌≢◌, inl, inr, refl, sym, ap, ◌∙◌, Bool, true,
  false, ◌&&◌, not, some, List, [], ◌∷◌, ◌++◌, codes, ◌==◌, leb, get_elem?, get_or, take, drop,
  replicate, store_lem, length, length-append, length-take, get_elem?-eq-get_or, arith,
}
use linux_simulation.CString.{Reader, bytes_of}
use linux_simulation.CString.Copy.{strcpy-CopiedFrom}
use linux_simulation.CString.Length.{IsString}
use linux_simulation.Filesys.{Filesys}
use linux_simulation.Process.{Pcb, empty_pcb}
use linux_simulation.Process.Command.{parse_line}
use linux_simulation.Process.Files.{write_name}
use linux_simulation.Tasks.{Kernel, enters, pcb_addr}
use linux_simulation.Tasks.Execute.{Program, check_file, set_files, start, execute_program, execute}
use linux_simulation.Tasks.Program.{IsProgram, check_file-IsChecked, read_data-whole}
use linux_simulation.Tasks.Pushing.{loaded, started}
use linux_simulation.Tasks.Refinement.{execute-Pushes, load_lem, at_pos-Represents}
use linux_simulation.Tasks.Slots.{IsFirstFree, find_slot-IsFirstFree}
use linux_simulation.Tasks.Stack.{IsChain, Represents, OnStack}
use linux_simulation.Tasks.Starting.{new_files, set_parent-IsIdentified}

abbrev all_nonzero : List ℕ → Bool
all_nonzero [] = true
all_nonzero (c ∷ cs) = not (c == 0) && all_nonzero cs

text_inside :
    (cs : List ℕ) (j : ℕ)
    → all_nonzero cs ≡ true
    → j < length cs
    → (c : ℕ) × (get_elem? (cs ++ 0 ∷ []) j ≡ some c) × (c ≢ 0)
text_inside [] j h lt = elim lt [ ]
text_inside (c ∷ cs) zero h lt = (c, refl, ground arith)
text_inside (c ∷ cs) (suc j) h lt = text_inside cs j (ground arith) (omega arith)

text_end : (cs : List ℕ) → get_elem? (cs ++ 0 ∷ []) (length cs) ≡ some 0
text_end [] = refl
text_end (c ∷ cs) = text_end cs

-- A text without zeros, and a zero behind it, is a string.
text-IsString :
    (cs : List ℕ) → all_nonzero cs ≡ true → IsString (bytes_of (cs ++ 0 ∷ [])) (length cs)
text-IsString cs h = record {
  before = omega arith;
  inside = λ j lo hi. text_inside cs j h hi;
  at_end = text_end cs;
}

-- A short text fits into the row of a descriptor.
write_name_lem :
    (pcb : Pcb) (fd : ℕ) (cs : List ℕ)
    → all_nonzero cs ≡ true
    → length cs < 32
    → fd < 8
    → length pcb.file_names ≡ 256
    → (names : List ℕ) × (write_name pcb fd (bytes_of (cs ++ 0 ∷ [])) ≡ some names)
      × (length names ≡ 256)
unfolding write_name
write_name_lem pcb fd cs h short lt size =
    let left = length-drop (32 * fd) pcb.file_names in
    let (row, copies, c) =
      strcpy-CopiedFrom (drop (32 * fd) pcb.file_names) (bytes_of (cs ++ 0 ∷ [])) (length cs)
        (omega arith) (text-IsString cs h) (omega arith) in
    let same = c.same_length in
    let front = length-take (32 * fd) pcb.file_names in
    (
      take (32 * fd) pcb.file_names ++ row,
      rw copies refl,
      length-append (take (32 * fd) pcb.file_names) row ∙ omega arith,
    )

set_files_lem :
    (known : Pcb) (pos n : ℕ) (args : List ℕ)
    → length known.file_names ≡ 256
    → IsString (bytes_of args) n
    → n < 100
    → (pcb : Pcb) × (set_files known pos args ≡ some pcb)
unfolding set_files
set_files_lem known pos n args size is_string short =
    let (a, copies, _) =
      strcpy-CopiedFrom (replicate 100 0) (bytes_of args) n (omega arith) is_string (omega arith) in
    let (names, stdin, size1) =
      write_name_lem known 0 (codes "stdin") refl (omega arith) (omega arith) size in
    let (names', stdout, size2) =
      write_name_lem (record known { file_names = names }) 1 (codes "stdout") refl (omega arith)
        (omega arith) size1 in
    (
      record known {
        running_state = 1;
        esp = pcb_addr pos + 0x2000 - 4;
        ebp = pcb_addr pos + 0x2000 - 4;
        file_array = new_files;
        file_names = names';
        open_file_num = 2;
        arg_buffer = a;
      },
      rw copies (rw stdin (rw stdout refl)),
    )

start_lem :
    (k : Kernel) (s : List ℕ) (i : ℕ) (image : List ℕ) (program : Program) (args : List ℕ)
    (esp ebp n : ℕ)
    → IsFirstFree s i
    → OnStack s esp
    → IsChain k.pcbs s
    → k.runn_task_num ≡ length s
    → length k.pcbs ≡ 6
    → length (get_or k.pcbs i empty_pcb).file_names ≡ 256
    → IsString (bytes_of args) n
    → n < 100
    → (k' : Kernel) × (start (loaded k i image) program args esp ebp
        ≡ some (k', enters program.entry))
unfolding start
start_lem k s i image program args esp ebp n first on_stack chain running blocks names is_string
      short =
    let lt = first.in_range in
    let old = get_or k.pcbs i empty_pcb in
    let there = get_elem?-eq-get_or k.pcbs i empty_pcb (omega arith) in
    let (known, identifies, d) =
      set_parent-IsIdentified (loaded k i image) s old esp ebp chain running blocks first
        on_stack in
    let (pcb, completes) =
      set_files_lem known i n args (ap length d.names_kept ∙ names) is_string short in
    (
      started k i image pcb,
      rw there (rw identifies (rw completes (rw (store_lem k.pcbs i pcb (omega arith)) refl))),
    )

execute_program_lem :
    (room : ℕ) (k : Kernel) (s : List ℕ) (program : Program) (args : List ℕ) (esp ebp n : ℕ)
    → Represents room k s
    → k.runn_task_num < 6
    → OnStack s esp
    → IsProgram k.fs program
    → ((i : ℕ) → i < 6 → length (get_or k.pcbs i empty_pcb).file_names ≡ 256)
    → IsString (bytes_of args) n
    → n < 100
    → (k' : Kernel) × (execute_program k (some program) args esp ebp
        ≡ some (k', enters program.entry))
unfolding execute_program
execute_program_lem room k s program args esp ebp n h few on_stack p names is_string short =
    let (i, finds, first) =
      find_slot-IsFirstFree k.task_bitmap s k.runn_task_num h.bitmap_size h.bits
        (h.counted ∙ sym h.running) few in
    let lt = first.in_range in
    let count = h.image_count in
    let image = get_or k.images i [] in
    let there = get_elem?-eq-get_or k.images i [] (omega arith) in
    let (whole, reads, f) = read_data-whole k.fs room program image h.files p (h.rooms i lt) in
    let loads =
      load_lem k i image whole program args esp ebp lt h.bitmap_size h.image_count h.dir_size there
        reads in
    let (k', starts) =
      start_lem k s i whole program args esp ebp n first on_stack h.chain h.running h.blocks
        (names i lt) is_string short in
    (k', rw finds (loads ∙ starts))

-- On the kernel stack of the task on top, with fewer than six tasks, `execute` of a line whose command
-- names a program that the check accepts, with arguments of less than 100 bytes, starts the program:
-- the processor goes on at its entry point, and its task, in the first free slot, is on top of the
-- stack.
pub execute-enters :
    (room : ℕ) (k : Kernel) (s : List ℕ) (command : Reader) (first_cmd args : List ℕ) (fs : Filesys)
    (program : Program) (esp ebp n : ℕ)
    → Represents room k s
    → k.runn_task_num < 6
    → OnStack s esp
    → parse_line command ≡ some (first_cmd, args)
    → check_file k.fs (bytes_of first_cmd) ≡ some (fs, some program)
    → ((i : ℕ) → i < 6 → length (get_or k.pcbs i empty_pcb).file_names ≡ 256)
    → IsString (bytes_of args) n
    → n < 100
    → (k' : Kernel) × (slot : ℕ) × (execute k (some command) esp ebp
        ≡ some (k', enters program.entry))
      × IsFirstFree s slot
      × Represents room k' (slot ∷ s)
unfolding execute
execute-enters room k s command first_cmd args fs program esp ebp n h few on_stack parses checks
      names is_string short =
    let c =
      check_file-IsChecked k.fs (bytes_of first_cmd) (fs, some program) h.files.inodes checks in
    let is_program : IsProgram fs program = rw (c.keeps) (c.program program refl) in
    let moved : Represents room (record k { fs = fs }) s =
      rw (c.keeps) (at_pos-Represents room c.pos k s h) in
    let (k', starts) =
      execute_program_lem room (record k { fs = fs }) s program args esp ebp n moved few on_stack
        is_program names is_string short in
    let room_left : leb 6 k.runn_task_num ≡ false = ground arith in
    let runs : execute k (some command) esp ebp ≡ some (k', enters program.entry) =
      rw room_left (rw parses (rw checks starts)) in
    elim (execute-Pushes room k s (some command) esp ebp (k', enters program.entry) h on_stack
      runs) [ inl (failed, same) ↦ cc | inr p ↦ (k', p.slot, runs, p.first, p.stack) ]
