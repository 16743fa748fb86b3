-- ===== src/Tasks/Examples.antt =====
-- A kernel with a task and a program of 30 bytes on its image, for the tests.
use linux_simulation.Base.{
  ℕ, ◌≤◌, ◌<◌, ◌≡◌, refl, some, List, [], ◌∷◌, ◌==◌, leb, if◌then◌else◌, get_or, replicate, set,
  length, minus_one, arith, store,
}
use linux_simulation.Base.Bits.{all_below, all_below_sound}
use linux_simulation.CString.{
  bytes_of, strlen, strlen_from, strcpy, strcpy_from, strncmp, strncmp_from,
}
use linux_simulation.CString.Length.{IsString}
use linux_simulation.Examples.{image_memory, image, name_a}
use linux_simulation.Filesys.{
  Filesys, Memory, read_dentry_by_name, find_dentry, dentry_matches, copy_dentry, store32, fetch32,
  load8, load32, read_data, read_loop, get_dentry_size,
}
use linux_simulation.Filesys.Data.{IsFile}
use linux_simulation.Paging.UserPages.{task_entry}
use linux_simulation.Process.{Pcb, empty_pcb, pcb_init}
use linux_simulation.Process.Command.{parse_line, parse_command, parse_args}
use linux_simulation.Tasks.{Kernel, enters, stack_top, entry_point}
use linux_simulation.Tasks.Execute.{
  Program, same_bytes, check_magic, check_read, check_entry, check_found, check_file, execute,
}
use linux_simulation.Tasks.Slots.{IsFirstFree}
use linux_simulation.Tasks.Steps.{IsBooted}
use linux_simulation.Tasks.Success.{execute-enters}
use linux_simulation.Tasks.Stack.{busy, HasFiles, Represents}
use linux_simulation.Tasks.Starting.{new_files, new_files-IsProcess}

abbrev program_memory : Memory
program_memory a =
    if a == 4096
    then 30
    else if a == 8192
    then 0x7f
    else if a == 8193
    then 0x45
    else if a == 8194
    then 0x4c
    else if a == 8195
    then 0x46
    else if a == 8216
    then 0x18
    else if leb 8197 a
    then 0
    else image_memory a

abbrev pub program_image : Filesys
program_image = record image { memory = program_memory }

program_image-IsFile : IsFile program_image 0
unfolding load8 load32
program_image-IsFile = record {
  inode_ok = omega arith;
  blocks_ok = λ k le. let e : k ≡ 0 = omega arith in rw e (omega arith);
}

program_image-HasFiles : HasFiles program_image 30
unfolding load8 load32
program_image-HasFiles = record {
  inodes = refl;
  file = λ inode lt. let i_0 : inode ≡ 0 = omega arith in rw i_0 program_image-IsFile;
  fits = λ inode lt. let i_0 : inode ≡ 0 = omega arith in rw i_0 (omega arith);
}

abbrev pub program_a : Program
program_a = record { inode = 0; size = 30; entry = 0x18 }

abbrev pub command_a : List ℕ
command_a = 0x61 ∷ replicate 19 0

pub line_a_parses : parse_line (bytes_of name_a) ≡ some (command_a, replicate 30 0)
unfolding parse_line parse_command parse_args strcpy strcpy_from strlen strlen_from store
line_a_parses = refl

pub file_a_checks :
    check_file program_image (bytes_of command_a)
    ≡ some (record (program_image) { file_pos_keeper = 1 }, some program_a)
unfolding check_file check_found check_entry check_read check_magic same_bytes entry_point
    read_dentry_by_name strlen strlen_from find_dentry dentry_matches load8 load32 copy_dentry
    strcpy strcpy_from store store32 strncmp strncmp_from fetch32 read_data read_loop
    get_dentry_size
file_a_checks = refl

-- The kernel before its first task, and with the first one.
abbrev pub pages : List ℕ
pages = replicate 1024 2

abbrev pub boot_kernel : Kernel
boot_kernel = record {
  task_bitmap = replicate 6 0;
  curr_task_pos = 0;
  runn_task_num = 0;
  pcbs = pcb_init;
  images = replicate 6 (replicate 30 0);
  paging = record { page_dir = pages; page_tab = pages; page_dir_addr = 0; page_tab_addr = 4096 };
  ss0 = 0;
  esp0 = 0;
  fs = program_image;
}

pub image_room : (i : ℕ) → i < 6 → 30 ≤ length (get_or boot_kernel.images i [])
image_room i lt =
    let t =
      all_below_sound 6 (λ i. leb 30 (length (get_or boot_kernel.images i []))) i
        (unfold all_below in refl) lt in
    ground arith

pub boot_kernel-IsBooted : IsBooted 30 boot_kernel
boot_kernel-IsBooted = record {
  bitmap = refl;
  none_running = refl;
  blocks = refl;
  dir_size = refl;
  image_count = refl;
  rooms = image_room;
  files = program_image-HasFiles;
}

abbrev first_pcb : Pcb
first_pcb = record (empty_pcb) {
  parent_process_id = minus_one;
  running_state = 1;
  file_array = new_files;
  open_file_num = 2;
}

abbrev pub kernel : Kernel
kernel = record (boot_kernel) {
  task_bitmap = 1 ∷ replicate 5 0;
  runn_task_num = 1;
  pcbs = first_pcb ∷ replicate 5 empty_pcb;
  paging = record (boot_kernel.paging) { page_dir = set pages 32 (task_entry 0) };
  esp0 = stack_top 0;
}

pub kernel-Represents : Represents 30 kernel (0 ∷ [])
kernel-Represents = record {
  bitmap_size = refl;
  bits = λ i lt.
      let t =
        all_below_sound 6 (λ i. get_or kernel.task_bitmap i 0 == busy (0 ∷ []) i) i
          (unfold all_below in refl) lt in
      ground arith;
  counted = refl;
  running = refl;
  blocks = refl;
  chain = (
    refl,
    record {
      pcb = first_pcb;
      block = refl;
      id = refl;
      child_of = refl;
      running = refl;
      files = λ fs. new_files-IsProcess (record { pcb = first_pcb; fs = fs }) refl refl;
    },
  );
  current = (refl, refl, refl);
  dir_size = refl;
  image_count = refl;
  rooms = image_room;
  files = program_image-HasFiles;
}

pub names_size : (i : ℕ) → i < 6 → length (get_or kernel.pcbs i empty_pcb).file_names ≡ 256
names_size i lt =
    let t =
      all_below_sound 6 (λ i. length (get_or kernel.pcbs i empty_pcb).file_names == 256) i
        (unfold all_below in refl) lt in
    ground arith

pub no_args-IsString : IsString (bytes_of (replicate 30 0)) 0
no_args-IsString = record {
  before = omega arith;
  inside = λ j lo hi. absurd (omega arith);
  at_end = refl;
}

-- `execute` runs on the kernel stack of slot 0.
abbrev pub stack_0 : ℕ
stack_0 = 0x7FFF00

-- The kernel with the program started, as its theorem gives it.
abbrev pub with_child :
    (k' : Kernel) × (slot : ℕ) × (execute kernel (some (bytes_of name_a)) stack_0 stack_0
      ≡ some (k', enters 0x18))
    × IsFirstFree (0 ∷ []) slot
    × Represents 30 k' (slot ∷ 0 ∷ [])
with_child =
    execute-enters 30 kernel (0 ∷ []) (bytes_of name_a) command_a (replicate 30 0)
      (record (program_image) { file_pos_keeper = 1 }) program_a stack_0 stack_0 0 kernel-Represents
      (omega arith) refl line_a_parses file_a_checks names_size no_args-IsString (omega arith)
