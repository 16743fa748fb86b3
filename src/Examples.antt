-- ===== src/Examples.antt =====
-- Small concrete states that the tests share.
use linux_simulation.Base.{
  ℕ, zero, suc, ◌+◌, ◌*◌, ◌≤◌, ◌<◌, ◌≡◌, refl, true, false, ◌&&◌, ◌||◌, inl, some, List, [], ◌∷◌,
  ◌==◌, ltb, leb, get_or, store, if◌then◌else◌, replicate, set, arith, not, ◌^◌, ap, ◌∙◌,
  get_elem?-set_ne, get_elem?-replicate,
}
use linux_simulation.CString.{
  bytes_of, strncmp, strncmp_from, strlen, strlen_from, strcpy, strcpy_from,
}
use linux_simulation.Process.Opening.{flag_at, node_at}
use linux_simulation.Process.Files.{
  sys_open, open_entry, open_found, allocate, find_fd, place, set_up, table_of, write_name,
}
use linux_simulation.Base.Bits.{all_below, all_below_sound}
use linux_simulation.Process.Closing.{IsProcess}
use linux_simulation.CString.Length.{IsString}
use linux_simulation.Filesys.{
  Filesys, Memory, read_dentry_by_name, find_dentry, dentry_matches, copy_dentry, store32, fetch32,
  load8, load32,
}
use linux_simulation.CString.Compare.{IsByteReader, bytes_of-IsByteReader}
use linux_simulation.Filesys.Data.{IsFile}
use linux_simulation.Filesys.Lookup.{HasNames}
use linux_simulation.Filesys.Ls.{IsDirectory}
use linux_simulation.Console.{Console}
use linux_simulation.Console.Bounds.{IsConsole}
use linux_simulation.Keyboard.{Keyboard}
use linux_simulation.Keyboard.Edit.{HoldsLine}
use linux_simulation.Keyboard.Handler.{IsKeyboard}
use linux_simulation.Process.{
  Process, opened, closed_node, stdin_ops, stdout_ops, file_ops, no_inode, stack_inode, empty_pcb,
}

-- An image with one inode, one data block and two entries: the directory `.` and the file `a` of
-- five bytes.
abbrev pub image_memory : Memory
image_memory a =
    if a == 0
    then 2
    else if a == 4 || a == 8
    then 1
    else if a == 64
    then 0x2E
    else if a == 96
    then 1
    else if a == 128
    then 0x61
    else if a == 160
    then 2
    else if a == 4096
    then 5
    else if leb 8192 a && ltb a 8197
    then 0x41
    else 0

abbrev pub image : Filesys
image = record {
  memory = image_memory;
  fs_bootblk = 0;
  fs_dentries = 64;
  fs_inodes = 4096;
  fs_datablocks = 8192;
  file_pos_keeper = 0;
  fs_dir_read_flag = 0;
}

abbrev pub image_size : ℕ → ℕ
image_size i = if ltb i 2 then 1 else 0

pub image-IsFile : IsFile image 0
unfolding load8 load32
image-IsFile = record {
  inode_ok = omega arith;
  blocks_ok = λ k le. let e : k ≡ 0 = omega arith in rw e (omega arith);
}

-- The bytes of the names, and those behind them.
image_ends : (i : ℕ) → i < 63 → (load8 image_memory (64 + 64 * i + image_size i) == 0) ≡ true
image_ends i lt =
    all_below_sound 63 (λ i. load8 image_memory (64 + 64 * i + image_size i) == 0) i
      (unfold all_below load8 in refl) lt

image_chars : (i : ℕ) → i < 2 → (load8 image_memory (64 + 64 * i + 0) == 0) ≡ false
image_chars i lt =
    let t =
      all_below_sound 2 (λ i. not (load8 image_memory (64 + 64 * i + 0) == 0)) i
        (unfold all_below load8 in refl) lt in
    ground arith

pub image-HasNames : HasNames image image_size
image-HasNames = record {
  fits = λ i lt. ground arith;
  is_string = λ i lt. record {
    before = omega arith;
    inside = λ j lo hi.
        let j_0 : j ≡ 0 = ground arith in
        let two : i < 2 = ground arith in
        (
          load8 image_memory (64 + 64 * i + j),
          refl,
          rw j_0 (let c = image_chars i two in ground arith),
        );
    at_end = ap some (let e = image_ends i lt in ground arith);
  };
}

pub image-IsDirectory : IsDirectory image image_size
image-IsDirectory = record {
  names = image-HasNames;
  types = λ i lt.
      let t =
        all_below_sound 63 (λ i. ltb (load32 image_memory (64 + 64 * i + 32)) (2 ^ 24)) i
          (unfold all_below load8 load32 in refl) lt in
      ground arith;
}

-- A blank console, with the letter a in its line buffer, as the keyboard's.
abbrev pub screen : Console
screen = record {
  screen_x = 1;
  screen_y = 0;
  video_mem = λ a. 0;
  enter_tracker = replicate 25 0;
  keyboard_buffer = set (replicate 128 0) 0 0x61;
  kb_buffer_position = 1;
  enter_flag = 0;
  first_scroll_indicator = 0;
  cursor_low = 1;
  cursor_high = 0;
}

pub screen-IsConsole : IsConsole screen
screen-IsConsole = record {
  column = omega arith;
  row = omega arith;
  tracker_size = refl;
  buffer_size = refl;
}

abbrev pub keys : Keyboard
keys = record {
  console = screen;
  cap_flag = 0;
  shift_flag = 0;
  control_flag = 0;
  alt_flag = 0;
  ter_read_buffer = replicate 128 0;
  ter_read_buf_size = 0;
  ter_read_indicator = 1;
  cross_enter_flag = 0;
}

abbrev pub line_a : List ℕ
line_a = 0x61 ∷ []

pub screen-HoldsLine : HoldsLine screen line_a
screen-HoldsLine = record {
  console = screen-IsConsole;
  normal = refl;
  short = omega arith;
  at_end = refl;
  content = λ j lt. let e : j ≡ 0 = omega arith in rw e refl;
  zeros = λ j lo hi.
      get_elem?-set_ne (replicate 128 0) 0 j 0x61 (omega arith) ∙ get_elem?-replicate 128 0 j hi;
}

pub keys-IsKeyboard : IsKeyboard keys line_a
keys-IsKeyboard = record { holds = screen-HoldsLine; read_room = refl; shift_bit = omega arith }

-- A process with the terminal's two files, on the image.
abbrev pub shell : Process
shell = record {
  pcb = record (empty_pcb) {
    file_array = opened stdin_ops no_inode ∷ opened stdout_ops no_inode ∷ replicate 6 closed_node;
    open_file_num = 2;
    arg_buffer = 0x61 ∷ replicate 99 0;
  };
  fs = image;
}

closed_rest : (n j : ℕ) → get_or (replicate n closed_node) j closed_node ≡ closed_node
closed_rest zero j = refl
closed_rest (suc n) zero = refl
closed_rest (suc n) (suc j) = closed_rest n j

shell_rest : (fd : ℕ) → 2 ≤ fd → node_at shell.pcb.file_array fd ≡ closed_node
shell_rest zero lo = absurd (omega arith)
shell_rest (suc zero) lo = absurd (omega arith)
shell_rest (suc (suc j)) lo = closed_rest 6 j

pub shell-IsProcess : IsProcess shell
shell-IsProcess = record {
  array = record {
    size = refl;
    flag = λ fd lt.
        let t =
          all_below_sound 8 (λ fd. ltb (flag_at shell.pcb.file_array fd) 2) fd
            (unfold all_below in refl) lt in
        ground arith;
  };
  stdin = refl;
  stdout = refl;
  node = λ fd lo hi. inl (shell_rest fd lo);
  count = refl;
}

-- The shell once it has opened the file `a`.
abbrev pub name_a : List ℕ
name_a = 0x61 ∷ 0 ∷ []

pub name_a-IsString : IsString (bytes_of name_a) 1
name_a-IsString = record {
  before = omega arith;
  inside = λ j lo hi. let e : j ≡ 0 = omega arith in (0x61, rw e refl, omega arith);
  at_end = refl;
}

pub name_a-IsByteReader : IsByteReader (bytes_of name_a)
name_a-IsByteReader = bytes_of-IsByteReader name_a refl

-- The image with a file of a whole block, behind which the inode names a block out of range.
abbrev pub long_image : Filesys
long_image = record image {
  memory = λ a.
      if a == 4096 then 0 else if a == 4097 then 16 else if a == 4104 then 9 else image_memory a;
}

abbrev pub reading_shell : Process
reading_shell = record {
  pcb = record (shell.pcb) {
    file_array = set shell.pcb.file_array 2 (opened file_ops stack_inode);
    file_names = set shell.pcb.file_names 64 0x61;
    open_file_num = 3;
  };
  fs = record image { file_pos_keeper = 1 };
}

pub shell_opens : sys_open shell (bytes_of name_a) ≡ some (reading_shell, 2)
unfolding sys_open strncmp strncmp_from open_entry read_dentry_by_name strlen strlen_from
    find_dentry dentry_matches load8 copy_dentry strcpy strcpy_from store store32 open_found
    allocate find_fd fetch32 load32 place set_up table_of write_name
shell_opens = refl
