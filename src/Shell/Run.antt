-- ===== src/Shell/Run.antt =====
-- shell/shell.c: run_elf_process, which loads a program from the disk and enters it, or ends its process.
use gravityos.Base.{ℕ, zero, suc, ◌+◌, ◌-◌, List, [], ◌∷◌, Option, none, some, update}
use gravityos.Base.Int.{ℤ, pos, negsuc}
use gravityos.Strings.{Bytes}
use gravityos.Fat32.{Fs, Disk}
use gravityos.Fat32.Files.{fat32_file_size, fat32_read_file}
use gravityos.Process.{Memory}
use gravityos.Process.Lifetime.{process_exit, process_get_current_pid}
use gravityos.User.{Space, Frame, user_stack_virt, user_stack_size, usermode_enter}
use gravityos.User.Elf.{elf_load}

-- A list of bytes stored from `p` on.
pub store : Bytes → ℕ → List ℕ → Bytes
store m p [] = m
store m p (b ∷ l) = store (update m p b) (p + 1) l

module _ (m : Memory) (fuel : ℕ) (fs : Fs) (root : ℕ) where
  pub record Runner : Type 0 where
    pub disk : Disk
    pub allocators : m.State
    pub space : Space
    pub memory : Bytes

  -- `process_exit(process_get_current_pid())`: the program is not entered.
  pub give_up : Runner → Option Frame × Runner
  give_up s =
      let (_, scheduler, allocators) =
        process_exit m s.space.scheduler (process_get_current_pid s.space.scheduler) s.allocators in
      (none, record s { allocators = allocators; space = record s.space { scheduler = scheduler } })

  -- The file is in the buffer: it is loaded, and the buffer given back.
  pub load_buffer : ℕ → Runner → Option Frame × Runner
  load_buffer buf s =
      let (entry, space) = elf_load s.memory root buf s.space in
      let s' = record s { space = space; allocators = m.kfree buf s.allocators } in
      elim entry [
        | none ↦ give_up s'
        | some e ↦ (some (usermode_enter e (user_stack_virt + user_stack_size - 16)), s')
      ]

  -- What follows fat32_read_file, by its result; none where the fuel for the disk runs out.
  pub after_read : ℕ → Option (ℤ × List ℕ) → Runner → Option (Option Frame × Runner)
  after_read buf none s = none
  after_read buf (some (negsuc e, bytes)) s = some (
      give_up
        (record s { allocators = m.kfree buf s.allocators; memory = store s.memory buf bytes }))
  after_read buf (some (pos read, bytes)) s =
      some (load_buffer buf (record s { memory = store s.memory buf bytes }))

  pub after_alloc : List ℕ → ℕ → Option ℕ → Runner → Option (Option Frame × Runner)
  after_alloc name size none s = some (give_up s)
  after_alloc name size (some buf) s =
      let (r, d) = fat32_read_file fuel fs name size s.disk in
      after_read buf r (record s { disk = d })

  -- What follows fat32_file_size: a file that is missing or empty is not run.
  pub after_size : List ℕ → Option ℤ → Runner → Option (Option Frame × Runner)
  after_size name none s = none
  after_size name (some (negsuc e)) s = some (give_up s)
  after_size name (some (pos zero)) s = some (give_up s)
  after_size name (some (pos (suc n))) s =
      let (buf, allocators) = m.kmalloc (suc n) s.allocators in
      after_alloc name (suc n) buf (record s { allocators = allocators })

  pub run_elf_process : List ℕ → Runner → Option (Option Frame × Runner)
  run_elf_process name s =
      let (size, d) = fat32_file_size fuel fs name s.disk in
      after_size name size (record s { disk = d })
