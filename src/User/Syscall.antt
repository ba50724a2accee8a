-- ===== src/User/Syscall.antt =====
-- kernel/syscall.c: what a program's `syscall` instruction reaches, and the registers that enable it.
-- What kputchar is given is a list, the first character first.
use gravityos.Base.{
  ℕ, zero, suc, ◌+◌, ◌*◌, ◌-◌, ◌/◌, ◌%◌, ◌^◌, ◌≡◌, arith, Bool, false, not, ◌&&◌, ◌⊎◌, List, [],
  ◌∷◌, ◌++◌, ◌==◌, if◌then◌else◌, ap, sym, ◌∙◌, append_assoc, append-nil,
}
use Prim.Native.Nat.{bit_or}
use gravityos.Strings.{Bytes}
use gravityos.Process.{Scheduler, Memory}
use gravityos.Process.Lifetime.{process_exit, process_get_current_pid}
use gravityos.Strings.Listed.{bytes_at}

-- `((uint64_t)high << 32) | low`, and its two halves.
pub rdmsr : ℕ → ℕ → ℕ
rdmsr low high = high % 2 ^ 32 * 2 ^ 32 + low % 2 ^ 32

pub wrmsr : ℕ → ℕ → ℕ × ℕ × ℕ
wrmsr msr value = (msr, value % 2 ^ 32, value / 2 ^ 32 % 2 ^ 32)

-- The writes of syscall_init, where `low` and `high` are what EFER holds, and `syscall_entry` is the
-- entry's address.
pub syscall_init : ℕ → ℕ → ℕ → List (ℕ × ℕ × ℕ)
syscall_init low high syscall_entry =
    wrmsr 0xC0000080 (bit_or (rdmsr low high) 1)
    ∷ wrmsr 0xC0000081 (bit_or (0x08 * 2 ^ 32) (0x10 * 2 ^ 48))
    ∷ wrmsr 0xC0000082 syscall_entry
    ∷ wrmsr 0xC0000084 0x700
    ∷ []

module _ (m : Memory) where
  pub record Machine : Type 0 where
    pub scheduler : Scheduler
    pub allocators : m.State
    pub memory : Bytes
    pub console : List ℕ

  -- The loop of SYS_WRITE from character `i` on, with `n` rounds left.
  pub put_chars : ℕ → ℕ → ℕ → Machine → Machine
  put_chars buf zero i s = s
  put_chars buf (suc n) i s =
      put_chars buf n (i + 1) (record s { console = s.console ++ (s.memory (buf + i) ∷ []) })

  -- SYS_WRITE to a descriptor other than 1 and 2 fails with -1.
  pub sys_write : ℕ → ℕ → ℕ → Machine → ℕ × Machine
  sys_write arg1 arg2 arg3 s =
      let fd = arg1 % 2 ^ 32 in
      if not (fd == 1) && not (fd == 2) then (2 ^ 64 - 1, s) else (arg3, put_chars arg2 arg3 0 s)

  -- The Boolean says that the process has ended itself, so that the call does not come back.
  pub sys_exit : Machine → Bool × Machine
  sys_exit s =
      let (ended, scheduler, allocators) =
        process_exit m s.scheduler (process_get_current_pid s.scheduler) s.allocators in
      (ended, record s { scheduler = scheduler; allocators = allocators })

  pub syscall_handler : ℕ → ℕ → ℕ → ℕ → Machine → ℕ × Machine
  syscall_handler sys_num arg1 arg2 arg3 s =
      if sys_num == 1
      then sys_write arg1 arg2 arg3 s
      else if sys_num == 60
      then (0, (sys_exit s).1)
      else if sys_num == 12
      then (arg1, s)
      else (2 ^ 64 - 1, s)

  put_chars_lem :
      (buf n i : ℕ) (s : Machine)
      → put_chars buf n i s ≡ record s { console = s.console ++ bytes_at s.memory (buf + i) n }
  unfolding put_chars
  put_chars_lem buf zero i s = ap (λ c. record s { console = c }) (sym (append-nil s.console))
  put_chars_lem buf (suc n) i s =
      let next : buf + (i + 1) ≡ buf + i + 1 = omega arith in
      put_chars_lem buf n (i + 1) (record s { console = s.console ++ (s.memory (buf + i) ∷ []) })
      ∙ ap (λ c. record s { console = c })
          (append_assoc s.console (s.memory (buf + i) ∷ []) (bytes_at s.memory (buf + (i + 1)) n)
            ∙ ap (λ p. s.console ++ (s.memory (buf + i) ∷ bytes_at s.memory p n)) next)

  -- SYS_WRITE to the descriptor 1 or 2, in its low 32 bits, prints the bytes of the buffer in their
  -- order, as many as the count says, changes nothing else, and returns the count.
  pub write_lem :
      (fd buf count : ℕ) (s : Machine)
      → (fd % 2 ^ 32 ≡ 1) ⊎ (fd % 2 ^ 32 ≡ 2)
      → syscall_handler 1 fd buf count s
        ≡ (count, record s { console = s.console ++ bytes_at s.memory buf count })
  unfolding syscall_handler sys_write
  write_lem fd buf count s ok =
      let allowed : (not (fd % 2 ^ 32 == 1) && not (fd % 2 ^ 32 == 2)) ≡ false = ground arith in
      let zeros : buf + 0 ≡ buf = omega arith in
      rw allowed (
        ap (λ t. (count, t))
          (put_chars_lem buf count 0 s
            ∙ ap (λ p. record s { console = s.console ++ bytes_at s.memory p count }) zeros))
