-- ===== src/Cpu.antt =====
-- cpu/gdt.c, cpu/idt.c, cpu/isr.c and drivers/timer.c: the descriptor tables, the interrupt lines and the
-- ticks. What is written to ports is a list of ports and bytes in their order, and what `inb` gives is an
-- argument. The stubs of cpu/*.asm are their addresses; a handler is its address, 0 for none.
pub mod Deliver
mod Tests
use gravityos.Base.{
  ℕ, zero, suc, ◌+◌, ◌-◌, ◌*◌, ◌/◌, ◌%◌, ◌^◌, Bool, true, false, not, ◌&&◌, List, [], ◌∷◌, ◌++◌,
  ltb, leb, ◌==◌, if◌then◌else◌, update,
}
use Prim.Native.Nat.{bit_and}
use gravityos.Base.Bits.{byte_clear}
use gravityos.Process.{Scheduler, Memory, CpuState, process_schedule}

-- gdt_entry_t.
pub record GdtEntry : Type 0 where
  pub limit_low : ℕ
  pub base_low : ℕ
  pub base_mid : ℕ
  pub access : ℕ
  pub granularity : ℕ
  pub base_high : ℕ

-- gdt_tss_entry_t, and the fields of tss_t that gdt_init sets.
pub record TssEntry : Type 0 where
  pub limit_low : ℕ
  pub base_low : ℕ
  pub base_mid : ℕ
  pub access : ℕ
  pub granularity : ℕ
  pub base_high : ℕ
  pub base_upper : ℕ
  pub reserved : ℕ

pub record Tss : Type 0 where
  pub rsp0 : ℕ
  pub iomap_base : ℕ

pub record Gdt : Type 0 where
  pub gdt : ℕ → GdtEntry
  pub tss_desc : TssEntry
  pub tss : Tss

abbrev pub zero_segment : GdtEntry
zero_segment = record {
  limit_low = 0;
  base_low = 0;
  base_mid = 0;
  access = 0;
  granularity = 0;
  base_high = 0;
}

pub gdt_set_entry : ℕ → ℕ → ℕ → (ℕ → GdtEntry) → ℕ → GdtEntry
gdt_set_entry idx access granularity gdt = update gdt idx (record {
  limit_low = 0xFFFF;
  base_low = 0;
  base_mid = 0;
  access = access;
  granularity = granularity;
  base_high = 0;
})

-- `tss_base` and `kernel_stack` are the addresses of the two static objects; tss_t has 104 bytes.
pub gdt_init : ℕ → ℕ → Gdt
gdt_init tss_base kernel_stack = record {
  gdt = gdt_set_entry 4 0xFA 0xA0 (
      gdt_set_entry 3 0xF2 0xC0
        (gdt_set_entry 2 0x92 0xC0 (gdt_set_entry 1 0x9A 0xA0 (λ _. zero_segment))));
  tss_desc = record {
    limit_low = 103;
    base_low = tss_base % 2 ^ 16;
    base_mid = tss_base / 2 ^ 16 % 256;
    access = 0x89;
    granularity = 0;
    base_high = tss_base / 2 ^ 24 % 256;
    base_upper = tss_base / 2 ^ 32 % 2 ^ 32;
    reserved = 0;
  };
  tss = record { rsp0 = (kernel_stack + 16384) % 2 ^ 64; iomap_base = 104 };
}

pub tss_set_rsp0 : ℕ → Gdt → Gdt
tss_set_rsp0 rsp0 g = record g { tss = record g.tss { rsp0 = rsp0 } }

pub tss_get_rsp0 : Gdt → ℕ
tss_get_rsp0 g = g.tss.rsp0

-- idt_entry_t.
pub record IdtEntry : Type 0 where
  pub offset_low : ℕ
  pub selector : ℕ
  pub ist : ℕ
  pub type_attr : ℕ
  pub offset_mid : ℕ
  pub offset_high : ℕ
  pub reserved : ℕ

abbrev pub zero_gate : IdtEntry
zero_gate = record {
  offset_low = 0;
  selector = 0;
  ist = 0;
  type_attr = 0;
  offset_mid = 0;
  offset_high = 0;
  reserved = 0;
}

abbrev pub idt_gate_interrupt : ℕ
idt_gate_interrupt = 0x8E

pub idt_set_gate : ℕ → ℕ → ℕ → ℕ → (ℕ → IdtEntry) → ℕ → IdtEntry
idt_set_gate num handler selector flags idt = update idt num (record {
  offset_low = handler % 2 ^ 16;
  selector = selector;
  ist = 0;
  type_attr = flags;
  offset_mid = handler / 2 ^ 16 % 2 ^ 16;
  offset_high = handler / 2 ^ 32 % 2 ^ 32;
  reserved = 0;
})

-- The calls of idt_set_gate for the `n` stubs from `i` on, at the vectors from `first + i` on.
pub set_gates : ℕ → (ℕ → ℕ) → ℕ → ℕ → (ℕ → IdtEntry) → ℕ → IdtEntry
set_gates first stubs zero i idt = idt
set_gates first stubs (suc n) i idt =
    set_gates first stubs n (i + 1) (idt_set_gate (first + i) (stubs i) 8 idt_gate_interrupt idt)

-- The table of idt_init, for the stubs isr0 to isr31 and irq0 to irq15.
pub idt_init : (ℕ → ℕ) → (ℕ → ℕ) → ℕ → IdtEntry
idt_init isr irq = set_gates 32 irq 16 0 (set_gates 0 isr 32 0 (λ _. zero_gate))

-- The writes of pic_remap.
pub pic_remap : List (ℕ × ℕ)
pic_remap =
    (0x20, 0x11)
    ∷ (0xA0, 0x11)
    ∷ (0x21, 0x20)
    ∷ (0xA1, 0x28)
    ∷ (0x21, 0x04)
    ∷ (0xA1, 0x02)
    ∷ (0x21, 0x01)
    ∷ (0xA1, 0x01)
    ∷ (0x21, 0xFF)
    ∷ (0xA1, 0xFF)
    ∷ []

pub pic_send_eoi : ℕ → List (ℕ × ℕ)
pic_send_eoi irq = (if leb 8 irq then (0xA0, 0x20) ∷ [] else []) ++ ((0x20, 0x20) ∷ [])

-- The table of handlers and the writes to the two controllers. `master` and `slave` are the masks that
-- the reads of their data ports give.
pub irq_install_handler : ℕ → ℕ → ℕ → ℕ → (ℕ → ℕ) → (ℕ → ℕ) × List (ℕ × ℕ)
irq_install_handler irq handler master slave handlers =
    if ltb 15 irq
    then (handlers, [])
    else if ltb irq 8
    then (update handlers irq handler, (0x21, byte_clear master irq) ∷ [])
    else (
      update handlers irq handler,
      (0x21, byte_clear master 2) ∷ (0xA1, byte_clear slave (irq - 8)) ∷ [],
    )

pub irq_uninstall_handler : ℕ → (ℕ → ℕ) → ℕ → ℕ
irq_uninstall_handler irq handlers = if ltb 15 irq then handlers else update handlers irq 0

-- The handler that is called, 0 for none, and the writes behind its call.
pub irq_handler : ℕ → (ℕ → ℕ) → ℕ × List (ℕ × ℕ)
irq_handler int_no handlers =
    let irq_num = (int_no + 2 ^ 64 - 32) % 2 ^ 64 in
    (if ltb irq_num 16 then handlers irq_num else 0, pic_send_eoi (irq_num % 256))

pub record Timer : Type 0 where
  pub timer_ticks : ℕ
  pub timer_frequency : ℕ

pub timer_irq_handler :
    (m : Memory) → Timer → Scheduler → CpuState → m.State → Timer × CpuState × Scheduler × m.State
timer_irq_handler m t s context mem =
    let (context', s', mem') = process_schedule m s context mem in
    (record t { timer_ticks = (t.timer_ticks + 1) % 2 ^ 64 }, context', s', mem')

-- The frequency is not 0. The writes set the divisor of the timer; the handler is installed behind them.
pub timer_init : ℕ → Timer → Timer × List (ℕ × ℕ)
timer_init frequency t =
    let divisor = 1193182 / frequency % 2 ^ 16 in
    (
      record t { timer_frequency = frequency },
      (0x43, 0x36) ∷ (0x40, divisor % 256) ∷ (0x40, divisor / 256) ∷ [],
    )

-- The tick that sleep_ms waits for. The product has 32 bits.
pub sleep_target : ℕ → Timer → ℕ
sleep_target ms t = (t.timer_ticks + ms * t.timer_frequency % 2 ^ 32 / 1000) % 2 ^ 64
