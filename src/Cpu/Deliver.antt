-- ===== src/Cpu/Deliver.antt =====
-- An interrupt line from its gate to its handler.
use gravityos.Base.{
  ℕ, zero, suc, ◌+◌, ◌-◌, ◌*◌, ◌%◌, ◌^◌, ◌<◌, ◌≤◌, ◌≡◌, ◌≢◌, ◌⊎◌, refl, arith, Bool, true, false,
  not, ◌&&◌, ◌||◌, List, [], ◌∷◌, ◌++◌, ap, ltb, leb, ◌==◌, if◌then◌else◌, update, update_self,
  update_ne, inl, inr, sym, ◌∙◌, subst, ℕ_discrete, dec_lt,
}
use gravityos.Base.Bits.{byte_clear, test_bit, test_bit-byte_clear}
use gravityos.Cpu.{
  IdtEntry, zero_gate, idt_set_gate, set_gates, idt_init, pic_send_eoi, irq_install_handler,
  irq_handler,
}

-- The address that a gate leads to.
abbrev pub gate_target : IdtEntry → ℕ
gate_target e = e.offset_low + e.offset_mid * 2 ^ 16 + e.offset_high * 2 ^ 32

-- A gate to a handler in the kernel's code segment.
abbrev pub IsGate : ℕ → IdtEntry → Type 0
IsGate handler e = (gate_target e ≡ handler) × (e.selector ≡ 8) × (e.type_attr ≡ 0x8E)

-- The gates of other vectors stay.
set_gates_other :
    (first : ℕ) (stubs : ℕ → ℕ) (n i : ℕ) (idt : ℕ → IdtEntry) (v : ℕ)
    → (v < first + i) ⊎ (first + i + n ≤ v)
    → set_gates first stubs n i idt v ≡ idt v
unfolding set_gates idt_set_gate
set_gates_other first stubs zero i idt v out = refl
set_gates_other first stubs (suc n) i idt v out =
    set_gates_other first stubs n (i + 1) (idt_set_gate (first + i) (stubs i) 8 0x8E idt) v
      (omega arith)
    ∙ update_ne idt (first + i) v _ (omega arith)

stored-IsGate :
    (v handler : ℕ) (idt : ℕ → IdtEntry)
    → handler < 2 ^ 64
    → IsGate handler (idt_set_gate v handler 8 0x8E idt v)
unfolding idt_set_gate
stored-IsGate v handler idt word =
    let self : (v == v) ≡ true = ground arith in rw self (omega arith, refl, refl)

set_gates_lem :
    (first : ℕ) (stubs : ℕ → ℕ) (n i : ℕ) (idt : ℕ → IdtEntry) (k : ℕ)
    → i ≤ k
    → k < i + n
    → stubs k < 2 ^ 64
    → IsGate (stubs k) (set_gates first stubs n i idt (first + k))
unfolding set_gates
set_gates_lem first stubs zero i idt k low high word = absurd (omega arith)
set_gates_lem first stubs (suc n) i idt k low high word = elim (ℕ_discrete i k) [
  | yes e ↦
      subst
        (λ j. IsGate (stubs k) (
          set_gates first stubs n (j + 1) (idt_set_gate (first + j) (stubs j) 8 0x8E idt)
            (first + k)))
        (sym e)
        (subst (IsGate (stubs k))
          (sym (
            set_gates_other first stubs n (k + 1) (idt_set_gate (first + k) (stubs k) 8 0x8E idt)
              (first + k) (inl (omega arith))))
          (stored-IsGate (first + k) (stubs k) idt word))
  | no ne ↦
      set_gates_lem first stubs n (i + 1) (idt_set_gate (first + i) (stubs i) 8 0x8E idt) k
        (omega arith) (omega arith) word
]

-- The gates of the processor's exceptions and of the interrupt lines.
idt_init-IsGate :
    (isr irq : ℕ → ℕ) (k : ℕ)
    → ((j : ℕ) → (isr j < 2 ^ 64) × (irq j < 2 ^ 64))
    → (k < 32 → IsGate (isr k) (idt_init isr irq k))
      × (k < 16 → IsGate (irq k) (idt_init isr irq (32 + k)))
      × (48 ≤ k → idt_init isr irq k ≡ zero_gate)
unfolding idt_init
idt_init-IsGate isr irq k words =
    let exceptions = set_gates 0 isr 32 0 (λ _. zero_gate) in
    let plain : 0 + k ≡ k = omega arith in
    (
      λ lt.
          subst (IsGate (isr k))
            (sym (set_gates_other 32 irq 16 0 exceptions k (inl (omega arith))))
            (subst (λ v. IsGate (isr k) (exceptions v)) plain
              (set_gates_lem 0 isr 32 0 (λ _. zero_gate) k (omega arith) (omega arith)
                (words k).0)),
      λ lt. set_gates_lem 32 irq 16 0 exceptions k (omega arith) (omega arith) (words k).1,
      λ high.
          set_gates_other 32 irq 16 0 exceptions k (inr (omega arith))
          ∙ set_gates_other 0 isr 32 0 (λ _. zero_gate) k (inr (omega arith)),
    )

-- What is read back from a list of writes to a port, where it was not written the value of before.
pub last_written : ℕ → List (ℕ × ℕ) → ℕ → ℕ
last_written port [] old = old
last_written port ((p, v) ∷ writes) old = last_written port writes (if p == port then v else old)

-- Line `k` is masked in the two masks of the controllers.
abbrev pub masked : ℕ → ℕ → ℕ → Bool
masked master slave k = if ltb k 8 then test_bit master k else test_bit slave (k - 8)

-- The lines' masks once the handler of `irq` is installed.
abbrev pub mask_after : ℕ → ℕ → ℕ → List (ℕ × ℕ) → Bool
mask_after master slave k writes =
    masked (last_written 0x21 writes master) (last_written 0xA1 writes slave) k

-- The end of an interrupt: the command 0x20 to each controller that the line's signal went through, the
-- second one first, where the lines below 8 hang on the first controller alone.
abbrev pub acknowledged : ℕ → List (ℕ × ℕ)
acknowledged line = if ltb line 8 then (0x20, 0x20) ∷ [] else (0xA0, 0x20) ∷ (0x20, 0x20) ∷ []

-- An interrupt line that leads to its handler.
abbrev pub Delivered : (ℕ → ℕ) → (ℕ → ℕ) → ℕ → ℕ → ℕ → ℕ → (ℕ → ℕ) → Type 0
Delivered isr irq line handler master slave handlers =
    let r = irq_install_handler line handler master slave handlers in
    IsGate (irq line) (idt_init isr irq (32 + line))
    × (irq_handler (32 + line) r.0 ≡ (handler, acknowledged line))
    × ((k : ℕ)
        → k < 16
        → mask_after master slave k r.1
          ≡ (if (k == line) || ((k == 2) && leb 8 line) then false else masked master slave k))
    × ((k : ℕ) → line ≢ k → r.0 k ≡ handlers k)

module _ (line handler master slave : ℕ) (handlers : ℕ → ℕ) (hm : master < 256)
    (hs : slave < 256) where
  install_low :
      line < 8
      → irq_install_handler line handler master slave handlers
        ≡ (update handlers line handler, (0x21, byte_clear master line) ∷ [])
  unfolding irq_install_handler
  install_low lt =
      let a : ltb 15 line ≡ false = ground arith in
      let b : ltb line 8 ≡ true = ground arith in rw (a, b) refl

  install_high :
      8 ≤ line
      → line < 16
      → irq_install_handler line handler master slave handlers ≡ (
        update handlers line handler,
        (0x21, byte_clear master 2) ∷ (0xA1, byte_clear slave (line - 8)) ∷ [],
      )
  unfolding irq_install_handler
  install_high le lt =
      let a : ltb 15 line ≡ false = ground arith in
      let b : ltb line 8 ≡ false = ground arith in rw (a, b) refl

  mask_low :
      line < 8
      → (k : ℕ) → k < 16
      → masked (byte_clear master line) slave k
        ≡ (if (k == line) || ((k == 2) && leb 8 line) then false else masked master slave k)
  mask_low lt k hk = elim (dec_lt k 8) [
    | yes low ↦
        let bit = test_bit-byte_clear master line k hm lt low in
        let here : ltb k 8 ≡ true = ground arith in
        let off : leb 8 line ≡ false = ground arith in
        rw (here, bit, off) (flip k line (test_bit master k))
    | no high ↦
        let here : ltb k 8 ≡ false = ground arith in
        let other : (k == line) ≡ false = ground arith in
        let two : (k == 2) ≡ false = ground arith in rw (here, other, two) refl
  ]
    where
      flip :
          (k line : ℕ) (b : Bool)
          → (not (line == k) && b) ≡ (if (k == line) || ((k == 2) && false) then false else b)
      flip k line b = ground arith

  mask_high :
      8 ≤ line
      → line < 16
      → (k : ℕ) → k < 16
      → masked (byte_clear master 2) (byte_clear slave (line - 8)) k
        ≡ (if (k == line) || ((k == 2) && leb 8 line) then false else masked master slave k)
  mask_high le lt k hk = elim (dec_lt k 8) [
    | yes low ↦
        let bit = test_bit-byte_clear master 2 k hm (omega arith) low in
        let here : ltb k 8 ≡ true = ground arith in
        let on : leb 8 line ≡ true = ground arith in
        let other : (k == line) ≡ false = ground arith in
        rw (here, bit, on, other) (cascade k (test_bit master k))
    | no high ↦
        let bit = test_bit-byte_clear slave (line - 8) (k - 8) hs (omega arith) (omega arith) in
        let here : ltb k 8 ≡ false = ground arith in
        let two : (k == 2) ≡ false = ground arith in
        let same : (line - 8 == k - 8) ≡ (k == line) = ground arith in
        rw (here, bit, two, same) (own (k == line) (test_bit slave (k - 8)))
  ]
    where
      cascade :
          (k : ℕ) (b : Bool)
          → (not (2 == k) && b) ≡ (if false || ((k == 2) && true) then false else b)
      cascade k b = ground arith

      own : (a b : Bool) → (not a && b) ≡ (if a || (false && leb 8 line) then false else b)
      own a b = ground arith

  dispatch_lem :
      line < 16
      → irq_handler (32 + line) (update handlers line handler) ≡ (handler, acknowledged line)
  unfolding irq_handler pic_send_eoi
  dispatch_lem lt =
      let number : (32 + line + 2 ^ 64 - 32) % 2 ^ 64 ≡ line = omega arith in
      let byte : line % 256 ≡ line = omega arith in
      let there : ltb line 16 ≡ true = ground arith in
      let self = update_self handlers line handler in
      rw (number, byte, there, self) (ap (λ w. (handler, w)) (ends line))
    where
      ends :
          (line : ℕ)
          → (if leb 8 line then (0xA0, 0x20) ∷ [] else []) ++ ((0x20, 0x20) ∷ [])
            ≡ acknowledged line
      ends line = ground arith

-- For one of the sixteen lines, stubs at addresses of 64 bits, and masks of eight bits: once the handler
-- is installed, the line's gate leads to the line's stub in the kernel's code segment, irq_handler calls
-- the handler for the gate's vector and writes the end of interrupt to the first controller, for the lines
-- from 8 on to the second before it, the line is no longer masked, nor is
-- line 2 where the line hangs on the second controller, and the masks and handlers of all other lines
-- are as before.
pub install-Delivered :
    (isr irq : ℕ → ℕ) (line handler master slave : ℕ) (handlers : ℕ → ℕ)
    → ((j : ℕ) → (isr j < 2 ^ 64) × (irq j < 2 ^ 64))
    → line < 16
    → master < 256
    → slave < 256
    → Delivered isr irq line handler master slave handlers
unfolding last_written
install-Delivered isr irq line handler master slave handlers words lt hm hs =
    let gate = (idt_init-IsGate isr irq line words).1 lt in
    elim (dec_lt line 8) [
      | yes low ↦ rw (install_low line handler master slave handlers hm hs low) (
        gate,
        dispatch_lem line handler master slave handlers hm hs lt,
        mask_low line handler master slave handlers hm hs low,
        λ k ne. update_ne handlers line k handler ne,
      )
      | no high ↦
          let le : 8 ≤ line = omega arith in
          rw (install_high line handler master slave handlers hm hs le lt) (
            gate,
            dispatch_lem line handler master slave handlers hm hs lt,
            mask_high line handler master slave handlers hm hs le lt,
            λ k ne. update_ne handlers line k handler ne,
          )
    ]
