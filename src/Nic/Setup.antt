-- ===== src/Nic/Setup.antt =====
-- drivers/e1000.c: e1000_init, and the two rings it sets up. `Answers` is what the card's registers give.
pub mod Slots
pub mod Rings
pub mod Ready
use gravityos.Base.{
  ℕ, zero, suc, ◌+◌, ◌*◌, ◌/◌, ◌%◌, ◌^◌, Bool, true, false, not, List, [], ◌∷◌, ◌++◌, Option, none,
  some, ◌==◌, if◌then◌else◌, update,
}
use Prim.Native.Nat.{bit_or}
use gravityos.Vmm.{Vm, vmm_map_page}
use gravityos.Pci.{Device, pci_find_device, pci_get_bar, pci_enable_bus_master}
use gravityos.Nic.{RxDesc, TxDesc, Nic, mmio_write}

pub record Answers : Type 0 where
  pub ctrl : ℕ
  pub ral : ℕ
  pub rah : ℕ
  pub eerd : ℕ → ℕ → ℕ

-- Byte `k` of a register.
abbrev pub byte_of : ℕ → ℕ → ℕ
byte_of word k = word / 2 ^ (8 * k) % 256

-- The loop that polls REG_EERD from the `k`-th read on, with the last value read.
pub poll_eerd : (ℕ → ℕ) → ℕ → ℕ → ℕ → ℕ
poll_eerd values zero k value = value
poll_eerd values (suc spins) k value =
    let rest = poll_eerd values spins (k + 1) (values k) in
    if not (values k / 16 % 2 == 0) then values k else rest

-- The rounds of the EEPROM's path, from word `i` on.
pub read_words : (ℕ → ℕ → ℕ) → ℕ → ℕ → Nic → Nic
read_words eerd zero i s = s
read_words eerd (suc n) i s =
    let value = poll_eerd (eerd i) 1000000 0 0 in
    let asked = mmio_write 0x0014 (bit_or (i * 2 ^ 8) 1) s in
    read_words eerd n (i + 1) (record asked {
      mac_addr = update (update s.mac_addr (i * 2) (byte_of value 2)) (i * 2 + 1) (byte_of value 3);
    })

-- The first four bytes from RAL, two from RAH.
abbrev pub mac_from : ℕ → ℕ → (ℕ → ℕ) → ℕ → ℕ
mac_from ral rah old =
    update
      (update
        (update (update (update (update old 0 (byte_of ral 0)) 1 (byte_of ral 1)) 2 (byte_of ral 2))
          3 (byte_of ral 3))
        4 (byte_of rah 0))
      5 (byte_of rah 1)

pub read_mac : Answers → Nic → Nic
read_mac a s =
    if not (a.ral == 0)
    then record s { mac_addr = mac_from a.ral a.rah s.mac_addr }
    else read_words a.eerd 3 0 s

abbrev pub zero_rx : RxDesc
zero_rx = record { addr = 0; length = 0; checksum = 0; status = 0; errors = 0; special = 0 }

abbrev pub zero_tx : TxDesc
zero_tx = record { addr = 0; length = 0; cso = 0; cmd = 0; status = 0; css = 0; special = 0 }

-- A page of pmm_alloc_page goes to slot `i`; `hhdm` is hhdm_offset.
pub rx_slot : ℕ → ℕ → ℕ → Nic → Nic
rx_slot hhdm i page s = record s {
  rx_buffers = update s.rx_buffers i ((page + hhdm) % 2 ^ 64);
  rx_ring = update s.rx_ring i (record (s.rx_ring i) { addr = page; status = 0 });
}

pub tx_slot : ℕ → ℕ → ℕ → Nic → Nic
tx_slot hhdm i page s = record s {
  tx_buffers_phys = update s.tx_buffers_phys i page;
  tx_buffers = update s.tx_buffers i ((page + hhdm) % 2 ^ 64);
  tx_ring = update s.tx_ring i (record (s.tx_ring i) { addr = 0; status = 1 });
}

abbrev pub with_pages : List ℕ → Nic → Nic
with_pages supply s = record s { vm = record s.vm { supply = supply } }

-- The loop over the slots, from `i` on: each takes the next page, until none is left.
pub fill_slots : (ℕ → ℕ → Nic → Nic) → ℕ → ℕ → List ℕ → Nic → Bool × Nic
fill_slots slot zero i supply s = (true, with_pages supply s)
fill_slots slot (suc n) i [] s = (false, with_pages [] s)
fill_slots slot (suc n) i (page ∷ supply) s = fill_slots slot n (i + 1) supply (slot i page s)

-- The writes that hand a full ring to the card.
pub start_rx : Bool × Nic → Bool × Nic
start_rx (false, s) = (false, s)
start_rx (true, s) = (
  true,
  mmio_write 0x0100 0x4008002
      (record (mmio_write 0x2818 15 (
        mmio_write 0x2810 0 (
          mmio_write 0x2808 256 (
            mmio_write 0x2804 (s.rx_ring_phys / 2 ^ 32)
              (mmio_write 0x2800 (s.rx_ring_phys % 2 ^ 32) s))))) { rx_cur = 0 }),
)

pub setup_rx : ℕ → Nic → Bool × Nic
setup_rx hhdm s = elim s.vm.supply [
  | [] ↦ (false, s)
  | ring ∷ rest ↦ start_rx (
      fill_slots (rx_slot hhdm) 16 0 rest
        (record s { rx_ring_phys = ring; rx_ring = λ _. zero_rx }))
]

pub start_tx : Bool × Nic → Bool × Nic
start_tx (false, s) = (false, s)
start_tx (true, s) = (
  true,
  mmio_write 0x0410 0x60200A (
      mmio_write 0x0400 0x4010A
        (record (mmio_write 0x3818 0 (
          mmio_write 0x3810 0 (
            mmio_write 0x3808 128 (
              mmio_write 0x3804 (s.tx_ring_phys / 2 ^ 32)
                (mmio_write 0x3800 (s.tx_ring_phys % 2 ^ 32) s))))) { tx_cur = 0 })),
)

pub setup_tx : ℕ → Nic → Bool × Nic
setup_tx hhdm s = elim s.vm.supply [
  | [] ↦ (false, s)
  | ring ∷ rest ↦ start_tx (
      fill_slots (tx_slot hhdm) 8 0 rest (record s { tx_ring_phys = ring; tx_ring = λ _. zero_tx }))
]

-- The pages of the card's window of registers, from page `i` on.
pub map_window : ℕ → ℕ → ℕ → ℕ → Vm → Vm
map_window root bar0 zero i vm = vm
map_window root bar0 (suc n) i vm =
    map_window root bar0 n (i + 1)
      (vmm_map_page root ((bar0 + i * 4096) % 2 ^ 64) (0xFFFFFFFFC0000000 + i * 4096) 0x13 vm)

-- The table of multicast addresses is cleared, from entry `i` on.
pub clear_table : ℕ → ℕ → Nic → Nic
clear_table zero i s = s
clear_table (suc n) i s = clear_table n (i + 1) (mmio_write (0x5200 + i * 4) 0 s)

-- The writes before the rings: interrupts off, link up, no multicast.
pub reset_card : Answers → Nic → Nic
reset_card a s =
    read_mac a
      (clear_table 128 0 (mmio_write 0x0000 (bit_or a.ctrl 64) (mmio_write 0x00D8 0xFFFFFFFF s)))

-- `setup_rx() && setup_tx()`, and the flag.
pub then_tx : ℕ → Bool × Nic → Bool × Nic
then_tx hhdm (false, s) = (false, s)
then_tx hhdm (true, s) = setup_tx hhdm s

pub finish_init : Bool × Nic → Bool × Nic
finish_init (false, s) = (false, s)
finish_init (true, s) = (true, record s { card_present = true })

-- What follows once the card is found: its bus master is switched on, which writes to the ports.
pub init_found : (ℕ → ℕ) → Answers → ℕ → ℕ → Device → Nic → Bool × List (ℕ × ℕ) × Nic
init_found config a root hhdm dev s =
    let bar0 = pci_get_bar config dev 0 in
    if bar0 == 0
    then (false, [], s)
    else let (ok, s') = finish_init (
        then_tx hhdm
          (setup_rx hhdm (reset_card a (record s { vm = map_window root bar0 32 0 s.vm })))) in
      (ok, pci_enable_bus_master config dev, s')

-- What follows the search on the bus.
pub init_searched : (ℕ → ℕ) → Answers → ℕ → ℕ → Option Device → Nic → Bool × List (ℕ × ℕ) × Nic
init_searched config a root hhdm none s = (false, [], s)
init_searched config a root hhdm (some dev) s = init_found config a root hhdm dev s

-- Whether the card is ready, the writes to the ports of the configuration space, and the new state.
pub e1000_init : (ℕ → ℕ) → Answers → ℕ → ℕ → Nic → Bool × List (ℕ × ℕ) × Nic
e1000_init config a root hhdm s =
    init_searched config a root hhdm (pci_find_device config 0x8086 0x100E)
      (record s { card_present = false })
