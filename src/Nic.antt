-- ===== src/Nic.antt =====
-- drivers/e1000.c: the rings of the network card. The descriptors are arrays of records, the card's
-- registers the list of what was written to them, the last write first; the page tables and the pages
-- that pmm_alloc_page hands out are those of Vmm. What the card itself answers (its registers, the
-- status of a descriptor that is polled) are arguments: the values that the reads give, in their order.
pub mod Setup
pub mod Pending
pub mod Receive
pub mod Send
mod Tests
use gravityos.Base.{
  ℕ, zero, suc, ◌+◌, ◌*◌, ◌/◌, ◌%◌, ◌^◌, Bool, true, false, not, ◌||◌, List, [], ◌∷◌, ltb, ◌==◌,
  if◌then◌else◌, update,
}
use gravityos.Strings.{Bytes, memcpy}
use gravityos.Vmm.{Vm}

abbrev pub num_rx_desc : ℕ
num_rx_desc = 16

abbrev pub num_tx_desc : ℕ
num_tx_desc = 8

abbrev pub eth_frame_max : ℕ
eth_frame_max = 1518

-- rx_desc_t and tx_desc_t.
pub record RxDesc : Type 0 where
  pub addr : ℕ
  pub length : ℕ
  pub checksum : ℕ
  pub status : ℕ
  pub errors : ℕ
  pub special : ℕ

pub record TxDesc : Type 0 where
  pub addr : ℕ
  pub length : ℕ
  pub cso : ℕ
  pub cmd : ℕ
  pub status : ℕ
  pub css : ℕ
  pub special : ℕ

pub record Nic : Type 0 where
  pub card_present : Bool
  pub mac_addr : ℕ → ℕ
  pub rx_ring : ℕ → RxDesc
  pub tx_ring : ℕ → TxDesc
  pub rx_ring_phys : ℕ
  pub tx_ring_phys : ℕ
  pub rx_buffers : ℕ → ℕ
  pub tx_buffers : ℕ → ℕ
  pub tx_buffers_phys : ℕ → ℕ
  pub rx_cur : ℕ
  pub tx_cur : ℕ
  pub memory : Bytes
  pub registers : List (ℕ × ℕ)
  pub vm : Vm

abbrev pub mmio_write : ℕ → ℕ → Nic → Nic
mmio_write reg value s = record s { registers = (reg, value % 2 ^ 32) ∷ s.registers }

-- TXD_STAT_DD and RXD_STAT_DD.
abbrev pub is_done : ℕ → Bool
is_done status = not (status % 2 == 0)

-- `if (length > buffer_size) length = buffer_size`.
abbrev pub cut : ℕ → ℕ → ℕ
cut length buffer_size = if ltb buffer_size length then buffer_size else length

-- The frame in the current descriptor is copied out, and the descriptor given back to the card.
pub take_frame : ℕ → ℕ → Nic → ℕ × Nic
take_frame buffer length s = (
  length,
  record s {
    memory = memcpy buffer (s.rx_buffers s.rx_cur) length s.memory;
    rx_ring = update s.rx_ring s.rx_cur (record (s.rx_ring s.rx_cur) { status = 0 });
    registers = (0x2818, s.rx_cur % 2 ^ 32) ∷ s.registers;
    rx_cur = (s.rx_cur + 1) % num_rx_desc % 2 ^ 16;
  },
)

pub e1000_receive : ℕ → ℕ → Nic → ℕ × Nic
e1000_receive buffer buffer_size s =
    if not s.card_present
    then (0, s)
    else if not (is_done (s.rx_ring s.rx_cur).status)
    then (0, s)
    else take_frame buffer (cut (s.rx_ring s.rx_cur).length buffer_size) s

-- The loop that polls a descriptor: how many reads it makes, from the `k`-th on, in `spins` rounds.
pub wait_free : (ℕ → ℕ) → ℕ → ℕ → ℕ
wait_free statuses zero k = k
wait_free statuses (suc spins) k =
    let rest = wait_free statuses spins (k + 1) in if is_done (statuses k) then k + 1 else rest

-- TXD_CMD_EOP, TXD_CMD_IFCS and TXD_CMD_RS.
abbrev pub send_command : ℕ
send_command = 11

-- The frame is copied to the buffer of the current descriptor, and the descriptor handed to the card.
pub put_frame : ℕ → ℕ → Nic → Nic
put_frame frame length s = mmio_write 0x3818 ((s.tx_cur + 1) % num_tx_desc % 2 ^ 16) (record s {
  memory = memcpy (s.tx_buffers s.tx_cur) frame length s.memory;
  tx_ring = update s.tx_ring s.tx_cur (record (s.tx_ring s.tx_cur) {
    addr = s.tx_buffers_phys s.tx_cur;
    length = length;
    cso = 0;
    css = 0;
    status = 0;
    cmd = send_command;
  });
  tx_cur = (s.tx_cur + 1) % num_tx_desc % 2 ^ 16;
})

-- Whether the frame was taken, for the return values 0 and -1. `statuses` are what the reads of the current
-- descriptor's status give.
pub e1000_send : (ℕ → ℕ) → ℕ → ℕ → Nic → Bool × Nic
e1000_send statuses frame length s =
    if not s.card_present
    then (false, s)
    else if (length == 0) || ltb eth_frame_max length
    then (false, s)
    else if not (is_done (statuses (wait_free statuses 1000000 0)))
    then (false, s)
    else (true, put_frame frame length s)
