-- ===== src/Pci.antt =====
-- drivers/pci.c: the bus scan, the search for a device, its base address registers. `config` is what a
-- read of the configuration space gives for the address that is written to port 0xCF8.
pub mod Scan
mod Tests
use gravityos.Base.{
  ℕ, zero, suc, ◌+◌, ◌*◌, ◌/◌, ◌%◌, ◌^◌, Bool, true, false, not, ◌&&◌, List, [], ◌∷◌, ◌++◌, Option,
  none, some, ◌==◌, if◌then◌else◌,
}
use Prim.Native.Nat.{bit_or}

-- pci_device_t.
pub record Device : Type 0 where
  pub bus : ℕ
  pub slot : ℕ
  pub func : ℕ
  pub vendor_id : ℕ
  pub device_id : ℕ

-- What pci_scan_bus prints of a device.
pub record Found : Type 0 where
  pub bus : ℕ
  pub slot : ℕ
  pub vendor : ℕ
  pub device : ℕ
  pub class_code : ℕ
  pub subclass : ℕ

-- The address of a register: an enable bit, bus, slot, function, and an offset without its low two bits.
pub config_address : ℕ → ℕ → ℕ → ℕ → ℕ
config_address bus slot func offset =
    bit_or
      (bit_or (bit_or (bit_or (bus * 2 ^ 16) (slot * 2 ^ 11)) (func * 2 ^ 8))
        (offset % 256 / 4 * 4))
      0x80000000

pub pci_config_read_dword : (ℕ → ℕ) → ℕ → ℕ → ℕ → ℕ → ℕ
pci_config_read_dword config bus slot func offset = config (config_address bus slot func offset)

-- The two port writes: the address, then the value.
pub pci_config_write_dword : ℕ → ℕ → ℕ → ℕ → ℕ → List (ℕ × ℕ)
pci_config_write_dword bus slot func offset value =
    (0xCF8, config_address bus slot func offset) ∷ (0xCFC, value) ∷ []

abbrev pub vendor_of : ℕ → ℕ
vendor_of id_reg = id_reg % 2 ^ 16

abbrev pub device_of : ℕ → ℕ
device_of id_reg = id_reg / 2 ^ 16 % 2 ^ 16

-- The first of two results that is there.
abbrev pub or_else {ℓ} : {A : Type ℓ} → Option A → Option A → Option A
or_else (some a) other = some a
or_else none other = other

module _ (config : ℕ → ℕ) where
  abbrev pub id_register : ℕ → ℕ → ℕ
  id_register bus slot = pci_config_read_dword config bus slot 0 0

  -- The device in a slot, where both its numbers match.
  pub match_slot : ℕ → ℕ → ℕ → ℕ → Option Device
  match_slot vendor_id device_id bus slot =
      if not (vendor_of (id_register bus slot) == vendor_id)
      then none
      else if not (device_of (id_register bus slot) == device_id)
      then none
      else some (record {
        bus = bus;
        slot = slot;
        func = 0;
        vendor_id = vendor_id;
        device_id = device_id;
      })

  -- The inner loop from `slot` on, with `n` rounds left, and the outer one from `bus` on.
  pub find_slot : ℕ → ℕ → ℕ → ℕ → ℕ → Option Device
  find_slot vendor_id device_id bus zero slot = none
  find_slot vendor_id device_id bus (suc n) slot =
      or_else (match_slot vendor_id device_id bus slot)
        (find_slot vendor_id device_id bus n (slot + 1))

  pub find_bus : ℕ → ℕ → ℕ → ℕ → Option Device
  find_bus vendor_id device_id zero bus = none
  find_bus vendor_id device_id (suc n) bus =
      or_else (find_slot vendor_id device_id bus 32 0) (find_bus vendor_id device_id n (bus + 1))

  pub pci_find_device : ℕ → ℕ → Option Device
  pci_find_device vendor_id device_id = find_bus vendor_id device_id 256 0

  abbrev pub found_at : ℕ → ℕ → Found
  found_at bus slot =
      let class_reg = pci_config_read_dword config bus slot 0 8 in
      record {
        bus = bus;
        slot = slot;
        vendor = vendor_of (id_register bus slot);
        device = device_of (id_register bus slot);
        class_code = class_reg / 2 ^ 24 % 256;
        subclass = class_reg / 2 ^ 16 % 256;
      }

  -- The loops of pci_scan_bus: the devices that are printed, in their order.
  pub scan_slots : ℕ → ℕ → ℕ → List Found
  scan_slots bus zero slot = []
  scan_slots bus (suc n) slot =
      let rest = scan_slots bus n (slot + 1) in
      if vendor_of (id_register bus slot) == 0xFFFF then rest else found_at bus slot ∷ rest

  pub scan_buses : ℕ → ℕ → List Found
  scan_buses zero bus = []
  scan_buses (suc n) bus = scan_slots bus 32 0 ++ scan_buses n (bus + 1)

  pub pci_scan_bus : List Found
  pci_scan_bus = scan_buses 256 0

  pub pci_get_bar : Device → ℕ → ℕ
  pci_get_bar dev bar_index =
      let offset = (0x10 + bar_index * 4) % 256 in
      let bar = pci_config_read_dword config dev.bus dev.slot dev.func offset in
      if not (bar % 2 == 0)
      then bar / 4 * 4
      else if bar / 2 % 4 == 2
      then pci_config_read_dword config dev.bus dev.slot dev.func ((offset + 4) % 256) * 2 ^ 32
        + bar / 16 * 16
      else bar / 16 * 16

  -- The writes that switch on the device's ports, its memory and its DMA.
  pub pci_enable_bus_master : Device → List (ℕ × ℕ)
  pci_enable_bus_master dev =
      pci_config_write_dword dev.bus dev.slot dev.func 0x04
        (bit_or (pci_config_read_dword config dev.bus dev.slot dev.func 0x04) 7)
