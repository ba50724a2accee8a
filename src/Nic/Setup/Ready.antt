-- ===== src/Nic/Setup/Ready.antt =====
-- What e1000_init leaves behind.
use gravityos.Base.{ℕ, ◌≡◌, ◌≢◌, ◌⊎◌, Bool, false, List, [], some, none}
use gravityos.Pci.{Device, pci_find_device, pci_get_bar, pci_enable_bus_master}
use gravityos.Nic.{Nic}
use gravityos.Nic.Setup.{map_window}
use gravityos.Nic.Setup.Rings.{SetUp}

-- No card is on the bus, or the first BAR of the one that is found is 0.
abbrev pub NoCard : (ℕ → ℕ) → Type 0
NoCard config =
    (pci_find_device config 0x8086 0x100E ≡ none)
    ⊎ ((dev : Device) × (pci_find_device config 0x8086 0x100E ≡ some dev)
        × (pci_get_bar config dev 0 ≡ 0))

-- The outcome of e1000_init.
abbrev pub InitResult : (ℕ → ℕ) → ℕ → ℕ → Nic → Bool × List (ℕ × ℕ) × Nic → Type 0
InitResult config root hhdm s r =
    ((r ≡ (false, [], record s { card_present = false })) × NoCard config)
    ⊎ ((dev : Device) × (pci_find_device config 0x8086 0x100E ≡ some dev)
        × (pci_get_bar config dev 0 ≢ 0)
        × (r.1 ≡ pci_enable_bus_master config dev)
        × SetUp hhdm (map_window root (pci_get_bar config dev 0) 32 0 s.vm).supply (r.0, r.2))
