-- ===== src/Pci/Tests.antt =====
-- A bus with one network card.
use gravityos.Base.{ℕ, ◌≡◌, arith, ◌==◌, if◌then◌else◌}
use gravityos.Pci.{pci_find_device, pci_scan_bus}
use gravityos.Pci.Scan.{first_of, find_device_lem}

-- The card's registers in slot 3 of bus 0.
abbrev one_card : ℕ → ℕ
one_card address =
    if address == 0x80001800
    then 0x100E8086
    else if address == 0x80001808
    then 0x02000003
    else 0xFFFFFFFF

find_device_lem_example :
    pci_find_device one_card 0x8086 0x100E ≡ first_of 0x8086 0x100E (pci_scan_bus one_card)
find_device_lem_example = find_device_lem one_card 0x8086 0x100E (omega arith)
