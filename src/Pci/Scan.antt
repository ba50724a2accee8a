-- ===== src/Pci/Scan.antt =====
-- The search for a device against the list that the scan prints.
use gravityos.Base.{
  ℕ, zero, suc, ◌+◌, ◌≡◌, ◌≢◌, refl, arith, false, ◌&&◌, List, [], ◌∷◌, ◌++◌, Option, none, some,
  ◌==◌, if◌then◌else◌, Bool-cases, inl, inr, ap₂, sym, ◌∙◌,
}
use gravityos.Pci.{
  Device, Found, vendor_of, device_of, id_register, match_slot, or_else, find_slot, find_bus,
  pci_find_device, scan_slots, scan_buses, pci_scan_bus,
}

-- The first entry with the two numbers.
pub first_of : ℕ → ℕ → List Found → Option Device
first_of vendor device [] = none
first_of vendor device (e ∷ l) =
    let rest = first_of vendor device l in
    if (e.vendor == vendor) && (e.device == device)
    then some
        (record { bus = e.bus; slot = e.slot; func = 0; vendor_id = vendor; device_id = device })
    else rest

module _ (config : ℕ → ℕ) (vendor device : ℕ) where
  first_of-append :
      (xs ys : List Found)
      → first_of vendor device (xs ++ ys)
        ≡ or_else (first_of vendor device xs) (first_of vendor device ys)
  unfolding first_of
  first_of-append [] ys = refl
  first_of-append (x ∷ xs) ys = elim (Bool-cases ((x.vendor == vendor) && (x.device == device))) [
    | inl this ↦ rw this refl
    | inr other ↦ rw other (first_of-append xs ys)
  ]

  slots_lem :
      vendor ≢ 0xFFFF
      → (bus n slot : ℕ)
      → find_slot config vendor device bus n slot
        ≡ first_of vendor device (scan_slots config bus n slot)
  unfolding first_of find_slot scan_slots match_slot
  slots_lem real bus zero slot = refl
  slots_lem real bus (suc n) slot =
      let rest = slots_lem real bus n (slot + 1) in
      let v = vendor_of (id_register config bus slot) in
      let d = device_of (id_register config bus slot) in
      elim (Bool-cases (v == vendor)) [
        | inl same ↦
            let there : (v == 0xFFFF) ≡ false = ground arith in
            elim (Bool-cases (d == device)) [
              | inl both ↦ rw (there, same, both) refl
              | inr wrong ↦ rw (there, same, wrong) rest
            ]
        | inr wrong ↦ elim (Bool-cases (v == 0xFFFF)) [
          | inl empty ↦ rw (wrong, empty) rest
          | inr there ↦ rw (wrong, there, wrong) rest
        ]
      ]

  buses_lem :
      vendor ≢ 0xFFFF
      → (n bus : ℕ)
      → find_bus config vendor device n bus ≡ first_of vendor device (scan_buses config n bus)
  unfolding find_bus scan_buses first_of
  buses_lem real zero bus = refl
  buses_lem real (suc n) bus =
      ap₂ (or_else) (slots_lem real bus 32 0) (buses_lem real n (bus + 1))
      ∙ sym (first_of-append (scan_slots config bus 32 0) (scan_buses config n (bus + 1)))

  -- For a vendor's number other than the one of an empty slot, pci_find_device finds the first device with
  -- both numbers that the scan of the bus prints, and none where the scan prints none.
  pub find_device_lem :
      vendor ≢ 0xFFFF
      → pci_find_device config vendor device ≡ first_of vendor device (pci_scan_bus config)
  unfolding pci_find_device pci_scan_bus
  find_device_lem real = buses_lem real 256 0
