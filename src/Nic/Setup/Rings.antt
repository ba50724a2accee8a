-- ===== src/Nic/Setup/Rings.antt =====
-- The two rings, where the pages suffice and where they do not.
use gravityos.Base.{
  ℕ, zero, suc, ◌+◌, ◌-◌, ◌%◌, ◌^◌, ◌<◌, ◌≤◌, ◌≡◌, ◌⊎◌, refl, arith, Bool, true, false, ◌&&◌, List,
  [], ◌∷◌, ltb, leb, inl, inr, ap, sym, ◌∙◌, length, get_or, drop,
}
use gravityos.Nic.{Nic, is_done}
use gravityos.Nic.Setup.{
  zero_rx, zero_tx, rx_slot, tx_slot, with_pages, fill_slots, start_rx, setup_rx, start_tx,
  setup_tx, then_tx, finish_init,
}
use gravityos.Nic.Setup.Slots.{rx_filled, tx_filled, fill_rx, fill_tx, fill_short}

-- Both rings, made from the pages that the allocator hands out next.
abbrev pub RingsReady : ℕ → List ℕ → Nic → Type 0
RingsReady hhdm pages s =
    ((i : ℕ)
      → i < 16
      → ((s.rx_ring i).addr ≡ get_or pages (1 + i) 0)
        × (s.rx_buffers i ≡ (get_or pages (1 + i) 0 + hhdm) % 2 ^ 64)
        × (is_done (s.rx_ring i).status ≡ false))
    × ((i : ℕ)
        → i < 8
        → (s.tx_buffers_phys i ≡ get_or pages (18 + i) 0)
          × (s.tx_buffers i ≡ (get_or pages (18 + i) 0 + hhdm) % 2 ^ 64)
          × (is_done (s.tx_ring i).status ≡ true))
    × (s.rx_cur ≡ 0)
    × (s.tx_cur ≡ 0)
    × (s.vm.supply ≡ drop 26 pages)

abbrev pub rx_from : ℕ → Nic → List ℕ → Bool × Nic
rx_from hhdm s [] = (false, s)
rx_from hhdm s (ring ∷ rest) =
    start_rx (
      fill_slots (rx_slot hhdm) 16 0 rest
        (record s { rx_ring_phys = ring; rx_ring = λ _. zero_rx }))

abbrev pub tx_from : ℕ → Nic → List ℕ → Bool × Nic
tx_from hhdm s [] = (false, s)
tx_from hhdm s (ring ∷ rest) =
    start_tx (
      fill_slots (tx_slot hhdm) 8 0 rest (record s { tx_ring_phys = ring; tx_ring = λ _. zero_tx }))

pub setup_rx_from :
    (hhdm : ℕ) (s : Nic) (pages : List ℕ)
    → s.vm.supply ≡ pages
    → setup_rx hhdm s ≡ rx_from hhdm s pages
unfolding setup_rx
setup_rx_from hhdm s pages e = ap (rx_from hhdm s) e

setup_tx_from :
    (hhdm : ℕ) (s : Nic) (pages : List ℕ)
    → s.vm.supply ≡ pages
    → setup_tx hhdm s ≡ tx_from hhdm s pages
unfolding setup_tx
setup_tx_from hhdm s pages e = ap (tx_from hhdm s) e

-- The pages behind the receive ring's.
pub drop_cases :
    (n : ℕ) (pages : List ℕ)
    → (length pages ≤ n)
      ⊎ ((ring : ℕ) × (rest : List ℕ) × (drop n pages ≡ ring ∷ rest)
          × (length rest + n + 1 ≡ length pages)
          × ((i : ℕ) → get_or pages (n + 1 + i) 0 ≡ get_or rest i 0)
          × (drop (n + 9) pages ≡ drop 8 rest))
drop_cases zero [] = inl (omega arith)
drop_cases zero (p ∷ pages) = inr (p, pages, refl, omega arith, λ i. one i, refl)
  where
    one : (i : ℕ) → get_or (p ∷ pages) (0 + 1 + i) 0 ≡ get_or pages i 0
    one i = let e : 0 + 1 + i ≡ suc i = omega arith in rw e refl
drop_cases (suc n) [] = inl (omega arith)
drop_cases (suc n) (p ∷ pages) = elim (drop_cases n pages) [
  | inl short ↦ inl (omega arith)
  | inr (ring, rest, e, len, same, left) ↦
      let nine : suc n + 9 ≡ suc (n + 9) = omega arith in
      inr (ring, rest, e, omega arith, λ i. later i ∙ same i, rw nine left)
]
  where
    later : (i : ℕ) → get_or (p ∷ pages) (suc n + 1 + i) 0 ≡ get_or pages (n + 1 + i) 0
    later i = let e : suc n + 1 + i ≡ suc (n + 1 + i) = omega arith in rw e refl

-- The state between the two rings.
abbrev pub between : ℕ → ℕ → List ℕ → Nic → Nic
between hhdm ring pages s =
    (start_rx (
      true,
      with_pages (drop 16 pages)
          (rx_filled hhdm 16 0 pages (record s { rx_ring_phys = ring; rx_ring = λ _. zero_rx })),
    )).1

abbrev pub Failed : Bool × Nic → Type 0
Failed r = (r.0 ≡ false) × (r.1.card_present ≡ false)

unstarted_tx :
    (r : Bool × Nic) → r.0 ≡ false → r.1.card_present ≡ false → Failed (finish_init (start_tx r))
unfolding start_tx finish_init
unstarted_tx (false, u) e off = (refl, off)
unstarted_tx (true, u) e off = absurd (ground arith)

unstarted_rx :
    (hhdm : ℕ) (r : Bool × Nic)
    → r.0 ≡ false
    → r.1.card_present ≡ false
    → Failed (finish_init (then_tx hhdm (start_rx r)))
unfolding start_rx then_tx finish_init
unstarted_rx hhdm (false, u) e off = (refl, off)
unstarted_rx hhdm (true, u) e off = absurd (ground arith)

pub tx_short :
    (hhdm : ℕ) (t : Nic) (pages : List ℕ)
    → t.card_present ≡ false
    → length pages < 9
    → Failed (finish_init (tx_from hhdm t pages))
unfolding tx_slot finish_init
tx_short hhdm t [] off lt = (refl, off)
tx_short hhdm t (ring ∷ rest) off lt =
    let t' = record t { tx_ring_phys = ring; tx_ring = λ _. zero_tx } in
    let (fails, kept) = fill_short (tx_slot hhdm) 8 0 rest t' (λ i page u. refl) (omega arith) in
    unstarted_tx (fill_slots (tx_slot hhdm) 8 0 rest t') fails (kept ∙ off)

pub rx_short :
    (hhdm : ℕ) (s : Nic) (pages : List ℕ)
    → s.card_present ≡ false
    → length pages < 17
    → Failed (finish_init (then_tx hhdm (rx_from hhdm s pages)))
unfolding rx_slot then_tx finish_init
rx_short hhdm s [] off lt = (refl, off)
rx_short hhdm s (ring ∷ rest) off lt =
    let s' = record s { rx_ring_phys = ring; rx_ring = λ _. zero_rx } in
    let (fails, kept) = fill_short (rx_slot hhdm) 16 0 rest s' (λ i page u. refl) (omega arith) in
    unstarted_rx hhdm (fill_slots (rx_slot hhdm) 16 0 rest s') fails (kept ∙ off)

-- The setup with the receive ring's pages there.
pub rx_full :
    (hhdm ring : ℕ) (s : Nic) (pages : List ℕ)
    → 16 ≤ length pages
    → then_tx hhdm (rx_from hhdm s (ring ∷ pages))
      ≡ tx_from hhdm (between hhdm ring pages s) (drop 16 pages)
unfolding then_tx start_rx
rx_full hhdm ring s pages le =
    ap (λ r. then_tx hhdm (start_rx r))
      (fill_rx hhdm 16 0 pages (record s { rx_ring_phys = ring; rx_ring = λ _. zero_rx }) le)
    ∙ setup_tx_from hhdm (between hhdm ring pages s) (drop 16 pages) refl

pub tx_full :
    (hhdm ring : ℕ) (t : Nic) (rest : List ℕ)
    → 8 ≤ length rest
    → tx_from hhdm t (ring ∷ rest)
      ≡ start_tx (
        true,
        with_pages
            (drop 8 rest)
            (tx_filled hhdm 8 0 rest (record t { tx_ring_phys = ring; tx_ring = λ _. zero_tx })),
      )
tx_full hhdm ring t rest le =
    ap start_tx
      (fill_tx hhdm 8 0 rest (record t { tx_ring_phys = ring; tx_ring = λ _. zero_tx }) le)

-- The outcome for the pages that are left: both rings are ready, or there is no card.
abbrev pub SetUp : ℕ → List ℕ → Bool × Nic → Type 0
SetUp hhdm pages r =
    ((26 ≤ length pages) × (r.0 ≡ true) × (r.1.card_present ≡ true) × RingsReady hhdm pages r.1)
    ⊎ ((length pages < 26) × (r.0 ≡ false) × (r.1.card_present ≡ false))

pub rings-RingsReady :
    (hhdm ring ring' : ℕ) (s : Nic) (pages rest : List ℕ)
    → 16 ≤ length pages
    → 8 ≤ length rest
    → ((i : ℕ) → get_or (ring ∷ pages) (18 + i) 0 ≡ get_or rest i 0)
    → drop 26 (ring ∷ pages) ≡ drop 8 rest
    → RingsReady hhdm
        (ring ∷ pages)
        (finish_init (
          start_tx (
            true,
            with_pages (drop 8 rest) (
                tx_filled hhdm 8 0 rest (record (between hhdm ring pages s) {
                  tx_ring_phys = ring';
                  tx_ring = λ _. zero_tx;
                })),
          ))).1
unfolding start_rx start_tx finish_init
rings-RingsReady hhdm ring ring' s pages rest le le' same left = (
  λ i lt.
      let on : (leb 0 i && ltb i (0 + 16)) ≡ true = ground arith in
      let e : i - 0 ≡ i = omega arith in
      let e' : 1 + i ≡ suc i = omega arith in rw (on, e, e') (refl, refl, refl),
  λ i lt.
      let on : (leb 0 i && ltb i (0 + 8)) ≡ true = ground arith in
      let e : i - 0 ≡ i = omega arith in rw (on, e, same i) (refl, refl, refl),
  refl,
  refl,
  sym left,
)
