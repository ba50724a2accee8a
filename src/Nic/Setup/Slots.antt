-- ===== src/Nic/Setup/Slots.antt =====
-- The loops of setup_rx and setup_tx over their slots, and what the writes before them leave alone.
use gravityos.Base.{
  ℕ, zero, suc, ◌+◌, ◌-◌, ◌%◌, ◌^◌, ◌<◌, ◌≤◌, ◌≡◌, refl, arith, Bool, true, false, not, ◌&&◌, List,
  [], ◌∷◌, ltb, leb, ◌==◌, if◌then◌else◌, Bool-cases, inl, inr, ap₂, sym, ◌∙◌, fun_ext, ℕ_discrete,
  update, length, get_or, drop,
}
use gravityos.Nic.{RxDesc, TxDesc, Nic}
use gravityos.Nic.Setup.{
  Answers, read_words, read_mac, rx_slot, tx_slot, with_pages, fill_slots, clear_table, reset_card,
}

abbrev pub Kept : Nic → Nic → Type 0
Kept s s' = (s'.card_present ≡ s.card_present) × (s'.vm ≡ s.vm)

read_words-Kept : (eerd : ℕ → ℕ → ℕ) (n i : ℕ) (s : Nic) → Kept s (read_words eerd n i s)
unfolding read_words
read_words-Kept eerd zero i s = (refl, refl)
read_words-Kept eerd (suc n) i s = read_words-Kept eerd n (i + 1) _

clear_table-Kept : (n i : ℕ) (s : Nic) → Kept s (clear_table n i s)
unfolding clear_table
clear_table-Kept zero i s = (refl, refl)
clear_table-Kept (suc n) i s = clear_table-Kept n (i + 1) _

read_mac-Kept : (a : Answers) (s : Nic) → Kept s (read_mac a s)
unfolding read_mac
read_mac-Kept a s = elim (Bool-cases (not (a.ral == 0))) [
  | inl there ↦ rw there (refl, refl)
  | inr zeros ↦ rw zeros (read_words-Kept a.eerd 3 0 s)
]

pub reset_card-Kept : (a : Answers) (s : Nic) → Kept s (reset_card a s)
unfolding reset_card
reset_card-Kept a s =
    let (on, vm) = clear_table-Kept 128 0 _ in
    let (on', vm') = read_mac-Kept a _ in (on' ∙ on, vm' ∙ vm)

-- Slot `j` is one of the `n` from `i` on.
abbrev pub among : ℕ → ℕ → ℕ → Bool
among i n j = leb i j && ltb j (i + n)

get_or-next :
    (page : ℕ) (pages : List ℕ) (j i : ℕ)
    → i < j
    → get_or (page ∷ pages) (j - i) 0 ≡ get_or pages (j - (i + 1)) 0
get_or-next page pages j i lt = let e : j - i ≡ suc (j - (i + 1)) = omega arith in rw e refl

get_or-first : (page : ℕ) (pages : List ℕ) (i : ℕ) → get_or (page ∷ pages) (i - i) 0 ≡ page
get_or-first page pages i = let e : i - i ≡ 0 = omega arith in rw e refl

module _ {ℓ} {A : Type ℓ} (value : A → ℕ → A) (old : ℕ → A) where
  -- One slot, then those behind it, are all of them.
  slot_step :
      (page : ℕ) (pages : List ℕ) (n i j : ℕ)
      → let first = update old i (value (old i) page) in
        (if among (i + 1) n j then value (first j) (get_or pages (j - (i + 1)) 0) else first j)
        ≡ (if among i (suc n) j then value (old j) (get_or (page ∷ pages) (j - i) 0) else old j)
  slot_step page pages n i j = elim (ℕ_discrete i j) [
    | yes e ↦
        let out : among (j + 1) n j ≡ false = ground arith in
        let here : among j (suc n) j ≡ true = ground arith in
        let same : (j == j) ≡ true = ground arith in
        rw (e, out, here, same, get_or-first page pages j) refl
    | no ne ↦
        let other : (i == j) ≡ false = ground arith in
        elim (Bool-cases (among (i + 1) n j)) [
          | inl later ↦
              let too : among i (suc n) j ≡ true = ground arith in
              rw (other, later, too, get_or-next page pages j i (ground arith)) refl
          | inr not_later ↦
              let nor : among i (suc n) j ≡ false = ground arith in rw (other, not_later, nor) refl
        ]
  ]

abbrev pub set_rx : RxDesc → ℕ → RxDesc
set_rx d page = record d { addr = page; status = 0 }

abbrev pub set_tx : TxDesc → ℕ → TxDesc
set_tx d page = record d { addr = 0; status = 1 }

abbrev pub virtual : ℕ → ℕ → ℕ → ℕ
virtual hhdm old page = (page + hhdm) % 2 ^ 64

-- `n` slots from `i` on with their pages.
abbrev pub slots {ℓ} : {A : Type ℓ} → (A → ℕ → A) → (ℕ → A) → ℕ → ℕ → List ℕ → ℕ → A
slots value old n i pages j = if among i n j then value (old j) (get_or pages (j - i) 0) else old j

abbrev pub rx_filled : ℕ → ℕ → ℕ → List ℕ → Nic → Nic
rx_filled hhdm n i pages s = record s {
  rx_buffers = slots (virtual hhdm) s.rx_buffers n i pages;
  rx_ring = slots set_rx s.rx_ring n i pages;
}

abbrev pub tx_filled : ℕ → ℕ → ℕ → List ℕ → Nic → Nic
tx_filled hhdm n i pages s = record s {
  tx_buffers_phys = slots (λ _ page. page) s.tx_buffers_phys n i pages;
  tx_buffers = slots (virtual hhdm) s.tx_buffers n i pages;
  tx_ring = slots set_tx s.tx_ring n i pages;
}

slots_none {ℓ} :
    {A : Type ℓ} (value : A → ℕ → A) (old : ℕ → A) (i : ℕ) (pages : List ℕ)
    → slots value old 0 i pages ≡ old
slots_none value old i pages =
    fun_ext (λ j. let out : among i 0 j ≡ false = ground arith in rw out refl)

pub fill_rx :
    (hhdm n i : ℕ) (pages : List ℕ) (s : Nic)
    → n ≤ length pages
    → fill_slots (rx_slot hhdm) n i pages s
      ≡ (true, with_pages (drop n pages) (rx_filled hhdm n i pages s))
unfolding fill_slots rx_slot
fill_rx hhdm zero i pages s le =
    ap₂ (λ b r. (true, with_pages pages (record s { rx_buffers = b; rx_ring = r })))
      (sym (slots_none (virtual hhdm) s.rx_buffers i pages))
      (sym (slots_none set_rx s.rx_ring i pages))
fill_rx hhdm (suc n) i [] s le = absurd (omega arith)
fill_rx hhdm (suc n) i (page ∷ pages) s le =
    fill_rx hhdm n (i + 1) pages (rx_slot hhdm i page s) (omega arith)
    ∙ ap₂ (λ b r. (true, with_pages (drop n pages) (record s { rx_buffers = b; rx_ring = r })))
        (fun_ext (slot_step (virtual hhdm) s.rx_buffers page pages n i))
        (fun_ext (slot_step set_rx s.rx_ring page pages n i))

pub fill_tx :
    (hhdm n i : ℕ) (pages : List ℕ) (s : Nic)
    → n ≤ length pages
    → fill_slots (tx_slot hhdm) n i pages s
      ≡ (true, with_pages (drop n pages) (tx_filled hhdm n i pages s))
unfolding fill_slots tx_slot
fill_tx hhdm zero i pages s le =
    ap₂
      (λ p (b, r).
        (true, with_pages pages (record s { tx_buffers_phys = p; tx_buffers = b; tx_ring = r })))
      (sym (slots_none (λ _ page. page) s.tx_buffers_phys i pages))
      (ap₂ (λ b r. (b, r)) (sym (slots_none (virtual hhdm) s.tx_buffers i pages))
        (sym (slots_none set_tx s.tx_ring i pages)))
fill_tx hhdm (suc n) i [] s le = absurd (omega arith)
fill_tx hhdm (suc n) i (page ∷ pages) s le =
    fill_tx hhdm n (i + 1) pages (tx_slot hhdm i page s) (omega arith)
    ∙ ap₂
        (λ p (b, r). (
          true,
          with_pages (drop n pages) (record s { tx_buffers_phys = p; tx_buffers = b; tx_ring = r }),
        ))
        (fun_ext (slot_step (λ _ page. page) s.tx_buffers_phys page pages n i))
        (ap₂ (λ b r. (b, r)) (fun_ext (slot_step (virtual hhdm) s.tx_buffers page pages n i))
          (fun_ext (slot_step set_tx s.tx_ring page pages n i)))

-- Too few pages.
pub fill_short :
    (slot : ℕ → ℕ → Nic → Nic) (n i : ℕ) (pages : List ℕ) (s : Nic)
    → ((i page : ℕ) (s : Nic) → (slot i page s).card_present ≡ s.card_present)
    → length pages < n
    → let r = fill_slots slot n i pages s in (r.0 ≡ false) × (r.1.card_present ≡ s.card_present)
unfolding fill_slots
fill_short slot zero i pages s same lt = absurd (omega arith)
fill_short slot (suc n) i [] s same lt = (refl, refl)
fill_short slot (suc n) i (page ∷ pages) s same lt =
    let (failed, on) = fill_short slot n (i + 1) pages (slot i page s) same (omega arith) in
    (failed, on ∙ same i page s)
