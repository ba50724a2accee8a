-- ===== src/Nic/Send.antt =====
-- e1000_send on each of its branches.
use gravityos.Base.{
  ℕ, zero, suc, ◌+◌, ◌%◌, ◌^◌, ◌<◌, ◌≤◌, ◌≡◌, ◌≢◌, ◌⊎◌, refl, arith, Bool, true, false, not, ◌||◌,
  ◌∷◌, ltb, ◌==◌, if◌then◌else◌, Bool-cases, inl, inr, ap, sym, ◌∙◌, subst, update_ne,
}
use gravityos.Strings.Blocks.{within, memcpy_lem}
use gravityos.Nic.{Nic, is_done, eth_frame_max, send_command, wait_free, put_frame, e1000_send}
use gravityos.Strings.Listed.{bytes_at, bytes_at-copied}

-- A descriptor that the card has once marked as done stays so while the driver waits.
abbrev pub Stays : (ℕ → ℕ) → Type 0
Stays statuses = (i j : ℕ) → i ≤ j → is_done (statuses i) ≡ true → is_done (statuses j) ≡ true

wait_free_lem :
    (statuses : ℕ → ℕ) (spins k : ℕ)
    → Stays statuses
    → is_done (statuses (wait_free statuses spins k)) ≡ is_done (statuses (k + spins))
unfolding wait_free
wait_free_lem statuses zero k stays = let e : k + 0 ≡ k = omega arith in rw e refl
wait_free_lem statuses (suc spins) k stays = elim (Bool-cases (is_done (statuses k))) [
  | inl free ↦
      rw free
        (stays k (k + 1) (omega arith) free ∙ sym (stays k (k + suc spins) (omega arith) free))
  | inr held ↦
      let e : k + suc spins ≡ k + 1 + spins = omega arith in
      rw (held, e) (wait_free_lem statuses spins (k + 1) stays)
]

-- The frame lies in the current descriptor's buffer, the descriptor describes it, and the next
-- slot is current; no other descriptor and no other byte changes.
abbrev pub Handed : ℕ → ℕ → Nic → Nic → Type 0
Handed frame length s s' =
    let desc = s'.tx_ring s.tx_cur in
    (bytes_at s'.memory (s.tx_buffers s.tx_cur) length ≡ bytes_at s.memory frame length)
    × (desc.addr ≡ s.tx_buffers_phys s.tx_cur)
    × (desc.length ≡ length)
    × (desc.status ≡ 0)
    × (desc.cmd ≡ send_command)
    × ((i : ℕ) → s.tx_cur ≢ i → s'.tx_ring i ≡ s.tx_ring i)
    × ((x : ℕ) → within (s.tx_buffers s.tx_cur) length x ≡ false → s'.memory x ≡ s.memory x)
    × (s'.tx_cur ≡ (s.tx_cur + 1) % 8)
    × (s'.registers ≡ ((0x3818, (s.tx_cur + 1) % 8) ∷ s.registers))

-- The frame is too short or too long, the card is not there, or the descriptor stays with it.
abbrev pub unsendable : (ℕ → ℕ) → ℕ → Nic → Bool
unsendable statuses length s =
    not s.card_present || ((length == 0) || (ltb 1518 length || not (is_done (statuses 1000000))))

abbrev pub Sent : (ℕ → ℕ) → ℕ → ℕ → Nic → Bool × Nic → Type 0
Sent statuses frame length s r =
    ((unsendable statuses length s ≡ true) × (r ≡ (false, s)))
    ⊎ ((unsendable statuses length s ≡ false) × (r.0 ≡ true) × Handed frame length s r.1)

joined_tests {ℓ} :
    {A : Type ℓ} (a b c d : Bool) (x y : A)
    → (if not a then x else if b || c then x else if not d then x else y)
      ≡ (if not a || (b || (c || not d)) then x else y)
joined_tests a b c d x y = ground arith

module _ (statuses : ℕ → ℕ) (frame length : ℕ) (s : Nic) where
  put_frame-Handed :
      s.tx_cur < 8
      → (s.tx_buffers s.tx_cur ≤ frame) ⊎ (frame + length ≤ s.tx_buffers s.tx_cur)
      → Handed frame length s (put_frame frame length s)
  unfolding put_frame
  put_frame-Handed low ok =
      let turn : (s.tx_cur + 1) % 8 % 2 ^ 16 ≡ (s.tx_cur + 1) % 8 = omega arith in
      let word : (s.tx_cur + 1) % 8 % 2 ^ 16 % 2 ^ 32 ≡ (s.tx_cur + 1) % 8 = omega arith in
      let self : (s.tx_cur == s.tx_cur) ≡ true = ground arith in
      rw self (
        bytes_at-copied (s.tx_buffers s.tx_cur) frame length s.memory ok,
        refl,
        refl,
        refl,
        refl,
        λ i ne. update_ne s.tx_ring s.tx_cur i _ ne,
        λ x out. memcpy_lem (s.tx_buffers s.tx_cur) frame length s.memory x ok ∙ rw out refl,
        turn,
        ap (λ c. (0x3818, c) ∷ s.registers) word,
      )

  send_cases :
      Stays statuses
      → e1000_send statuses frame length s
        ≡ (if unsendable statuses length s then (false, s) else (true, put_frame frame length s))
  unfolding e1000_send
  send_cases stays =
      ap
        (λ b.
          if not s.card_present
          then (false, s)
          else if (length == 0) || ltb eth_frame_max length
          then (false, s)
          else if not b
          then (false, s)
          else (true, put_frame frame length s))
        (wait_free_lem statuses 1000000 0 stays)
      ∙ joined_tests s.card_present (length == 0) (ltb 1518 length) (is_done (statuses 1000000))
          (false, s) (true, put_frame frame length s)

  -- For a descriptor that stays free once it is, a current slot of the ring, and a frame that is not
  -- above the start of the slot's buffer by less than its length: e1000_send refuses and changes nothing
  -- where there is no card, the frame is empty or longer than 1518 bytes, or the descriptor is not free
  -- by the read behind the 1000000 polls; otherwise it reports success, the frame lies in the current
  -- slot's buffer, whose descriptor is handed to the card, and nothing else changes in the ring and in
  -- memory.
  pub send-Sent :
      Stays statuses
      → s.tx_cur < 8
      → (s.tx_buffers s.tx_cur ≤ frame) ⊎ (frame + length ≤ s.tx_buffers s.tx_cur)
      → Sent statuses frame length s (e1000_send statuses frame length s)
  send-Sent stays low ok =
      subst (Sent statuses frame length s) (sym (send_cases stays))
        (elim (Bool-cases (unsendable statuses length s)) [
          | inl refused ↦ rw refused (inl (refl, refl))
          | inr taken ↦ rw taken (inr (refl, refl, put_frame-Handed low ok))
        ])
