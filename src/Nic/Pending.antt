-- ===== src/Nic/Pending.antt =====
-- The frames that stand in the receive ring, and that giving a slot back leaves the others.
use gravityos.Base.{
  ℕ, ◌+◌, ◌%◌, ◌<◌, ◌≤◌, ◌≡◌, ◌⊎◌, refl, arith, true, false, List, [], ◌∷◌, ltb, ◌==◌, length, take,
  take_all, Bool-cases, inl, inr, ◌∙◌,
}
use gravityos.Strings.Listed.{bytes_at, bytes_at-kept}
use gravityos.Nic.{Nic, is_done, cut, take_frame}

-- From slot `c` on stand the frames `q`, and behind them a descriptor that the card still owns.
abbrev pub Pending : Nic → ℕ → List (List ℕ) → Type 0
Pending s c [] = is_done (s.rx_ring c).status ≡ false
Pending s c (f ∷ q) =
    (is_done (s.rx_ring c).status ≡ true)
    × ((s.rx_ring c).length ≡ length f)
    × (length f ≤ 2048)
    × (bytes_at s.memory (s.rx_buffers c) (length f) ≡ f)
    × Pending s ((c + 1) % 16) q

-- The buffer of the caller lies outside the buffers of the ring.
abbrev pub Apart : ℕ → ℕ → Nic → Type 0
Apart buffer size s =
    (i : ℕ) → i < 16 → (s.rx_buffers i + 2048 ≤ buffer) ⊎ (buffer + size ≤ s.rx_buffers i)

pub cut-le : (a b : ℕ) → (cut a b ≤ a) × (cut a b ≤ b)
cut-le a b = ground arith

pub take-min : (l : List ℕ) (size : ℕ) → take (cut (length l) size) l ≡ take size l
take-min l size = elim (Bool-cases (ltb size (length l))) [
  | inl less ↦ rw less refl
  | inr more ↦ rw (more, take_all (length l) l (omega arith), take_all size l (ground arith)) refl
]

module _ (buffer size : ℕ) where
  pub apart_copy :
      (b n : ℕ)
      → n ≤ 2048
      → (b + 2048 ≤ buffer) ⊎ (buffer + size ≤ b)
      → (buffer ≤ b) ⊎ (b + n ≤ buffer)
  apart_copy b n le h = ground arith

  apart_block :
      (b n k : ℕ)
      → n ≤ size
      → k ≤ 2048
      → (b + 2048 ≤ buffer) ⊎ (buffer + size ≤ b)
      → (b + k ≤ buffer) ⊎ (buffer + n ≤ b)
  apart_block b n k le lk h = ground arith

  -- Slots behind the current one are not touched when it is given back.
  pub Pending-kept :
      (s : Nic) (n : ℕ) (q : List (List ℕ)) (k : ℕ)
      → Apart buffer size s
      → s.rx_cur < 16
      → n ≤ size
      → n ≤ 2048
      → 1 ≤ k
      → k + length q ≤ 15
      → Pending s ((s.rx_cur + k) % 16) q
      → Pending (take_frame buffer n s).1 ((s.rx_cur + k) % 16) q
  unfolding take_frame
  Pending-kept s n [] k apart low ns nl k1 room p =
      let other : (s.rx_cur == ((s.rx_cur + k) % 16)) ≡ false = ground arith in rw other p
  Pending-kept s n (f ∷ q) k apart low ns nl k1 room (here, len, small, text, rest) =
      let c = (s.rx_cur + k) % 16 in
      let other : (s.rx_cur == c) ≡ false = ground arith in
      let next : (c + 1) % 16 ≡ (s.rx_cur + (k + 1)) % 16 = omega arith in
      let tail =
        Pending-kept s n q (k + 1) apart low ns nl (omega arith) (omega arith) (rw next at rest) in
      rw (other, next)
        (
          here,
          len,
          small,
          bytes_at-kept buffer (s.rx_buffers s.rx_cur) n s.memory (s.rx_buffers c) (length f)
                (apart_copy (s.rx_buffers s.rx_cur) n nl (apart s.rx_cur low))
                (apart_block (s.rx_buffers c) n (length f) ns small (apart c (omega arith)))
              ∙ text,
          tail,
        )
