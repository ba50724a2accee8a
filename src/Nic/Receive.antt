-- ===== src/Nic/Receive.antt =====
-- The receive ring as a queue of frames.
use gravityos.Base.{
  ℕ, zero, suc, ◌+◌, ◌%◌, ◌<◌, ◌≤◌, ◌≡◌, refl, arith, Bool, true, false, List, [], ◌∷◌, not, ◌==◌,
  if◌then◌else◌, map, length, take, ◌^◌, ℕ_discrete, ap, ap₂, sym, ◌∙◌, subst,
}
use gravityos.Strings.Listed.{bytes_at, take-bytes_at, bytes_at-copied}
use gravityos.Nic.{Nic, is_done, cut, take_frame, e1000_receive}
use gravityos.Nic.Pending.{Pending, Apart, cut-le, take-min, apart_copy, Pending-kept}

-- What a call of the driver gives where the frame `f` stands in front of the frames `q`.
abbrev pub Received : ℕ → ℕ → Nic → List ℕ → List (List ℕ) → ℕ × Nic → Type 0
Received buffer size s f q r =
    (r.0 ≡ cut (length f) size)
    × (bytes_at r.1.memory buffer r.0 ≡ take size f)
    × Pending r.1 r.1.rx_cur q
    × (r.1.rx_cur ≡ (s.rx_cur + 1) % 16)
    × (r.1.registers ≡ ((0x2818, s.rx_cur) ∷ s.registers))
    × (r.1.rx_buffers ≡ s.rx_buffers)
    × (r.1.card_present ≡ true)
    × (is_done (r.1.rx_ring s.rx_cur).status ≡ false)

-- The branches of e1000_receive, by its two tests.
unfoldable choose : ℕ → ℕ → Nic → Bool → Bool → ℕ → ℕ × Nic
choose buffer size s on here n =
    if not on then (0, s) else if not here then (0, s) else take_frame buffer (cut n size) s

receive_cases :
    (buffer size : ℕ) (s : Nic) (on here : Bool) (n : ℕ)
    → s.card_present ≡ on
    → is_done (s.rx_ring s.rx_cur).status ≡ here
    → (s.rx_ring s.rx_cur).length ≡ n
    → e1000_receive buffer size s ≡ choose buffer size s on here n
unfolding e1000_receive choose
receive_cases buffer size s on here n e1 e2 e3 =
    ap
      (λ b.
        choose buffer size s b (is_done (s.rx_ring s.rx_cur).status) (s.rx_ring s.rx_cur).length)
      e1
    ∙ ap₂ (choose buffer size s on) e2 e3

module _ (buffer size : ℕ) (s : Nic) (f : List ℕ) (q : List (List ℕ)) where
  take_frame-Received :
      s.card_present ≡ true
      → s.rx_cur < 16
      → Apart buffer size s
      → length q < 15
      → Pending s s.rx_cur (f ∷ q)
      → Received buffer size s f q (take_frame buffer (cut (length f) size) s)
  unfolding take_frame
  take_frame-Received on low apart room (here, len, small, text, rest) =
      let n = cut (length f) size in
      let (short, fits) = cut-le (length f) size in
      let turn : (s.rx_cur + 1) % 16 % 2 ^ 16 ≡ (s.rx_cur + 1) % 16 = omega arith in
      let same : s.rx_cur % 2 ^ 32 ≡ s.rx_cur = omega arith in
      let behind =
        Pending-kept buffer size s n q 1 apart low fits (omega arith) (omega arith) (omega arith)
          rest in
      (
        refl,
        bytes_at-copied buffer (s.rx_buffers s.rx_cur) n s.memory
              (apart_copy buffer size (s.rx_buffers s.rx_cur) n (omega arith) (apart s.rx_cur low))
            ∙ take-bytes_at s.memory (s.rx_buffers s.rx_cur) (length f) n short
            ∙ ap (take n) text
            ∙ take-min f size,
        subst (λ c. Pending (take_frame buffer n s).1 c q) (sym turn) behind,
        turn,
        ap (λ c. (0x2818, c) ∷ s.registers) same,
        refl,
        on,
        let self : (s.rx_cur == s.rx_cur) ≡ true = ground arith in rw self refl,
      )

  -- Where the card is there and fewer than sixteen frames stand from the current slot on, the first in
  -- front, and the caller's buffer lies outside the ring's, e1000_receive gives the first frame, cut to
  -- the buffer's size; the others stand from the next slot on, and the slot is handed back to the card.
  pub receive-Received :
      s.card_present ≡ true
      → s.rx_cur < 16
      → Apart buffer size s
      → length q < 15
      → Pending s s.rx_cur (f ∷ q)
      → Received buffer size s f q (e1000_receive buffer size s)
  unfolding choose
  receive-Received on low apart room (here, len, small, text, rest) =
      subst (Received buffer size s f q)
        (sym (receive_cases buffer size s true true (length f) on here len))
        (take_frame-Received on low apart room (here, len, small, text, rest))

-- The caller's loop: the frames of `n` calls.
pub drain : ℕ → ℕ → ℕ → Nic → List (List ℕ) × Nic
drain buffer size zero s = ([], s)
drain buffer size (suc n) s =
    let (len, s') = e1000_receive buffer size s in
    let (rest, s'') = drain buffer size n s' in (bytes_at s'.memory buffer len ∷ rest, s'')

-- A slot without a frame stays so.
receive_empty :
    (buffer size : ℕ) (s : Nic) (j : ℕ)
    → is_done (s.rx_ring j).status ≡ false
    → is_done ((e1000_receive buffer size s).1.rx_ring j).status ≡ false
unfolding choose take_frame
receive_empty buffer size s j empty =
    let on = s.card_present in
    let here = is_done (s.rx_ring s.rx_cur).status in
    let n = (s.rx_ring s.rx_cur).length in
    subst (λ (r : ℕ × Nic). is_done (r.1.rx_ring j).status ≡ false)
      (sym (receive_cases buffer size s on here n refl refl refl)) (branches on here n)
  where
    branches :
        (on here : Bool) (n : ℕ)
        → is_done ((choose buffer size s on here n).1.rx_ring j).status ≡ false
    branches false here n = empty
    branches true false n = empty
    branches true true n = elim (ℕ_discrete s.rx_cur j) [
      | yes e ↦ let same : (s.rx_cur == j) ≡ true = ground arith in rw same refl
      | no ne ↦ let other : (s.rx_cur == j) ≡ false = ground arith in rw other empty
    ]

drain_empty :
    (buffer size n : ℕ) (s : Nic) (j : ℕ)
    → is_done (s.rx_ring j).status ≡ false
    → is_done ((drain buffer size n s).1.rx_ring j).status ≡ false
unfolding drain
drain_empty buffer size zero s j empty = empty
drain_empty buffer size (suc n) s j empty =
    drain_empty buffer size n (e1000_receive buffer size s).1 j
      (receive_empty buffer size s j empty)

-- The indexes that are handed back for `n` frames from slot `c` on, the last first.
abbrev pub handed_back : ℕ → ℕ → List (ℕ × ℕ) → List (ℕ × ℕ)
handed_back c zero log = log
handed_back c (suc n) log = handed_back ((c + 1) % 16) n ((0x2818, c) ∷ log)

-- The outcome of draining the ring.
abbrev pub Drained : ℕ → ℕ → Nic → List (List ℕ) → List (List ℕ) × Nic → Type 0
Drained buffer size s q r =
    (r.0 ≡ map (take size) q)
    × (r.1.registers ≡ handed_back s.rx_cur (length q) s.registers)
    × (e1000_receive buffer size r.1 ≡ (0, r.1))
    × ((i : ℕ) → i < length q → is_done (r.1.rx_ring ((s.rx_cur + i) % 16)).status ≡ false)

-- Where the card is there, fewer than sixteen frames stand from the current slot on, and the caller's
-- buffer lies outside the ring's: as many calls of e1000_receive as there are frames give them in the
-- order in which they stand, each cut to the buffer's size, and hand their slots back to the card in
-- that order, empty; one call more gives nothing and changes nothing.
pub drain-Drained :
    (buffer size : ℕ) (s : Nic) (q : List (List ℕ))
    → s.card_present ≡ true
    → s.rx_cur < 16
    → Apart buffer size s
    → length q ≤ 15
    → Pending s s.rx_cur q
    → Drained buffer size s q (drain buffer size (length q) s)
unfolding drain choose
drain-Drained buffer size s [] on low apart room p = (
  refl,
  refl,
  receive_cases buffer size s true false (s.rx_ring s.rx_cur).length on p refl,
  λ i lt. absurd (omega arith),
)
drain-Drained buffer size s (f ∷ q) on low apart room p =
    let r = e1000_receive buffer size s in
    let (len, text, behind, turn, log, same, on', emptied) =
      receive-Received buffer size s f q on low apart (omega arith) p in
    let apart' : Apart buffer size r.1 = λ i lt. rw same (apart i lt) in
    let (rest, handed, nothing, empty) =
      drain-Drained buffer size r.1 q on' (rw turn (omega arith)) apart' (omega arith) behind in
    (
      ap₂ (λ x xs. x ∷ xs) text rest,
      handed ∙ ap₂ (λ c l. handed_back c (length q) l) turn log,
      nothing,
      λ i lt. slots i lt turn emptied empty,
    )
  where
    slots :
        (i : ℕ)
        → i < suc (length q)
        → let r = e1000_receive buffer size s in
          let u = (drain buffer size (length q) r.1).1 in
          (r.1.rx_cur ≡ (s.rx_cur + 1) % 16)
          → (is_done (r.1.rx_ring s.rx_cur).status ≡ false)
          → ((k : ℕ) → k < length q → is_done (u.rx_ring ((r.1.rx_cur + k) % 16)).status ≡ false)
          → is_done (u.rx_ring ((s.rx_cur + i) % 16)).status ≡ false
    slots zero lt turn emptied empty =
        let first : (s.rx_cur + 0) % 16 ≡ s.rx_cur = omega arith in
        let r = e1000_receive buffer size s in
        subst (λ j. is_done ((drain buffer size (length q) r.1).1.rx_ring j).status ≡ false)
          (sym first) (drain_empty buffer size (length q) r.1 s.rx_cur emptied)
    slots (suc i) lt turn emptied empty =
        let r = e1000_receive buffer size s in
        let later : (r.1.rx_cur + i) % 16 ≡ (s.rx_cur + suc i) % 16 = omega arith in
        subst (λ j. is_done ((drain buffer size (length q) r.1).1.rx_ring j).status ≡ false) later
          (empty i (omega arith))
