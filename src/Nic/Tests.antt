-- ===== src/Nic/Tests.antt =====
-- A card whose ring holds two frames, round the ring's end.
use gravityos.Base.{ℕ, ◌+◌, ◌*◌, ◌%◌, refl, arith, true, List, [], ◌∷◌, ◌==◌, if◌then◌else◌, inl}
use gravityos.Nic.{Nic, e1000_send}
use gravityos.Nic.Receive.{Drained, drain, drain-Drained}
use gravityos.Nic.Send.{Sent, send-Sent}
use gravityos.Nic.Setup.{Answers, zero_rx, zero_tx}

abbrev two_waiting : Nic
two_waiting = record {
  card_present = true;
  mac_addr = λ i. i;
  rx_ring = λ i.
      if i == 15
      then record zero_rx { status = 3; length = 2 }
      else if i == 0
      then record zero_rx { status = 3; length = 1 }
      else zero_rx;
  tx_ring = λ _. zero_tx;
  rx_ring_phys = 0x1000;
  tx_ring_phys = 0x2000;
  rx_buffers = λ i. 0x100000 + i * 4096;
  tx_buffers = λ i. 0x200000 + i * 4096;
  tx_buffers_phys = λ i. 0x200000 + i * 4096;
  rx_cur = 15;
  tx_cur = 7;
  memory = λ x. x % 251;
  registers = [];
  vm = record { tables = λ t i. 0; supply = [] };
}

abbrev frames : List (List ℕ)
frames = ((0x10F000 % 251) ∷ (0x10F001 % 251) ∷ []) ∷ ((0x100000 % 251) ∷ []) ∷ []

drain-Drained_example : Drained 0x300000 1 two_waiting frames (drain 0x300000 1 2 two_waiting)
drain-Drained_example =
    drain-Drained 0x300000 1 two_waiting frames refl (omega arith) (λ i lt. inl (omega arith))
      (omega arith) (refl, refl, omega arith, refl, (refl, refl, omega arith, refl, refl))

send-Sent_example :
    Sent (λ _. 1) 0x300000 60 two_waiting (e1000_send (λ _. 1) 0x300000 60 two_waiting)
send-Sent_example =
    send-Sent (λ _. 1) 0x300000 60 two_waiting (λ i j le h. refl) (omega arith) (inl (omega arith))

-- A card in slot 3, with its registers at 0xFEB00000.
abbrev one_card : ℕ → ℕ
one_card address =
    if address == 0x80001800
    then 0x100E8086
    else if address == 0x80001810
    then 0xFEB00000
    else 0xFFFFFFFF

abbrev answers : Answers
answers = record { ctrl = 0; ral = 0x12005452; rah = 0x5634; eerd = λ i k. 16 }
