-- ===== src/Net/Stack/Tests.antt =====
-- Two stations, and packets for one of them.
use gravityos.Base.{
  ℕ, zero, suc, ◌+◌, ◌≡◌, refl, arith, true, false, [], ◌∷◌, some, length, get_or, replicate,
}
use gravityos.Net.{arp_cache_get}
use gravityos.Net.Stack.{Net, broadcast_mac, Resolve, send_arp, handle_frame}
use gravityos.Net.Stack.Exchange.{arrived, request, reply, resolves}

-- 10.0.2.`n` with a hardware address that ends in `n`.
abbrev station : ℕ → Net
station n = record {
  stack_ready = true;
  local_ip = 0x0A000200 + n;
  netmask = 0xFFFFFF00;
  gateway_ip = 0x0A000202;
  arp_cache = λ i. record { ip = 0; mac = replicate 6 0; valid = false };
  rx_count = 0;
  tx_count = 0;
  ping_wait_seq = 7;
  ping_wait_active = true;
  ping_got_reply = false;
  rx_frame = λ i. 0;
  mac = 0x52 ∷ 0x54 ∷ 0 ∷ 0 ∷ 0 ∷ n ∷ [];
  inbox = λ i. [];
  receives = 0;
  accepts = λ i. true;
  sends = 0;
  sent = [];
  ticks = λ i. i;
  tick_reads = 0;
}

abbrev found : Resolve
found ip s = some (some (0x52 ∷ 0x54 ∷ 0 ∷ 0 ∷ 0 ∷ 3 ∷ []), s)

resolves_example :
    ((send_arp 1 broadcast_mac 0x0A000203 (station 15)).sent
      ≡ request (station 15) (station 3) ∷ [])
    × ((b' : Net) × (handle_frame found
            (length (request (station 15) (station 3)))
            (arrived (request (station 15) (station 3)) (station 3))
          ≡ some b')
        × (arp_cache_get b'.arp_cache 0x0A00020F ≡ some (station 15).mac)
        × (b'.sent ≡ reply (station 15) (station 3) ∷ []))
    × ((a' : Net) × (handle_frame found (length (reply (station 15) (station 3))) (
            arrived
              (reply (station 15) (station 3))
              (send_arp 1 broadcast_mac 0x0A000203 (station 15)))
          ≡ some a')
        × (arp_cache_get a'.arp_cache 0x0A000203 ≡ some (station 3).mac))
resolves_example =
    resolves found (station 15) (station 3) refl refl (omega arith) (omega arith) refl refl

-- A packet to 10.0.2.3 with the total length 0, and the reply to echo 7 behind its header.
abbrev short_packet : ℕ → ℕ
short_packet i =
    get_or
      (0x45 ∷ 0 ∷ 0 ∷ 0 ∷ 0 ∷ 0 ∷ 0 ∷ 0 ∷ 64 ∷ 1 ∷ 0 ∷ 0 ∷ 10 ∷ 0 ∷ 2 ∷ 9 ∷ 10 ∷ 0 ∷ 2 ∷ 3 ∷ 0 ∷ 0
        ∷ 0 ∷ 0 ∷ 0 ∷ 0 ∷ 0 ∷ 7 ∷ [])
      i 0

-- An echo request of bytes 8 and 0.
abbrev echo : ℕ → ℕ
echo zero = 8
echo (suc i) = 0
