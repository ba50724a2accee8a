-- ===== src/Net/Stack/Exchange.antt =====
-- Asking for an address: a request, the reply of the station that has it, and what both learn.
use gravityos.Base.{
  ℕ, ◌+◌, ◌*◌, ◌/◌, ◌%◌, ◌^◌, ◌<◌, ◌≤◌, ◌≡◌, refl, arith, true, false, ◌&&◌, List, [], ◌∷◌, some,
  ltb, ◌==◌, if◌then◌else◌, length, get_or, ◌∙◌,
}
use gravityos.Net.{htons, htonl, arp_cache_put, arp_cache_get}
use gravityos.Net.Arp.{arp_cache_get-put}
use gravityos.Net.Stack.{
  Net, broadcast_mac, read16, read32, read_bytes, frame_of, arp_packet, send_frame, card_send,
  send_arp, Resolve, handle_arp, handle_frame,
}

-- A frame in the buffer.
abbrev pub arrived : List ℕ → Net → Net
arrived frame s = record s { rx_frame = λ i. get_or frame i 0 }

abbrev IsSix : List ℕ → Type 0
IsSix l = (a b c d e f : ℕ) × (l ≡ a ∷ b ∷ c ∷ d ∷ e ∷ f ∷ [])

bytes-IsSix : (l : List ℕ) → length l ≡ 6 → IsSix l
bytes-IsSix (a ∷ b ∷ c ∷ d ∷ e ∷ f ∷ []) h = (a, b, c, d, e, f, refl)
bytes-IsSix [] h = absurd (omega arith)
bytes-IsSix (a ∷ []) h = absurd (omega arith)
bytes-IsSix (a ∷ b ∷ []) h = absurd (omega arith)
bytes-IsSix (a ∷ b ∷ c ∷ []) h = absurd (omega arith)
bytes-IsSix (a ∷ b ∷ c ∷ d ∷ []) h = absurd (omega arith)
bytes-IsSix (a ∷ b ∷ c ∷ d ∷ e ∷ []) h = absurd (omega arith)
bytes-IsSix (a ∷ b ∷ c ∷ d ∷ e ∷ f ∷ g ∷ l) h = absurd (omega arith)

-- A value that was stored in network order reads back.
htonl_stored :
    (v : ℕ)
    → v < 2 ^ 32
    → htonl (
        htonl v % 2 ^ 8
        + htonl v / 2 ^ 8 % 2 ^ 8 * 2 ^ 8
        + htonl v / 2 ^ 16 % 2 ^ 8 * 2 ^ 16
        + htonl v / 2 ^ 24 % 2 ^ 8 * 2 ^ 24)
      ≡ v
htonl_stored v h = omega arith

-- What a station reads in a frame that carries an ARP packet.
abbrev Carries : List ℕ → ℕ → List ℕ → ℕ → ℕ → Type 0
Carries frame opcode sender_mac sender_ip target_ip =
    let f = λ (i : ℕ). get_or frame (14 + i) 0 in
    (length frame ≡ 60)
    × (htons (read16 (λ i. get_or frame i 0) 12) ≡ 0x0806)
    × (htons (read16 f 6) ≡ opcode)
    × (read_bytes f 8 6 ≡ sender_mac)
    × (htonl (read32 f 14) ≡ sender_ip)
    × (htonl (read32 f 24) ≡ target_ip)

pub arp_frame : List ℕ → List ℕ → ℕ → List ℕ → ℕ → ℕ → List ℕ
arp_frame dst src opcode target_mac sender_ip target_ip =
    frame_of dst src 0x0806 (arp_packet opcode src sender_ip target_mac target_ip)

frame-Carries :
    (dst src target_mac : List ℕ) (opcode sender_ip target_ip : ℕ)
    → length dst ≡ 6
    → length src ≡ 6
    → length target_mac ≡ 6
    → opcode < 2 ^ 16
    → sender_ip < 2 ^ 32
    → target_ip < 2 ^ 32
    → Carries
        (arp_frame dst src opcode target_mac sender_ip target_ip)
        opcode
        src
        sender_ip
        target_ip
unfolding arp_frame
frame-Carries dst src target_mac opcode sender_ip target_ip hd hs ht ho hi hj =
    let (d0, d1, d2, d3, d4, d5, ed) = bytes-IsSix dst hd in
    let (s0, s1, s2, s3, s4, s5, es) = bytes-IsSix src hs in
    let (t0, t1, t2, t3, t4, t5, et) = bytes-IsSix target_mac ht in
    rw (ed, es, et)
      (refl, refl, omega arith, refl, htonl_stored sender_ip hi, htonl_stored target_ip hj)

length-arp_packet :
    (opcode : ℕ) (sender_mac : List ℕ) (sender_ip : ℕ) (target_mac : List ℕ) (target_ip : ℕ)
    → length sender_mac ≡ 6
    → length target_mac ≡ 6
    → length (arp_packet opcode sender_mac sender_ip target_mac target_ip) ≡ 28
length-arp_packet opcode sender_mac sender_ip target_mac target_ip hs ht =
    let (s0, s1, s2, s3, s4, s5, es) = bytes-IsSix sender_mac hs in
    let (t0, t1, t2, t3, t4, t5, et) = bytes-IsSix target_mac ht in rw (es, et) refl

-- Sending on a card that takes the frame.
abbrev pub Sends : Net → List ℕ → Net → Type 0
Sends s frame s' =
    (s'.sent ≡ frame ∷ s.sent)
    × (s'.arp_cache ≡ s.arp_cache)
    × (s'.tx_count ≡ (s.tx_count + 1) % 2 ^ 32)

pub send_frame-Sends :
    (dst : List ℕ) (ether_type : ℕ) (payload : List ℕ) (s : Net)
    → length payload ≤ 1504
    → s.accepts s.sends ≡ true
    → Sends s (frame_of dst s.mac ether_type payload) (send_frame dst ether_type payload s).1
unfolding send_frame card_send
send_frame-Sends dst ether_type payload s small on =
    let fits : ltb 1518 (length payload + 14) ≡ false = ground arith in
    rw (fits, on) (refl, refl, refl)

send_arp-Sends :
    (opcode : ℕ) (target_mac : List ℕ) (target_ip : ℕ) (s : Net)
    → length s.mac ≡ 6
    → length target_mac ≡ 6
    → s.accepts s.sends ≡ true
    → Sends s
        (arp_frame
          (if opcode == 1 then broadcast_mac else target_mac)
          s.mac
          opcode
          target_mac
          s.local_ip
          target_ip)
        (send_arp opcode target_mac target_ip s)
unfolding send_arp arp_frame
send_arp-Sends opcode target_mac target_ip s hm ht on =
    let len = length-arp_packet opcode s.mac s.local_ip target_mac target_ip hm ht in
    send_frame-Sends (if opcode == 1 then broadcast_mac else target_mac) 0x0806
      (arp_packet opcode s.mac s.local_ip target_mac target_ip) s (rw len (omega arith)) on

-- The state once the sender of a packet is in the table.
abbrev learned : List ℕ → ℕ → List ℕ → Net → Net
learned frame ip mac s = record (arrived frame s) {
  rx_count = (s.rx_count + 1) % 2 ^ 32;
  arp_cache = arp_cache_put s.arp_cache ip mac;
}

handle_frame-Carries :
    (resolve : Resolve) (frame : List ℕ) (opcode : ℕ) (sender_mac : List ℕ)
    (sender_ip target_ip : ℕ) (s : Net)
    → Carries frame opcode sender_mac sender_ip target_ip
    → handle_frame resolve (length frame) (arrived frame s)
      ≡ some (
          if (opcode == 1) && (target_ip == s.local_ip)
          then send_arp 2 sender_mac sender_ip (learned frame sender_ip sender_mac s)
          else learned frame sender_ip sender_mac s)
unfolding handle_frame handle_arp
handle_frame-Carries resolve frame opcode sender_mac sender_ip target_ip s
      (len, kind, op, mac, sip, tip) =
    rw (len, kind, op, mac, sip, tip) refl

-- The request of `a` for the address of `b`, and the reply of `b`.
abbrev pub request : Net → Net → List ℕ
request a b = arp_frame broadcast_mac a.mac 1 broadcast_mac a.local_ip b.local_ip

abbrev pub reply : Net → Net → List ℕ
reply a b = arp_frame a.mac b.mac 2 a.mac b.local_ip a.local_ip

module _ (resolve : Resolve) (a b : Net) (mac_a : length a.mac ≡ 6) (mac_b : length b.mac ≡ 6)
    (ip_a : a.local_ip < 2 ^ 32) (ip_b : b.local_ip < 2 ^ 32) (takes_a : a.accepts a.sends ≡ true)
    (takes_b : b.accepts b.sends ≡ true) where
  -- A station whose card takes each frame asks for the address of another one: the other learns its
  -- addresses and sends a reply, and with the reply the station learns what it asked for.
  pub resolves :
      ((send_arp 1 broadcast_mac b.local_ip a).sent ≡ request a b ∷ a.sent)
      × ((b' : Net) × (handle_frame resolve (length (request a b)) (arrived (request a b) b)
            ≡ some b')
          × (arp_cache_get b'.arp_cache a.local_ip ≡ some a.mac)
          × (b'.sent ≡ reply a b ∷ b.sent))
      × ((a' : Net) × (handle_frame resolve
              (length (reply a b))
              (arrived (reply a b) (send_arp 1 broadcast_mac b.local_ip a))
            ≡ some a')
          × (arp_cache_get a'.arp_cache b.local_ip ≡ some b.mac))
  resolves =
      let (asked, _, _) = send_arp-Sends 1 broadcast_mac b.local_ip a mac_a refl takes_a in
      let first =
        frame-Carries broadcast_mac a.mac broadcast_mac 1 a.local_ip b.local_ip refl mac_a refl
          (omega arith) ip_a ip_b in
      let second =
        frame-Carries a.mac b.mac a.mac 2 b.local_ip a.local_ip mac_a mac_b mac_a (omega arith) ip_b
          ip_a in
      let knows = learned (request a b) a.local_ip a.mac b in
      let a1 = send_arp 1 broadcast_mac b.local_ip a in
      let (answered, kept, _) = send_arp-Sends 2 a.mac a.local_ip knows mac_b mac_a takes_b in
      let ours : (b.local_ip == b.local_ip) ≡ true = ground arith in
      (
        asked,
        (
          send_arp 2 a.mac a.local_ip knows,
          handle_frame-Carries resolve (request a b) 1 a.mac a.local_ip b.local_ip b first
              ∙ rw ours refl,
          rw kept (arp_cache_get-put b.arp_cache a.local_ip a.mac),
          answered,
        ),
        (
          learned (reply a b) b.local_ip b.mac a1,
          handle_frame-Carries resolve (reply a b) 2 b.mac b.local_ip a.local_ip a1 second,
          arp_cache_get-put a1.arp_cache b.local_ip b.mac,
        ),
      )
