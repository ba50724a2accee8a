-- ===== src/Net/Stack.antt =====
-- net/net.c: the state of the stack, sending, and the handlers of what arrives. The network card and
-- the timer are not the stack's: `inbox`, `accepts` and `ticks` say what each call of e1000_receive,
-- e1000_send and timer_get_ticks gives, in their order, and `sent` keeps the frames that the card took,
-- the last one first. Fields of a packet are read and written at their offsets.
pub mod Exchange
pub mod Packets
mod Tests
use gravityos.Base.{
  ℕ, zero, suc, ◌+◌, ◌-◌, ◌*◌, ◌/◌, ◌%◌, ◌^◌, Bool, true, false, not, ◌&&◌, ◌||◌, List, [], ◌∷◌,
  ◌++◌, Option, none, some, ltb, leb, ◌==◌, if◌then◌else◌, length, take, get_or, replicate,
}
use Prim.Native.Nat.{bit_and}
use gravityos.Base.Int.{ℤ, pos, negsuc}
use gravityos.Net.{htons, htonl, checksum16, ArpEntry, ArpCache, arp_cache_put, arp_cache_get}

-- The static variables, and the card's and the timer's part.
pub record Net : Type 0 where
  pub stack_ready : Bool
  pub local_ip : ℕ
  pub netmask : ℕ
  pub gateway_ip : ℕ
  pub arp_cache : ArpCache
  pub rx_count : ℕ
  pub tx_count : ℕ
  pub ping_wait_seq : ℕ
  pub ping_wait_active : Bool
  pub ping_got_reply : Bool
  pub rx_frame : ℕ → ℕ
  pub mac : List ℕ
  pub inbox : ℕ → List ℕ
  pub receives : ℕ
  pub accepts : ℕ → Bool
  pub sends : ℕ
  pub sent : List (List ℕ)
  pub ticks : ℕ → ℕ
  pub tick_reads : ℕ

abbrev pub broadcast_mac : List ℕ
broadcast_mac = replicate 6 0xFF

-- A uint16_t and a uint32_t in memory.
abbrev pub bytes16 : ℕ → List ℕ
bytes16 v = v % 2 ^ 8 ∷ v / 2 ^ 8 % 2 ^ 8 ∷ []

abbrev pub bytes32 : ℕ → List ℕ
bytes32 v = v % 2 ^ 8 ∷ v / 2 ^ 8 % 2 ^ 8 ∷ v / 2 ^ 16 % 2 ^ 8 ∷ v / 2 ^ 24 % 2 ^ 8 ∷ []

abbrev pub read16 : (ℕ → ℕ) → ℕ → ℕ
read16 f o = f o + f (o + 1) * 2 ^ 8

abbrev pub read32 : (ℕ → ℕ) → ℕ → ℕ
read32 f o = f o + f (o + 1) * 2 ^ 8 + f (o + 2) * 2 ^ 16 + f (o + 3) * 2 ^ 24

-- `n` bytes of an array from `o` on.
abbrev pub read_bytes : (ℕ → ℕ) → ℕ → ℕ → List ℕ
read_bytes f o zero = []
read_bytes f o (suc n) = f o ∷ read_bytes f (o + 1) n

abbrev pub net_set_ip : ℕ → ℕ → ℕ → Net → Net
net_set_ip ip mask gw s = record s { local_ip = ip; netmask = mask; gateway_ip = gw }

-- e1000_send: whether the card took the frame.
pub card_send : List ℕ → Net → Bool × Net
card_send frame s =
    if s.accepts s.sends
    then (true, record s { sends = s.sends + 1; sent = frame ∷ s.sent })
    else (false, record s { sends = s.sends + 1 })

abbrev pub count_sent : Bool × Net → Bool × Net
count_sent (true, s) = (true, record s { tx_count = (s.tx_count + 1) % 2 ^ 32 })
count_sent (false, s) = (false, s)

-- The header, the payload, and zeros up to 60 bytes.
abbrev pub frame_of : List ℕ → List ℕ → ℕ → List ℕ → List ℕ
frame_of dst src ether_type payload =
    dst ++ (src ++ (bytes16 (htons ether_type) ++ (payload ++ replicate (46 - length payload) 0)))

-- `true` stands for the result 0.
pub send_frame : List ℕ → ℕ → List ℕ → Net → Bool × Net
send_frame dst ether_type payload s =
    if ltb 1518 (length payload + 14)
    then (false, s)
    else count_sent (card_send (frame_of dst s.mac ether_type payload) s)

abbrev pub arp_packet : ℕ → List ℕ → ℕ → List ℕ → ℕ → List ℕ
arp_packet opcode sender_mac sender_ip target_mac target_ip =
    bytes16 (htons 1)
    ++ (bytes16 (htons 0x0800)
        ++ (6
            ∷ 4
            ∷ (bytes16 (htons opcode)
                ++ (sender_mac
                    ++ (bytes32 (htonl sender_ip) ++ (target_mac ++ bytes32 (htonl target_ip)))))))

pub send_arp : ℕ → List ℕ → ℕ → Net → Net
send_arp opcode target_mac target_ip s =
    let packet = arp_packet opcode s.mac s.local_ip target_mac target_ip in
    (send_frame (if opcode == 1 then broadcast_mac else target_mac) 0x0806 packet s).1

-- checksum16 comes to an end on every block.
abbrev pub sum16 : List ℕ → ℕ
sum16 bytes = elim (checksum16 bytes) [ none ↦ 0 | some sum ↦ sum ]

-- The header with a value in its checksum field, in memory's order.
abbrev pub ip_header : ℕ → ℕ → ℕ → ℕ → ℕ → List ℕ
ip_header total protocol sum src dst =
    0x45
    ∷ 0
    ∷ (bytes16 (htons total)
        ++ (bytes16 (htons 0)
            ++ (bytes16 (htons 0x4000)
                ++ (64
                    ∷ protocol
                    ∷ (bytes16 sum ++ (bytes32 (htonl src) ++ bytes32 (htonl dst)))))))

abbrev pub ip_packet : ℕ → ℕ → ℕ → List ℕ → List ℕ
ip_packet protocol src dst payload =
    let total = (20 + length payload) % 2 ^ 16 in
    let sum = sum16 (ip_header total protocol 0 src dst) in
    ip_header total protocol (htons sum) src dst ++ payload

-- A destination outside the network is reached through the gateway.
abbrev pub next_hop : ℕ → Net → ℕ
next_hop dst_ip s =
    if bit_and dst_ip s.netmask == bit_and s.local_ip s.netmask then dst_ip else s.gateway_ip

-- net_arp_resolve: the outer `none` where the fuel ran out.
abbrev pub Resolve : Type 0
Resolve = ℕ → Net → Option (Option (List ℕ) × Net)

pub send_resolved : List ℕ → Option (Option (List ℕ) × Net) → Option (Bool × Net)
send_resolved packet none = none
send_resolved packet (some (none, s)) = some (false, s)
send_resolved packet (some (some dst_mac, s)) = some (send_frame dst_mac 0x0800 packet s)

pub send_ipv4 : Resolve → ℕ → ℕ → List ℕ → Net → Option (Bool × Net)
send_ipv4 resolve dst_ip protocol payload s =
    if ltb 1500 (20 + length payload)
    then some (false, s)
    else send_resolved (ip_packet protocol s.local_ip dst_ip payload)
        (resolve (next_hop dst_ip s) s)

-- The handlers take the bytes from their payload on, and its length.
pub handle_arp : (ℕ → ℕ) → ℕ → Net → Net
handle_arp f len s =
    let sender_ip = htonl (read32 f 14) in
    let sender_mac = read_bytes f 8 6 in
    let s' = record s { arp_cache = arp_cache_put s.arp_cache sender_ip sender_mac } in
    if ltb len 28
    then s
    else if (htons (read16 f 6) == 1) && (htonl (read32 f 24) == s.local_ip)
    then send_arp 2 sender_mac sender_ip s'
    else s'

-- The echo reply: the request's bytes with type 0 and a new checksum.
abbrev pub echo_reply : (ℕ → ℕ) → ℕ → List ℕ
echo_reply f len =
    let body = read_bytes f 4 (len - 4) in
    let sum = sum16 (0 ∷ f 1 ∷ (0 ∷ 0 ∷ body)) in 0 ∷ f 1 ∷ (bytes16 (htons sum) ++ body)

abbrev pub only_state : Option (Bool × Net) → Option Net
only_state none = none
only_state (some (done, s)) = some s

pub handle_icmp : Resolve → ℕ → (ℕ → ℕ) → ℕ → Net → Option Net
handle_icmp resolve src_ip f len s =
    if ltb len 8
    then some s
    else if f 0 == 0
    then some (
        if s.ping_wait_active && (htons (read16 f 6) == s.ping_wait_seq)
        then record s { ping_got_reply = true }
        else s)
    else if not (f 0 == 8)
    then some s
    else if ltb 1500 len
    then some s
    else only_state (send_ipv4 resolve src_ip 1 (echo_reply f len) s)

pub handle_ipv4 : Resolve → (ℕ → ℕ) → ℕ → Net → Option Net
handle_ipv4 resolve f len s =
    let header_len = f 0 % 16 * 4 in
    let total = htons (read16 f 2) in
    let total_len = if ltb len total then len else total in
    let inner_len = (total_len + 2 ^ 16 - header_len) % 2 ^ 16 in
    if ltb len 20
    then some s
    else if not (f 0 / 16 == 4)
    then some s
    else if ltb header_len 20 || ltb len header_len
    then some s
    else if not (htonl (read32 f 16) == s.local_ip)
    then some s
    else if f 9 == 1
    then handle_icmp resolve (htonl (read32 f 12)) (λ i. f (header_len + i)) inner_len s
    else some s

-- e1000_receive into rx_frame: the bytes behind a frame are those of before.
pub receive : Net → ℕ × Net
receive s =
    let frame = take 1518 (s.inbox s.receives) in
    (
      length frame,
      record s {
        receives = s.receives + 1;
        rx_frame = λ i. if ltb i (length frame) then get_or frame i 0 else s.rx_frame i;
      },
    )

pub handle_frame : Resolve → ℕ → Net → Option Net
handle_frame resolve len s =
    let ether_type = htons (read16 s.rx_frame 12) in
    let payload = λ (i : ℕ). s.rx_frame (14 + i) in
    let s' = record s { rx_count = (s.rx_count + 1) % 2 ^ 32 } in
    if ltb len 14
    then some s'
    else if ether_type == 0x0806
    then some (handle_arp payload (len - 14) s')
    else if ether_type == 0x0800
    then handle_ipv4 resolve payload (len - 14) s'
    else some s'

-- The loop of net_poll; `none`: the fuel ran out, here or in what a handler waits for.
pub poll_loop : ℕ → Resolve → Net → Option Net
poll_loop zero resolve s = none
poll_loop (suc fuel) resolve s =
    let (len, s') = receive s in
    let rest : Option Net = elim (handle_frame resolve len s') [
      | none ↦ none
      | some s'' ↦ poll_loop fuel resolve s''
    ] in
    if len == 0 then some s' else rest

pub net_poll : ℕ → Resolve → Net → Option Net
net_poll fuel resolve s = if s.stack_ready then poll_loop fuel resolve s else some s

-- timer_get_ticks.
abbrev pub read_ticks : Net → ℕ × Net
read_ticks s = (s.ticks s.tick_reads, record s { tick_reads = s.tick_reads + 1 })

-- Poll until the deadline, or until `done` has a result.
pub wait_until :
    {A : Type 0} → ℕ → (Net → Option Net) → (Net → Option A) → ℕ → Net → Option (Option A × Net)
wait_until {A} zero poll done deadline s = none
wait_until {A} (suc fuel) poll done deadline s =
    let (now, s') = read_ticks s in
    let rest : Option (Option A × Net) = elim (poll s') [
      | none ↦ none
      | some s'' ↦
          let again = wait_until fuel poll done deadline s'' in
          elim (done s'') [ some a ↦ some (some a, s'') | none ↦ again ]
    ] in
    if ltb now deadline then rest else some (none, s')

-- The attempts that are left; each waits for 20 ticks.
pub attempts : ℕ → (Net → Option Net) → ℕ → ℕ → Net → Option (Option (List ℕ) × Net)
attempts fuel poll zero ip s = some (none, s)
attempts fuel poll (suc n) ip s =
    let (now, s') = read_ticks (send_arp 1 broadcast_mac ip s) in
    elim (wait_until fuel poll (λ t. arp_cache_get t.arp_cache ip) ((now + 20) % 2 ^ 64) s') [
      | none ↦ none
      | some (o, s'') ↦ elim o [
        | some found ↦ some (some found, s'')
        | none ↦ attempts fuel poll n ip s''
      ]
    ]

-- A handler that polls may wait for an address in its turn: each call inside has less fuel.
pub net_arp_resolve : ℕ → ℕ → Net → Option (Option (List ℕ) × Net)
net_arp_resolve zero ip s = none
net_arp_resolve (suc fuel) ip s = elim (arp_cache_get s.arp_cache ip) [
  | some found ↦ some (some found, s)
  | none ↦ attempts fuel (net_poll fuel (net_arp_resolve fuel)) 3 ip s
]

-- `if (ping_got_reply)`.
abbrev pub replied : Net → Option Bool
replied s = if s.ping_got_reply then some true else none

abbrev pub ping_header : ℕ → ℕ → List ℕ
ping_header sum sequence =
    8 ∷ 0 ∷ (bytes16 sum ++ (bytes16 (htons 0x4756) ++ bytes16 (htons sequence)))

-- The pattern behind the header, `n` bytes from place `i` on.
abbrev pub ping_pattern : ℕ → ℕ → List ℕ
ping_pattern zero i = []
ping_pattern (suc n) i = (b'a' + i % 26) ∷ ping_pattern n (i + 1)

abbrev pub ping_packet : ℕ → List ℕ
ping_packet sequence =
    let sum = sum16 (ping_header 0 sequence ++ ping_pattern 56 8) in
    ping_header (htons sum) sequence ++ ping_pattern 56 8

-- A uint64_t as an int.
abbrev pub to_int : ℕ → ℤ
to_int n = let low = n % 2 ^ 32 in if ltb low (2 ^ 31) then pos low else negsuc (2 ^ 32 - 1 - low)

-- The result of a ping that was sent at `start`: the ticks until its reply, or -1.
pub ping_result : ℕ → Option (Option Bool × Net) → Option (ℤ × Net)
ping_result start none = none
ping_result start (some (none, s)) = some (negsuc 0, record s { ping_wait_active = false })
ping_result start (some (some got, s)) =
    let (now, s') = read_ticks (record s { ping_wait_active = false }) in
    some (to_int (now + 2 ^ 64 - start), s')

pub ping_sent : ℕ → (Net → Option Net) → ℕ → Option (Bool × Net) → Option (ℤ × Net)
ping_sent fuel poll start none = none
ping_sent fuel poll start (some (false, s)) = some (negsuc 0, record s { ping_wait_active = false })
ping_sent fuel poll start (some (true, s)) =
    ping_result start (wait_until fuel poll replied ((start + 100) % 2 ^ 64) s)

pub net_ping : ℕ → ℕ → ℕ → Net → Option (ℤ × Net)
net_ping fuel ip sequence s =
    let waiting = record s {
      ping_wait_seq = sequence;
      ping_got_reply = false;
      ping_wait_active = true;
    } in
    let (start, s') = read_ticks waiting in
    let resolve = net_arp_resolve fuel in
    if s.stack_ready
    then ping_sent fuel (net_poll fuel resolve) start
        (send_ipv4 resolve ip 1 (ping_packet sequence) s')
    else some (negsuc 0, s)

-- `present` is what e1000_present reports.
abbrev pub net_init : Bool → Net → Net
net_init present s = record s {
  arp_cache = λ i. record { ip = 0; mac = replicate 6 0; valid = false };
  stack_ready = present;
}
