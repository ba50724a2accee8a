-- ===== src/Net/Stack/Packets.antt =====
-- The packets that the stack sends: their checksums, and the packets it takes.
use gravityos.Base.{
  ℕ, ◌+◌, ◌-◌, ◌/◌, ◌%◌, ◌^◌, ◌<◌, ◌≤◌, ◌≡◌, refl, arith, true, false, ◌&&◌, List, [], ◌∷◌, ◌++◌,
  some, ltb, ◌==◌, if◌then◌else◌, length, take, replicate, ap,
}
use gravityos.Strings.Listed.{bytes_at}
use gravityos.Net.{htons, htonl, checksum16}
use gravityos.Net.Checksum.{checksum16-verifies}
use gravityos.Net.Stack.{
  Net, read16, read32, bytes32, sum16, ip_header, ip_packet, Resolve, handle_icmp, handle_ipv4,
}

abbrev front : ℕ → ℕ → List ℕ
front total protocol =
    0x45
    ∷ 0
    ∷ htons total % 2 ^ 8
    ∷ htons total / 2 ^ 8 % 2 ^ 8
    ∷ 0
    ∷ 0
    ∷ 0x40
    ∷ 0
    ∷ 64
    ∷ protocol
    ∷ []

sum16_lem : (bytes : List ℕ) (c : ℕ) → checksum16 bytes ≡ some c → sum16 bytes ≡ c
sum16_lem bytes c e = rw (e, sum16) refl

-- The header of a packet that send_ipv4 builds has the checksum 0: what a receiver tests.
pub header-verifies :
    (protocol src dst : ℕ) (payload : List ℕ)
    → protocol < 256
    → checksum16 (take 20 (ip_packet protocol src dst payload)) ≡ some 0
header-verifies protocol src dst payload small =
    let total = (20 + length payload) % 2 ^ 16 in
    let back = bytes32 (htonl src) ++ bytes32 (htonl dst) in
    let (c, bound, sent, received) =
      checksum16-verifies 5 (front total protocol) back refl (omega arith) in
    let sum : sum16 (ip_header total protocol 0 src dst) ≡ c =
      sum16_lem (ip_header total protocol 0 src dst) c sent in
    let high : htons c % 2 ^ 8 ≡ c / 256 = omega arith in
    let low : htons c / 2 ^ 8 % 2 ^ 8 ≡ c % 256 = omega arith in rw (sum, high, low) received

icmp_replied :
    (resolve : Resolve) (src : ℕ) (f : ℕ → ℕ) (len : ℕ) (s : Net)
    → 8 ≤ len
    → f 0 ≡ 0
    → s.ping_wait_active ≡ true
    → htons (read16 f 6) ≡ s.ping_wait_seq
    → handle_icmp resolve src f len s ≡ some (record s { ping_got_reply = true })
unfolding handle_icmp
icmp_replied resolve src f len s long kind active seq =
    let a : ltb len 8 ≡ false = ground arith in
    let same : (htons (read16 f 6) == s.ping_wait_seq) ≡ true = ground arith in
    rw (a, kind, same)
      (ap (λ x. some (if x && true then record s { ping_got_reply = true } else s)) active)

-- A packet whose total length is smaller than its header's: the difference wraps, and an ICMP message
-- behind the packet's end is taken. Where those bytes look like the reply that a ping waits for, the
-- ping has its reply.
pub short_packet-replied :
    (resolve : Resolve) (f : ℕ → ℕ) (len : ℕ) (s : Net)
    → 20 ≤ len
    → len < 2 ^ 16
    → f 0 ≡ 0x45
    → htonl (read32 f 16) ≡ s.local_ip
    → htons (read16 f 2) < 20
    → f 9 ≡ 1
    → f 20 ≡ 0
    → s.ping_wait_active ≡ true
    → htons (read16 f 26) ≡ s.ping_wait_seq
    → handle_ipv4 resolve f len s ≡ some (record s { ping_got_reply = true })
unfolding handle_ipv4
short_packet-replied resolve f len s long small version to_us short icmp reply active seq =
    let a : ltb len (htons (read16 f 2)) ≡ false = ground arith in
    let b : ltb len 20 ≡ false = ground arith in
    let us : (htonl (read32 f 16) == s.local_ip) ≡ true = ground arith in
    let r =
      icmp_replied resolve (htonl (read32 f 12)) (λ i. f (20 + i))
        ((htons (read16 f 2) + 2 ^ 16 - 20) % 2 ^ 16) s (omega arith) reply active seq in
    rw (version, a, b, us, icmp) r

-- The bytes of a word of 32 bits, the highest first.
abbrev pub big_endian : ℕ → List ℕ
big_endian v = v / 2 ^ 24 % 256 ∷ v / 2 ^ 16 % 256 ∷ v / 2 ^ 8 % 256 ∷ v % 256 ∷ []

-- The IPv4 header of 20 bytes for an ICMP message of `len` bytes, with a checksum in two bytes: not to be
-- cut, 64 hops.
abbrev pub icmp_header : ℕ → ℕ → ℕ → ℕ → ℕ → List ℕ
icmp_header len hi lo src dst =
    0x45
    ∷ 0
    ∷ (20 + len) / 256
    ∷ (20 + len) % 256
    ∷ 0
    ∷ 0
    ∷ 0x40
    ∷ 0
    ∷ 64
    ∷ 1
    ∷ hi
    ∷ lo
    ∷ (big_endian src ++ big_endian dst)

-- An ICMP message with type 0, and otherwise the bytes of `f` but for the checksum.
abbrev pub reply_to : (ℕ → ℕ) → ℕ → ℕ → ℕ → List ℕ
reply_to f len hi lo = 0 ∷ f 1 ∷ hi ∷ lo ∷ bytes_at f 4 (len - 4)

-- A frame with an IPv4 packet in it, which is filled up with zeros to 60 bytes.
abbrev pub ipv4_frame : List ℕ → List ℕ → List ℕ → List ℕ
ipv4_frame dst src packet = dst ++ (src ++ (8 ∷ 0 ∷ (packet ++ replicate (46 - length packet) 0)))

-- A reply to the sender at `src`: the frame's destination is `mac`, and both checksums are right.
abbrev pub Replied : ℕ → (ℕ → ℕ) → ℕ → List ℕ → Net → List ℕ → Type 0
Replied src f len mac s frame =
    (h h' c c' : ℕ) × (frame
      ≡ ipv4_frame mac s.mac (icmp_header len h h' s.local_ip src ++ reply_to f len c c'))
    × (checksum16 (icmp_header len h h' s.local_ip src) ≡ some 0)
    × (checksum16 (reply_to f len c c') ≡ some 0)

abbrev with_fields : List ℕ → List ℕ → List ℕ → List ℕ → List ℕ
with_fields total sum src dst =
    0x45 ∷ 0 ∷ (total ++ (0 ∷ 0 ∷ 0x40 ∷ 0 ∷ 64 ∷ 1 ∷ (sum ++ (src ++ dst))))
