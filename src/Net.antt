-- ===== src/Net.antt =====
-- net/net.c: byte order, the internet checksum, and the ARP table; Net/Stack has the rest. A block of
-- data is the list of its bytes, a hardware address the list of its six bytes.
pub mod Checksum
pub mod Arp
pub mod Stack
mod Tests
use gravityos.Base.{
  ℕ, zero, suc, ◌+◌, ◌-◌, ◌*◌, ◌/◌, ◌%◌, ◌^◌, Bool, true, false, not, ◌&&◌, List, [], ◌∷◌, Option,
  none, some, ◌==◌, if◌then◌else◌, update,
}

-- The shifts and masks of a uint16_t and a uint32_t as quotients and remainders.
abbrev pub htons : ℕ → ℕ
htons v = (v * 256 + v / 256) % 2 ^ 16

abbrev pub htonl : ℕ → ℕ
htonl v =
    v % 2 ^ 8 * 2 ^ 24
    + v / 2 ^ 8 % 2 ^ 8 * 2 ^ 16
    + v / 2 ^ 16 % 2 ^ 8 * 2 ^ 8
    + v / 2 ^ 24 % 2 ^ 8

-- The first loop of checksum16, from the sum so far on, and the odd byte behind it.
pub add_words : List ℕ → ℕ → ℕ
add_words [] sum = sum
add_words (a ∷ []) sum = (sum + a * 256) % 2 ^ 32
add_words (a ∷ b ∷ bytes) sum = add_words bytes ((sum + (a * 256 + b)) % 2 ^ 32)

-- The second loop, on fuel.
pub fold_carries : ℕ → ℕ → Option ℕ
fold_carries zero sum = none
fold_carries (suc fuel) sum =
    let rest = fold_carries fuel ((sum % 2 ^ 16 + sum / 2 ^ 16) % 2 ^ 32) in
    if sum / 2 ^ 16 == 0 then some sum else rest

-- `(uint16_t)~sum`.
abbrev pub complement16 : ℕ → ℕ
complement16 sum = 65535 - sum % 2 ^ 16

-- Three rounds are enough for every sum.
abbrev pub checksum_fuel : ℕ
checksum_fuel = 3

pub checksum16 : List ℕ → Option ℕ
checksum16 bytes = elim (fold_carries checksum_fuel (add_words bytes 0)) [
  | none ↦ none
  | some sum ↦ some (complement16 sum)
]

-- ARP_CACHE_SIZE.
abbrev pub arp_cache_size : ℕ
arp_cache_size = 8

pub record ArpEntry : Type 0 where
  pub ip : ℕ
  pub mac : List ℕ
  pub valid : Bool

abbrev pub ArpCache : Type 0
ArpCache = ℕ → ArpEntry

abbrev pub holds : ℕ → ArpEntry → Bool
holds ip e = e.valid && (e.ip == ip)

-- The first entry from `i` on, among `n`, that holds the address.
pub find_ip : ArpCache → ℕ → ℕ → ℕ → Option ℕ
find_ip cache ip zero i = none
find_ip cache ip (suc n) i =
    let rest = find_ip cache ip n (i + 1) in if holds ip (cache i) then some i else rest

pub find_invalid : ArpCache → ℕ → ℕ → Option ℕ
find_invalid cache zero i = none
find_invalid cache (suc n) i =
    let rest = find_invalid cache n (i + 1) in if (cache i).valid then rest else some i

-- The address is not in the table: it goes into an unused entry, or else into the first one.
pub arp_insert : ArpCache → ℕ → List ℕ → Option ℕ → ArpCache
arp_insert cache ip mac (some i) = update cache i (record { ip = ip; mac = mac; valid = true })
arp_insert cache ip mac none = update cache 0 (record (cache 0) { ip = ip; mac = mac })

pub arp_store : ArpCache → ℕ → List ℕ → Option ℕ → ArpCache
arp_store cache ip mac (some i) = update cache i (record (cache i) { mac = mac })
arp_store cache ip mac none = arp_insert cache ip mac (find_invalid cache arp_cache_size 0)

pub arp_cache_put : ArpCache → ℕ → List ℕ → ArpCache
arp_cache_put cache ip mac = arp_store cache ip mac (find_ip cache ip arp_cache_size 0)

pub arp_cache_get : ArpCache → ℕ → Option (List ℕ)
arp_cache_get cache ip = elim (find_ip cache ip arp_cache_size 0) [
  | none ↦ none
  | some i ↦ some (cache i).mac
]
