-- ===== src/Net/Arp.antt =====
-- The ARP table: what a lookup finds after a store.
use gravityos.Base.{
  ℕ, zero, suc, ◌+◌, ◌<◌, ◌≤◌, ◌≡◌, refl, arith, true, false, List, Option, none, some, update,
  Bool-cases, inl, inr, ap, ℕ_discrete,
}
use gravityos.Net.{
  ArpEntry, ArpCache, holds, arp_cache_size, find_ip, find_invalid, arp_insert, arp_store,
  arp_cache_put, arp_cache_get,
}

-- What the search for an address finds among the `n` entries from `i` on.
abbrev pub FirstHolding : ArpCache → ℕ → ℕ → ℕ → Option ℕ → Type 0
FirstHolding cache ip n i none = (j : ℕ) → i ≤ j → j < i + n → holds ip (cache j) ≡ false
FirstHolding cache ip n i (some k) =
    (i ≤ k)
    × (k < i + n)
    × (holds ip (cache k) ≡ true)
    × ((j : ℕ) → i ≤ j → j < k → holds ip (cache j) ≡ false)

-- A cache that differs from `cache` in entry `k` alone, which holds the address: the search finds
-- `k` if no entry before it held the address.
find_ip-update :
    (cache : ArpCache) (ip n i k : ℕ) (e : ArpEntry)
    → i ≤ k
    → k < i + n
    → holds ip e ≡ true
    → ((j : ℕ) → i ≤ j → j < k → holds ip (cache j) ≡ false)
    → find_ip (update cache k e) ip n i ≡ some k
unfolding find_ip
find_ip-update cache ip zero i k e lo hi h before = absurd (omega arith)
find_ip-update cache ip (suc n) i k e lo hi h before = elim (ℕ_discrete i k) [
  | yes here ↦ ground (arith, here, h)
  | no later ↦ ground (
    arith,
    before i,
    find_ip-update cache ip n (i + 1) k e (omega arith) (omega arith) h
        (λ j l u. before j (omega arith) u),
  )
]

not_holding_from :
    (cache : ArpCache) (ip i : ℕ) (P : ℕ → Type 0)
    → holds ip (cache i) ≡ false
    → ((j : ℕ) → i + 1 ≤ j → P j → holds ip (cache j) ≡ false)
    → (j : ℕ) → i ≤ j
    → P j
    → holds ip (cache j) ≡ false
not_holding_from cache ip i P e h j lo p = elim (ℕ_discrete i j) [
  | yes same ↦ rw (← same) e
  | no other ↦ h j (omega arith) p
]

FirstHolding-step :
    (cache : ArpCache) (ip n i : ℕ) (o : Option ℕ)
    → holds ip (cache i) ≡ false
    → FirstHolding cache ip n (i + 1) o
    → FirstHolding cache ip (suc n) i o
FirstHolding-step cache ip n i none e h =
    not_holding_from cache ip i (λ j. j < i + suc n) e (λ j lo hi. h j lo (omega arith))
FirstHolding-step cache ip n i (some k) e (lo, hi, found, before) =
    (omega arith, omega arith, found, not_holding_from cache ip i (λ j. j < k) e before)

find_ip-FirstHolding :
    (cache : ArpCache) (ip n i : ℕ) → FirstHolding cache ip n i (find_ip cache ip n i)
unfolding find_ip
find_ip-FirstHolding cache ip zero i = λ j lo hi. absurd (omega arith)
find_ip-FirstHolding cache ip (suc n) i = elim (Bool-cases (holds ip (cache i))) [
  | inl on ↦ rw on (omega arith, omega arith, on, λ j l u. absurd (omega arith))
  | inr off ↦
      rw off (FirstHolding-step cache ip n i _ off (find_ip-FirstHolding cache ip n (i + 1)))
]

abbrev pub InvalidResult : ArpCache → ℕ → ℕ → Option ℕ → Type 0
InvalidResult cache n i none = (j : ℕ) → i ≤ j → j < i + n → (cache j).valid ≡ true
InvalidResult cache n i (some k) = (i ≤ k) × (k < i + n) × ((cache k).valid ≡ false)

valid_from :
    (cache : ArpCache) (n i : ℕ) (o : Option ℕ)
    → (cache i).valid ≡ true
    → InvalidResult cache n (i + 1) o
    → InvalidResult cache (suc n) i o
valid_from cache n i none e h = later
  where
    later : (j : ℕ) → i ≤ j → j < i + suc n → (cache j).valid ≡ true
    later j lo hi = elim (ℕ_discrete i j) [
      | yes same ↦ rw (← same) e
      | no other ↦ h j (omega arith) (omega arith)
    ]
valid_from cache n i (some k) e (lo, hi, free) = (omega arith, omega arith, free)

find_invalid-InvalidResult :
    (cache : ArpCache) (n i : ℕ) → InvalidResult cache n i (find_invalid cache n i)
unfolding find_invalid
find_invalid-InvalidResult cache zero i = λ j lo hi. absurd (omega arith)
find_invalid-InvalidResult cache (suc n) i = elim (Bool-cases (cache i).valid) [
  | inl on ↦ rw on (valid_from cache n i _ on (find_invalid-InvalidResult cache n (i + 1)))
  | inr off ↦ rw off (omega arith, omega arith, off)
]

find_ip-stored :
    (cache : ArpCache) (ip : ℕ) (mac : List ℕ) (o p : Option ℕ)
    → FirstHolding cache ip arp_cache_size 0 o
    → InvalidResult cache arp_cache_size 0 p
    → p ≡ find_invalid cache arp_cache_size 0
    → (k : ℕ) × (find_ip (arp_store cache ip mac o) ip arp_cache_size 0 ≡ some k)
      × ((arp_store cache ip mac o k).mac ≡ mac)
unfolding arp_store arp_insert
find_ip-stored cache ip mac (some k) p (lo, hi, on, before) free e =
    (k, find_ip-update cache ip _ 0 k _ lo hi on before, ground arith)
find_ip-stored cache ip mac none (some k) absent (lo, hi, free) e = rw (← e) (
  k,
  find_ip-update cache ip _ 0 k _ lo hi (ground arith) (λ j l u. absent j l (omega arith)),
  ground arith,
)
find_ip-stored cache ip mac none none absent full e =
    let valid : (cache 0).valid ≡ true = full 0 (omega arith) (omega arith) in
    rw (← e) (
      0,
      find_ip-update cache ip _ 0 0 _ (omega arith) (omega arith) (ground arith)
          (λ j l u. elim u [ ]),
      ground arith,
    )

-- After a store, a lookup of the same address gives the stored hardware address, whether the table
-- held the address, had an unused entry, or was full.
pub arp_cache_get-put :
    (cache : ArpCache) (ip : ℕ) (mac : List ℕ)
    → arp_cache_get (arp_cache_put cache ip mac) ip ≡ some mac
unfolding arp_cache_get arp_cache_put
arp_cache_get-put cache ip mac =
    let (k, found, same) =
      find_ip-stored cache ip mac _ _ (find_ip-FirstHolding cache ip arp_cache_size 0)
        (find_invalid-InvalidResult cache arp_cache_size 0) refl in
    rw (found, arp_cache_get) (ap some same)
