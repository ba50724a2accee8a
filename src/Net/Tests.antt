-- ===== src/Net/Tests.antt =====
-- An echo request's first bytes, and a full ARP table.
use gravityos.Base.{ℕ, ◌+◌, true, List, [], ◌∷◌}
use gravityos.Net.{ArpCache}

abbrev front : List ℕ
front = 8 ∷ 0 ∷ []

abbrev back : List ℕ
back = 0x47 ∷ 0x56 ∷ 0 ∷ 1 ∷ b'a' ∷ []

-- The addresses 1 to 8 fill the table.
abbrev full_cache : ArpCache
full_cache i = record { ip = i + 1; mac = 2 ∷ 0 ∷ 0 ∷ 0 ∷ 0 ∷ i ∷ []; valid = true }
