-- ===== src/Shell/Address.antt =====
-- parse_ipv4 reads the addresses that print_ip prints.
use gravityos.Base.{
  ℕ, ◌+◌, ◌*◌, ◌^◌, ◌<◌, ◌≤◌, ◌≡◌, ◌⊎◌, refl, arith, false, ◌||◌, List, [], ◌∷◌, ◌++◌, Option, none,
  some, ltb, ◌==◌, update, length, Bool-cases, inl, inr, ap, sym, ◌∙◌, subst, append_assoc, ap₂,
}
use gravityos.Strings.{Bytes}
use gravityos.Shell.{Parts, next, parse_step, no_parts, join_parts, parse_ipv4, ip_part}
use gravityos.Shell.Digits.{
  Text, decimal, value_from, AreDigits, stop_lem, parse_list, after_list, parse_from_lem,
  digits_read,
}

decimal_lem :
    (n : ℕ)
    → n < 256
    → AreDigits (decimal n) × (value_from 0 (decimal n) ≡ n) × (1 ≤ length (decimal n))
unfolding value_from
decimal_lem n lt = elim (Bool-cases (ltb n 10)) [
  | inl one ↦ rw one ((ground arith, ground arith, tt), omega arith, omega arith)
  | inr more_than_one ↦ elim (Bool-cases (ltb n 100)) [
    | inl two ↦
        rw (more_than_one, two)
          ((omega arith, ground arith, (omega arith, omega arith, tt)), omega arith, omega arith)
    | inr three ↦
        rw (more_than_one, three)
          (
            (omega arith, omega arith, (omega arith, omega arith, (omega arith, omega arith, tt))),
            omega arith,
            omega arith,
          )
  ]
]

-- A number in the part that is 0 so far.
read_group :
    (n k : ℕ) (rest : List ℕ) (f : ℕ → ℕ)
    → n < 256
    → f k ≡ 0
    → parse_list (decimal n ++ rest) (record { parts = f; part = k; digits = 0 })
      ≡ parse_list rest (record { parts = update f k n; part = k; digits = length (decimal n) })
read_group n k rest f lt e =
    let (digits, value, _) = decimal_lem n lt in
    let v : value_from (f k) (decimal n) ≡ n = ap (λ x. value_from x (decimal n)) e ∙ value in
    digits_read (decimal n) rest (record { parts = f; part = k; digits = 0 }) digits
      (subst (λ x. x ≤ 255) (sym v) (omega arith))
    ∙ ap₂ (λ x d. parse_list rest (record { parts = update f k x; part = k; digits = d })) v
        (omega arith)

dot-next :
    (s : Parts)
    → ((s.digits == 0) || (s.part == 3)) ≡ false
    → parse_step 46 s ≡ next (record s { part = s.part + 1; digits = 0 })
unfolding parse_step
dot-next s go_on = rw go_on refl

-- The dot behind a number.
read_dot :
    (n k : ℕ) (rest : List ℕ) (f : ℕ → ℕ)
    → n < 256
    → k < 3
    → parse_list (46 ∷ rest) (record { parts = f; part = k; digits = length (decimal n) })
      ≡ parse_list rest (record { parts = f; part = k + 1; digits = 0 })
unfolding parse_list
read_dot n k rest f lt low =
    let (_, _, some_digits) = decimal_lem n lt in
    let s : Parts = record { parts = f; part = k; digits = length (decimal n) } in
    ap (after_list rest s) (dot-next s (ground arith))

-- A number and its dot.
read_part :
    (n k : ℕ) (rest : List ℕ) (f : ℕ → ℕ)
    → n < 256
    → k < 3
    → f k ≡ 0
    → parse_list (decimal n ++ (46 ∷ rest)) (record { parts = f; part = k; digits = 0 })
      ≡ parse_list rest (record { parts = update f k n; part = k + 1; digits = 0 })
read_part n k rest f lt low e =
    read_group n k (46 ∷ rest) f lt e ∙ read_dot n k rest (update f k n) lt low

-- What print_ip prints.
abbrev pub dotted : ℕ → List ℕ
dotted ip =
    decimal (ip_part ip 3)
    ++ (46
        ∷ (decimal (ip_part ip 2)
            ++ (46 ∷ (decimal (ip_part ip 1) ++ (46 ∷ decimal (ip_part ip 0))))))

dotted-append :
    (a b c d e : List ℕ)
    → (a ++ (46 ∷ (b ++ (46 ∷ (c ++ (46 ∷ d)))))) ++ e
      ≡ a ++ (46 ∷ (b ++ (46 ∷ (c ++ (46 ∷ (d ++ e))))))
dotted-append a b c d e =
    append_assoc a (46 ∷ (b ++ (46 ∷ (c ++ (46 ∷ d))))) e
    ∙ ap (λ l. a ++ (46 ∷ l))
        (append_assoc b (46 ∷ (c ++ (46 ∷ d))) e
          ∙ ap (λ l. b ++ (46 ∷ l)) (append_assoc c (46 ∷ d) e))

-- The state behind the four numbers.
abbrev four : ℕ → ℕ → ℕ → ℕ → ℕ → ℕ
four a b c d = update (update (update (update (λ _. 0) 0 a) 1 b) 2 c) 3 d

read_four :
    (a b c d z : ℕ)
    → a < 256
    → b < 256
    → c < 256
    → d < 256
    → (z ≡ 0) ⊎ (z ≡ 32)
    → parse_list
        (decimal a ++ (46 ∷ (decimal b ++ (46 ∷ (decimal c ++ (46 ∷ (decimal d ++ (z ∷ []))))))))
        no_parts
      ≡ some (record { parts = four a b c d; part = 3; digits = length (decimal d) })
unfolding parse_list
read_four a b c d z ha hb hc hd ok =
    let last : Parts = record { parts = four a b c d; part = 3; digits = length (decimal d) } in
    read_part a 0 (decimal b ++ (46 ∷ (decimal c ++ (46 ∷ (decimal d ++ (z ∷ [])))))) (λ _. 0) ha
      (omega arith) refl
    ∙ (read_part b 1 (decimal c ++ (46 ∷ (decimal d ++ (z ∷ [])))) (update (λ _. 0) 0 a) hb
          (omega arith) refl
        ∙ (read_part c 2 (decimal d ++ (z ∷ [])) (update (update (λ _. 0) 0 a) 1 b) hc (omega arith)
              refl
            ∙ (read_group d 3 (z ∷ []) (update (update (update (λ _. 0) 0 a) 1 b) 2 c) hd refl
                ∙ ap (after_list [] last) (stop_lem z last ok))))

join_lem :
    (a b c d n ip : ℕ)
    → 1 ≤ n
    → a * 2 ^ 24 + b * 2 ^ 16 + c * 2 ^ 8 + d ≡ ip
    → join_parts (some (record { parts = four a b c d; part = 3; digits = n })) ≡ some ip
unfolding join_parts
join_lem a b c d n ip le e = let there : (n == 0) ≡ false = ground arith in rw there (ap some e)

-- For an address of 32 bits, whose text as print_ip prints it stands in memory with a NUL or a blank
-- behind it, parse_ipv4 comes to an end with fuel above the text's length, and gives the address.
pub parse_ipv4-dotted :
    (ip z fuel : ℕ) (m : Bytes) (p : ℕ)
    → ip < 2 ^ 32
    → (z ≡ 0) ⊎ (z ≡ 32)
    → Text m p (dotted ip ++ (z ∷ []))
    → length (dotted ip) < fuel
    → parse_ipv4 fuel m p ≡ some (some ip)
unfolding parse_ipv4
parse_ipv4-dotted ip z fuel m p lt ok text enough =
    let (_, _, some_digits) = decimal_lem (ip_part ip 0) (omega arith) in
    let read =
      parse_from_lem (dotted ip) z fuel m p no_parts ok text enough
      ∙ ap some (
          ap (λ l. parse_list l no_parts)
            (dotted-append (decimal (ip_part ip 3)) (decimal (ip_part ip 2))
              (decimal (ip_part ip 1)) (decimal (ip_part ip 0)) (z ∷ []))
          ∙ read_four (ip_part ip 3) (ip_part ip 2) (ip_part ip 1) (ip_part ip 0) z (omega arith)
              (omega arith) (omega arith) (omega arith) ok) in
    ap (λ o. elim o as (λ _. Option (Option ℕ)) [ none ↦ none | some r ↦ some (join_parts r) ]) read
    ∙ ap some (
        join_lem (ip_part ip 3) (ip_part ip 2) (ip_part ip 1) (ip_part ip 0)
          (length (decimal (ip_part ip 0))) ip some_digits (omega arith))
