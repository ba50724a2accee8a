-- ===== src/Shell/Tests.antt =====
-- A line that is typed with a mistake, and an address.
use gravityos.Base.{ℕ, ◌-◌, ◌≡◌, refl, arith, List, [], ◌∷◌, some, get_or, inl}
use gravityos.Strings.{Bytes}
use gravityos.Shell.{readline, parse_ipv4}
use gravityos.Shell.Line.{SameLine, type_line, readline-SameLine}
use gravityos.Shell.Address.{parse_ipv4-dotted}

-- "lx", a backspace, "s" and Enter.
abbrev keys : List ℕ
keys = b'l' ∷ b'x' ∷ 8 ∷ b's' ∷ 10 ∷ []

readline-SameLine_example : SameLine 256 (readline 256 keys (λ _. 0)) (type_line 255 keys [])
readline-SameLine_example = readline-SameLine 256 keys (λ _. 0) (omega arith)

-- "10.0.2.15".
abbrev address : Bytes
address x = get_or (b'1' ∷ b'0' ∷ b'.' ∷ b'0' ∷ b'.' ∷ b'2' ∷ b'.' ∷ b'1' ∷ b'5' ∷ []) (x - 100) 0

parse_ipv4-dotted_example : parse_ipv4 16 address 100 ≡ some (some 0x0A00020F)
parse_ipv4-dotted_example =
    parse_ipv4-dotted 0x0A00020F 0 16 address 100 (omega arith) (inl refl)
      (refl, (refl, (refl, (refl, (refl, (refl, (refl, (refl, (refl, (refl, tt))))))))))
      (omega arith)
