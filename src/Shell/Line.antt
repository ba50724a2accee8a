-- ===== src/Shell/Line.antt =====
-- The line that readline returns, against the keys that were typed.
use gravityos.Base.{
  ℕ, suc, ◌+◌, ◌-◌, ◌<◌, ◌≤◌, ◌≡◌, ◌⊎◌, refl, arith, true, false, ◌&&◌, List, [], ◌∷◌, ◌++◌, Option,
  none, some, ltb, leb, ◌==◌, if◌then◌else◌, update, length, length-append, take, Bool-cases, inl,
  inr, ap, ap₂, sym, ◌∙◌, take_all,
}
use gravityos.Strings.Listed.{bytes_at, bytes_at-same, take-bytes_at, bytes_at-end, length-bytes_at}
use gravityos.Shell.{Reader, read_key, end_line, readline_from, readline}

-- Typing on a line of text: a backspace takes its last character, a character that can be printed is
-- appended, and every other key is passed over.
pub type_key : ℕ → List ℕ → List ℕ
type_key c line =
    if c == 8
    then take (length line - 1) line
    else if leb 32 c && ltb c 127
    then line ++ (c ∷ [])
    else line

-- A line of at most `room` characters: it ends with the key 10, or where it is full.
pub type_line : ℕ → List ℕ → List ℕ → Option (List ℕ × List ℕ)
type_line room [] line = if leb room (length line) then some (line, []) else none
type_line room (c ∷ keys) line =
    let rest = type_line room keys (type_key c line) in
    if leb room (length line)
    then some (line, c ∷ keys)
    else if c == 10
    then some (line, keys)
    else rest

-- The reader holds the line.
abbrev Holds : Reader → List ℕ → Type 0
Holds r line = (bytes_at r.buf 0 r.pos ≡ line) × (r.pos ≡ length line)

key-Holds :
    (c : ℕ) (r : Reader) (line : List ℕ) → Holds r line → Holds (read_key c r) (type_key c line)
unfolding read_key type_key
key-Holds c r line (text, len) = elim (Bool-cases (c == 8)) [
  | inl back ↦ elim (Bool-cases (ltb 0 r.pos)) [
    | inl some_left ↦
        let shorter : take (length line - 1) line ≡ bytes_at r.buf 0 (r.pos - 1) =
          ap₂ take (ap (λ n. n - 1) (sym len)) (sym text)
          ∙ sym (take-bytes_at r.buf 0 r.pos (r.pos - 1) (omega arith)) in
        rw (back, some_left)
          (sym shorter, sym (ap length shorter ∙ length-bytes_at r.buf 0 (r.pos - 1)))
    | inr at_start ↦
        let empty : length line ≡ 0 = ground arith in
        let same : take (length line - 1) line ≡ line =
          take_all (length line - 1) line (omega arith) in
        rw (back, at_start, same) (text, len)
  ]
  | inr other ↦ elim (Bool-cases (leb 32 c && ltb c 127)) [
    | inl shown ↦
        let no_tab : (c == 9) ≡ false = ground arith in
        let longer : bytes_at (update r.buf r.pos c) 0 (suc r.pos) ≡ line ++ (c ∷ []) =
          bytes_at-end (update r.buf r.pos c) 0 r.pos
          ∙ ap₂ (λ l x. l ++ (x ∷ []))
              (bytes_at-same (update r.buf r.pos c) r.buf 0 0 r.pos (λ i lt. ground arith) ∙ text)
              (ground arith) in
        let next : r.pos + 1 ≡ suc r.pos = omega arith in
        rw (other, no_tab, shown, next) (longer, omega (arith, length-append line (c ∷ []), len))
    | inr hidden ↦ elim (Bool-cases (c == 9)) [
      | inl tab ↦ rw (other, tab, hidden) (text, len)
      | inr no_tab ↦ rw (other, no_tab, hidden) (text, len)
    ]
  ]
]

-- The line and the keys left over are the same, the line stands in the buffer, and its NUL behind it in the
-- buffer's bounds; or both wait for more keys.
abbrev pub SameLine : ℕ → Option (Reader × List ℕ) → Option (List ℕ × List ℕ) → Type 0
SameLine max_len o t =
    ((o ≡ none) × (t ≡ none))
    ⊎ ((r : Reader) × (line : List ℕ) × (rest : List ℕ) × (o ≡ some (r, rest))
        × (t ≡ some (line, rest))
        × (bytes_at r.buf 0 r.pos ≡ line)
        × (r.buf r.pos ≡ 0)
        × (r.pos < max_len))

ended :
    (r : Reader) (line : List ℕ)
    → Holds r line
    → (bytes_at (update r.buf r.pos 0) 0 r.pos ≡ line) × (update r.buf r.pos 0 r.pos ≡ 0)
ended r line (text, len) = (
  bytes_at-same (update r.buf r.pos 0) r.buf 0 0 r.pos (λ i lt. ground arith) ∙ text,
  ground arith,
)

pos-key : (c : ℕ) (r : Reader) → (read_key c r).pos ≤ r.pos + 1
unfolding read_key
pos-key c r = ground arith

readline_from-SameLine :
    (max_len : ℕ) (keys : List ℕ) (r : Reader) (line : List ℕ)
    → Holds r line
    → r.pos < max_len
    → SameLine max_len (readline_from max_len keys r) (type_line (max_len - 1) keys line)
unfolding readline_from type_line
readline_from-SameLine max_len [] r line h lt = elim (Bool-cases (ltb r.pos (max_len - 1))) [
  | inl room ↦
      let room' : leb (max_len - 1) (length line) ≡ false = ground (arith, h.1) in
      rw (room, room') (inl (refl, refl))
  | inr full ↦
      let full' : leb (max_len - 1) (length line) ≡ true = ground (arith, h.1) in
      let (text, nul) = ended r line h in
      rw (full, full') (inr (end_line r, line, [], refl, refl, text, nul, lt))
]
readline_from-SameLine max_len (c ∷ keys) r line h lt =
    elim (Bool-cases (ltb r.pos (max_len - 1))) [
      | inr full ↦
          let full' : leb (max_len - 1) (length line) ≡ true = ground (arith, h.1) in
          let (text, nul) = ended r line h in
          rw (full, full') (inr (end_line r, line, c ∷ keys, refl, refl, text, nul, lt))
      | inl room ↦
          let room' : leb (max_len - 1) (length line) ≡ false = ground (arith, h.1) in
          let rest =
            readline_from-SameLine max_len keys (read_key c r) (type_key c line)
              (key-Holds c r line h) (ground (arith, pos-key c r)) in
          elim (Bool-cases (c == 10)) [
            | inl enter ↦
                let (text, nul) = ended r line h in
                rw (room, room', enter)
                  (inr (
                    record (end_line r) { echo = r.echo ++ (10 ∷ []) },
                    line,
                    keys,
                    refl,
                    refl,
                    text,
                    nul,
                    lt,
                  ))
            | inr other ↦ rw (room, room', other) rest
          ]
    ]

-- For a buffer of at least one byte: readline returns exactly where typing the keys on an empty line
-- ends with Enter or with a line that fills the buffer; what it returns is that line, with a NUL behind
-- it inside the buffer, and the keys that are left are the same.
pub readline-SameLine :
    (max_len : ℕ) (keys : List ℕ) (buf : ℕ → ℕ)
    → 1 ≤ max_len
    → SameLine max_len (readline max_len keys buf) (type_line (max_len - 1) keys [])
unfolding readline
readline-SameLine max_len keys buf le =
    readline_from-SameLine max_len keys (record { buf = buf; pos = 0; echo = [] }) [] (refl, refl)
      (omega arith)
