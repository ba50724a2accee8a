-- ===== src/Shell/Digits.antt =====
-- The loop of parse_ipv4 as a loop over the characters of a text, and what it does with digits.
use gravityos.Base.{
  ℕ, zero, suc, ◌+◌, ◌-◌, ◌*◌, ◌/◌, ◌%◌, ◌<◌, ◌≤◌, ◌≡◌, ◌⊎◌, refl, arith, List, [], ◌∷◌, ◌++◌,
  Option, none, some, ltb, if◌then◌else◌, update, length, inl, inr, ap, sym, ◌∙◌, subst, ap₂,
  fun_ext, ℕ_discrete, update_self, update_ne, update_twice,
}
use gravityos.Strings.{Bytes}
use gravityos.Shell.{Parts, Step, next, stop, refuse, more, parse_step, parse_from}

-- The characters `l` stand from `p` on.
abbrev pub Text : Bytes → ℕ → List ℕ → Type 0
Text m p [] = Unit {0}
Text m p (c ∷ l) = (m p ≡ c) × Text m (p + 1) l

-- The decimal digits of a number below 1000, as `%u` prints it.
abbrev pub decimal : ℕ → List ℕ
decimal n =
    if ltb n 10
    then (48 + n) ∷ []
    else if ltb n 100
    then (48 + n / 10) ∷ (48 + n % 10) ∷ []
    else (48 + n / 100) ∷ (48 + n / 10 % 10) ∷ (48 + n % 10) ∷ []

-- A text of digits, from a value on.
unfoldable pub value_from : ℕ → List ℕ → ℕ
value_from v [] = v
value_from v (c ∷ l) = value_from (v * 10 + (c - 48)) l

abbrev pub AreDigits : List ℕ → Type 0
AreDigits [] = Unit {0}
AreDigits (c ∷ l) = (48 ≤ c) × (c ≤ 57) × AreDigits l

-- The state once the digits are read.
abbrev reading : Parts → List ℕ → Parts
reading s l = record s {
  parts = update s.parts s.part (value_from (s.parts s.part) l);
  digits = s.digits + length l;
}

update_id : (f : ℕ → ℕ) (i : ℕ) → update f i (f i) ≡ f
update_id f i = fun_ext (λ j. elim (ℕ_discrete i j) [
  | yes e ↦ rw e (update_self f j (f j))
  | no ne ↦ update_ne f i j (f i) ne
])

value_from-grows : (v : ℕ) (l : List ℕ) → v ≤ value_from v l
unfolding value_from
value_from-grows v [] = omega arith
value_from-grows v (c ∷ l) = omega (arith, value_from-grows (v * 10 + (c - 48)) l)

pub stop_lem : (z : ℕ) (s : Parts) → (z ≡ 0) ⊎ (z ≡ 32) → parse_step z s ≡ stop
unfolding parse_step
stop_lem z s (inl e) = rw e refl
stop_lem z s (inr e) = rw e refl

-- The loop over the characters of a text.
unfoldable pub parse_list : List ℕ → Parts → Option Parts
parse_list [] s = none
parse_list (c ∷ l) s = elim (parse_step c s) [
  | next s' ↦ parse_list l s'
  | stop ↦ some s
  | refuse ↦ none
]

-- The two loops behind a step.
abbrev after : ℕ → Bytes → ℕ → Parts → Step → Option (Option Parts)
after fuel m p s (next s') = parse_from fuel m p s'
after fuel m p s stop = some (some s)
after fuel m p s refuse = some none

abbrev pub after_list : List ℕ → Parts → Step → Option Parts
after_list l s (next s') = parse_list l s'
after_list l s stop = some s
after_list l s refuse = none

pub parse_from_lem :
    (l : List ℕ) (z fuel : ℕ) (m : Bytes) (p : ℕ) (s : Parts)
    → (z ≡ 0) ⊎ (z ≡ 32)
    → Text m p (l ++ (z ∷ []))
    → length l < fuel
    → parse_from fuel m p s ≡ some (parse_list (l ++ (z ∷ [])) s)
unfolding parse_from parse_list
parse_from_lem l z zero m p s ok text lt = absurd (omega arith)
parse_from_lem [] z (suc fuel) m p s ok (here, text) lt =
    let stops = stop_lem z s ok in
    ap (λ t. after fuel m (p + 1) s t) (ap (λ x. parse_step x s) here ∙ stops)
    ∙ sym (ap (λ t. some (after_list [] s t)) stops)
parse_from_lem (c ∷ l) z (suc fuel) m p s ok (here, text) lt =
    ap (λ x. after fuel m (p + 1) s (parse_step x s)) here
    ∙ (go (λ s'. parse_from_lem l z fuel m (p + 1) s' ok text (omega arith)) (parse_step c s))
  where
    go :
        ((s' : Parts) → parse_from fuel m (p + 1) s' ≡ some (parse_list (l ++ (z ∷ [])) s'))
        → (t : Step) → after fuel m (p + 1) s t ≡ some (after_list (l ++ (z ∷ [])) s t)
    go rest (next s') = rest s'
    go rest stop = refl
    go rest refuse = refl

digit-next :
    (c : ℕ) (s : Parts)
    → 48 ≤ c
    → c ≤ 57
    → more c s ≤ 255
    → parse_step c s
      ≡ next (record s { parts = update s.parts s.part (more c s); digits = s.digits + 1 })
unfolding parse_step
digit-next c s lo hi small = ground arith

-- A text of digits is read into the current part.
pub digits_read :
    (l rest : List ℕ) (s : Parts)
    → AreDigits l
    → value_from (s.parts s.part) l ≤ 255
    → parse_list (l ++ rest) s ≡ parse_list rest (reading s l)
unfolding parse_list value_from
digits_read [] rest s digits small =
    ap₂ (λ f n. parse_list rest (record s { parts = f; digits = n }))
      (sym (update_id s.parts s.part)) (omega arith)
digits_read (c ∷ l) rest s (lo, hi, digits) small =
    let s' = record s { parts = update s.parts s.part (more c s); digits = s.digits + 1 } in
    let here : s'.parts s'.part ≡ more c s = update_self s.parts s.part (more c s) in
    let step = digit-next c s lo hi (omega (arith, value_from-grows (more c s) l)) in
    ap (after_list (l ++ rest) s) step
    ∙ (digits_read l rest s' digits (subst (λ v. value_from v l ≤ 255) (sym here) small)
        ∙ ap₂ (λ f n. parse_list rest (record s { parts = f; digits = n }))
            (update_twice s.parts s.part (more c s) (value_from (s'.parts s'.part) l)
              ∙ ap (λ v. update s.parts s.part (value_from v l)) here)
            (omega arith))
