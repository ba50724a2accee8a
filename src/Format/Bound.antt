-- ===== src/Format/Bound.antt =====
-- vsnprintf and its buffer: what is stored, where, and what is returned.
mod Tests
use gravityos.Base.{
  ℕ, zero, suc, ◌+◌, ◌-◌, ◌*◌, ◌/◌, ◌%◌, ◌^◌, ◌<◌, ◌≤◌, ◌≡◌, refl, arith, Bool, true, false, not,
  ◌&&◌, ◌||◌, List, [], ◌∷◌, ◌++◌, Option, none, some, ltb, leb, ◌==◌, if◌then◌else◌, Bool-cases,
  inl, inr, update, length, get_or, append_assoc, ap, sym, ◌∙◌, min,
}
use gravityos.Format.{
  Out, put, put_all, Flags, flags, conversion, format_loop, to_int, finish, vsnprintf,
}
use gravityos.Base.Int.{pos}

abbrev pub joined : List ℕ → Option (List ℕ) → Option (List ℕ)
joined cs none = none
joined cs (some ds) = some (cs ++ ds)

-- The whole text of a format, with no buffer.
pub rendered : ℕ → (ℕ → List ℕ) → (ℕ → ℕ) → List ℕ → ℕ → Option (List ℕ)
rendered zero text args fmt n = none
rendered (suc fuel) text args [] n = some []
rendered (suc fuel) text args (c ∷ fmt) n =
    let (f, rest) = flags fmt in
    let plain : Option (List ℕ) = joined (c ∷ []) (rendered fuel text args fmt n) in
    let converted : Option (List ℕ) = elim rest [
      | [] ↦ none
      | k ∷ fmt' ↦
          let (chars, takes) = conversion text f k (args n) in
          joined chars (rendered fuel text args fmt' (if takes then n + 1 else n))
    ] in
    if not (c == b'%') then plain else if leb (2 ^ 31) f.pad_width then none else converted

put_all-append :
    (size : ℕ) (xs ys : List ℕ) (o : Out)
    → put_all size (xs ++ ys) o ≡ put_all size ys (put_all size xs o)
unfolding put_all
put_all-append size [] ys o = refl
put_all-append size (x ∷ xs) ys o = put_all-append size xs ys (put size x o)

abbrev stored : ℕ → Out → Option (List ℕ) → Option Out
stored size o none = none
stored size o (some cs) = some (put_all size cs o)

stored-joined :
    (size : ℕ) (o : Out) (cs : List ℕ) (r : Option (List ℕ))
    → stored size (put_all size cs o) r ≡ stored size o (joined cs r)
stored-joined size o cs none = refl
stored-joined size o cs (some ds) = ap some (sym (put_all-append size cs ds o))

-- The loop stores the text, whatever the buffer's size.
format_loop-rendered :
    (fuel : ℕ) (text : ℕ → List ℕ) (args : ℕ → ℕ) (size : ℕ) (fmt : List ℕ) (n : ℕ) (o : Out)
    → format_loop fuel text args size fmt n o ≡ stored size o (rendered fuel text args fmt n)
unfolding format_loop rendered put_all
format_loop-rendered zero text args size fmt n o = refl
format_loop-rendered (suc fuel) text args size [] n o = refl
format_loop-rendered (suc fuel) text args size (c ∷ fmt) n o = elim (Bool-cases (c == b'%')) [
  | inr plain ↦
      rw (plain, format_loop, rendered)
        (format_loop-rendered fuel text args size fmt n (put size c o)
          ∙ stored-joined size o (c ∷ []) (rendered fuel text args fmt n))
  | inl percent ↦ elim (Bool-cases (leb (2 ^ 31) (flags fmt).0.pad_width)) [
    | inl wide ↦ rw (percent, wide, format_loop, rendered) refl
    | inr fits ↦
        rw (percent, fits, format_loop, rendered)
          (go (flags fmt).1 (λ k fmt'.
            let (chars, takes) = conversion text (flags fmt).0 k (args n) in
            format_loop-rendered fuel text args size fmt' (if takes then n + 1 else n)
              (put_all size chars o)
            ∙ stored-joined size o chars
                (rendered fuel text args fmt' (if takes then n + 1 else n))))
  ]
]
  where
    go :
        (rest : List ℕ)
        → ((k : ℕ) (fmt' : List ℕ)
            → let (chars, takes) = conversion text (flags fmt).0 k (args n) in
              format_loop fuel text args size fmt'
                (if takes then n + 1 else n)
                (put_all size chars o)
              ≡ stored size o
                  (joined chars (rendered fuel text args fmt' (if takes then n + 1 else n))))
        → (elim rest as (λ _. Option Out) [
          | [] ↦ none
          | k ∷ fmt' ↦
              let (chars, takes) = conversion text (flags fmt).0 k (args n) in
              format_loop fuel text args size fmt'
                (if takes then n + 1 else n)
                (put_all size chars o)
        ])
          ≡ stored size o (elim rest as (λ _. Option (List ℕ)) [
            | [] ↦ none
            | k ∷ fmt' ↦
                let (chars, takes) = conversion text (flags fmt).0 k (args n) in
                joined chars (rendered fuel text args fmt' (if takes then n + 1 else n))
          ])
    go [] h = refl
    go (k ∷ fmt') h = h k fmt'

put_all-place : (size : ℕ) (cs : List ℕ) (o : Out) → (put_all size cs o).place ≡ o.place + length cs
unfolding put_all put
put_all-place size [] o = omega arith
put_all-place size (c ∷ cs) o = put_all-place size cs (put size c o) ∙ ground arith

-- Each character has its place; places at or behind the last one of the buffer are not stored to.
put_all-buf :
    (size : ℕ) (cs : List ℕ) (o : Out) (i : ℕ)
    → (put_all size cs o).buf i ≡ (
        if leb o.place i && (ltb i (o.place + length cs) && ltb i ((size + 2 ^ 64 - 1) % 2 ^ 64))
        then get_or cs (i - o.place) 0
        else o.buf i)
unfolding put_all put
put_all-buf size [] o i = ground arith
put_all-buf size (c ∷ cs) o i =
    let ih = put_all-buf size cs (put size c o) i in
    elim (Bool-cases (o.place == i)) [
      | inl here ↦ let e : i - o.place ≡ 0 = ground arith in rw e (ih ∙ ground arith)
      | inr other ↦ elim (Bool-cases (leb o.place i)) [
        | inl behind ↦
            let e : i - o.place ≡ suc (i - (o.place + 1)) = ground arith in rw e (ih ∙ ground arith)
        | inr before ↦ ih ∙ ground arith
      ]
    ]

vsnprintf_lem :
    (text : ℕ → List ℕ) (args buf : ℕ → ℕ) (size : ℕ) (fmt full : List ℕ)
    → rendered (length fmt + 1) text args fmt 0 ≡ some full
    → vsnprintf text args buf size fmt
      ≡ some (finish size (put_all size full (record { buf = buf; place = 0 })))
unfolding vsnprintf
vsnprintf_lem text args buf size fmt full e =
    let empty : Out = record { buf = buf; place = 0 } in
    let run : format_loop (length fmt + 1) text args size fmt 0 empty
        ≡ some (put_all size full empty) =
      format_loop-rendered (length fmt + 1) text args size fmt 0 empty ∙ ap (stored size empty) e in
    rw (run, vsnprintf) refl

small_int : (n : ℕ) → n < 2 ^ 31 → to_int n ≡ pos n
small_int n lt =
    let same : n % 2 ^ 32 ≡ n = omega arith in
    let low : ltb n (2 ^ 31) ≡ true = ground arith in rw (same, low) refl

-- Where the format ends outside a conversion, its widths fit into an int, the size is not 0, and the
-- whole text is shorter than 2^31, vsnprintf returns the text's length; the buffer has the text's first
-- characters, as many as leave room for the NUL, then the NUL, and is unchanged behind it.
pub vsnprintf-fits :
    (text : ℕ → List ℕ) (args buf : ℕ → ℕ) (size : ℕ) (fmt full : List ℕ)
    → rendered (length fmt + 1) text args fmt 0 ≡ some full
    → 0 < size
    → size < 2 ^ 64
    → length full < 2 ^ 31
    → (out : ℕ → ℕ) × (vsnprintf text args buf size fmt ≡ some (out, pos (length full)))
      × ((i : ℕ)
          → out i ≡ (
              if ltb i (min (length full) (size - 1))
              then get_or full i 0
              else if i == min (length full) (size - 1)
              then 0
              else buf i))
vsnprintf-fits text args buf size fmt full e room fits short =
    let o = put_all size full (record { buf = buf; place = 0 }) in
    let place = put_all-place size full (record { buf = buf; place = 0 }) in
    (
      (finish size o).0,
      vsnprintf_lem text args buf size fmt full e
          ∙ ap (λ n. some ((finish size o).0, n))
              (ap to_int (place ∙ omega arith) ∙ small_int (length full) short),
      λ i.
          let stored_at = put_all-buf size full (record { buf = buf; place = 0 }) i in
          let e0 : i - 0 ≡ i = omega arith in
          let here = rw e0 at stored_at in ground (arith, here, place),
    )

-- With the size 0 the bound wraps, and the whole text is stored.
pub vsnprintf-overruns :
    (text : ℕ → List ℕ) (args buf : ℕ → ℕ) (fmt full : List ℕ)
    → rendered (length fmt + 1) text args fmt 0 ≡ some full
    → length full < 2 ^ 31
    → (out : ℕ → ℕ) × (vsnprintf text args buf 0 fmt ≡ some (out, pos (length full)))
      × ((i : ℕ) → i < length full → out i ≡ get_or full i 0)
vsnprintf-overruns text args buf fmt full e fits =
    let o = put_all 0 full (record { buf = buf; place = 0 }) in
    let place = put_all-place 0 full (record { buf = buf; place = 0 }) in
    (
      o.buf,
      vsnprintf_lem text args buf 0 fmt full e
          ∙ ap (λ n. some (o.buf, n))
              (ap to_int (place ∙ omega arith) ∙ small_int (length full) fits),
      λ i lt.
          let stored_at = put_all-buf 0 full (record { buf = buf; place = 0 }) i in
          let e0 : i - 0 ≡ i = omega arith in (rw e0 at stored_at) ∙ ground arith,
    )
