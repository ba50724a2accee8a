-- ===== src/Keyboard/Refine.antt =====
-- The driver behaves as modifier flags beside a queue of characters.
use mathlib.Core.Option
use gravityos.Base.{
  ℕ, suc, ◌+◌, ◌%◌, ◌<◌, ◌≡◌, refl, arith, Bool, true, false, not, ◌==◌, leb, ◌||◌, if◌then◌else◌,
  List, [], ◌∷◌, Option, none, some, ℕ_discrete, ap, ◌≢◌, ◌∙◌, sym, Option-cases, inl, inr,
}
use gravityos.Keyboard.{
  Keyboard, buffer_size, buffer_put, put_key, key_char, key_pressed, key_released,
  keyboard_handle_byte, keyboard_has_input, keyboard_getchar,
}
use gravityos.Keyboard.Ring.{
  InBounds, contents, count, waiting, enqueue, contents-buffer_put, handle_byte-InBounds,
}

pub record Typist : Type 0 where
  pub shift : Bool
  pub ctrl : Bool
  pub caps : Bool
  pub queue : List ℕ

abbrev pub abstract : Keyboard → Typist
abstract k = record {
  shift = k.shift_pressed;
  ctrl = k.ctrl_pressed;
  caps = k.caps_lock;
  queue = contents k;
}

abbrev type_char : Typist → Option ℕ → Typist
type_char t none = t
type_char t (some c) = record t { queue = enqueue t.queue c }

-- A scancode by its own value: 0x80 more than a key's code is its release.
unfoldable pub typist_byte : Typist → ℕ → Typist
typist_byte t s =
    if (s == 0x2A) || (s == 0x36)
    then record t { shift = true }
    else if (s == 0xAA) || (s == 0xB6)
    then record t { shift = false }
    else if s == 0x1D
    then record t { ctrl = true }
    else if s == 0x9D
    then record t { ctrl = false }
    else if s == 0x3A
    then record t { caps = not t.caps }
    else if (s == 0x38) || leb 0x80 s
    then t
    else type_char t (key_char t.shift t.ctrl t.caps s)

unfoldable pub typist_read : Typist → Option (ℕ × Typist)
typist_read t = elim t.queue [ [] ↦ none | c ∷ q ↦ some (c, record t { queue = q }) ]

flags-buffer_put :
    (k : Keyboard) (c : ℕ)
    → ((buffer_put k c).shift_pressed ≡ k.shift_pressed)
      × ((buffer_put k c).ctrl_pressed ≡ k.ctrl_pressed)
      × ((buffer_put k c).caps_lock ≡ k.caps_lock)
unfolding buffer_put
flags-buffer_put k c = ground arith

abstract-put_key :
    (k : Keyboard) (o : Option ℕ) → InBounds k → abstract (put_key k o) ≡ type_char (abstract k) o
unfolding put_key
abstract-put_key k none b = refl
abstract-put_key k (some c) b =
    let f = flags-buffer_put k c in rw (f.0, f.1, f.2, contents-buffer_put k c b)

-- One scancode, whichever it is.
pub handle_byte_refines :
    (k : Keyboard) (s : ℕ)
    → s < 256
    → InBounds k
    → abstract (keyboard_handle_byte k s) ≡ typist_byte (abstract k) s
unfolding keyboard_handle_byte key_pressed key_released typist_byte
handle_byte_refines k s lt b =
    ground (arith, abstract-put_key k (key_char k.shift_pressed k.ctrl_pressed k.caps_lock s) b)

contents_empty : (k : Keyboard) → InBounds k → k.head ≡ k.tail → contents k ≡ []
contents_empty k b e =
    let none_wait : count k ≡ 0 = omega arith in ap (waiting k.buffer k.tail) none_wait

abbrev read_on : Keyboard → Keyboard
read_on k = record k { tail = (k.tail + 1) % buffer_size }

contents_cons :
    (k : Keyboard)
    → InBounds k
    → k.head ≢ k.tail
    → contents k ≡ k.buffer k.tail ∷ contents (read_on k)
contents_cons k b ne =
    let more : count k ≡ suc (count (read_on k)) = omega arith in ap (waiting k.buffer k.tail) more

-- A character, and the state that its reading leaves.
abbrev pub seen : ℕ × Keyboard → ℕ × Typist
seen (c, k) = (c, abstract k)

-- A read takes the oldest character, and waits exactly where the queue is empty.
pub getchar_refines :
    (k : Keyboard) → InBounds k → Option.map seen (keyboard_getchar k) ≡ typist_read (abstract k)
unfolding keyboard_getchar keyboard_has_input typist_read
getchar_refines k b = elim (ℕ_discrete k.head k.tail) [
  | yes e ↦ ground (arith, contents_empty k b e)
  | no ne ↦ ground (arith, contents_cons k b ne)
]

getchar-InBounds :
    (k : Keyboard) (c : ℕ) (k' : Keyboard)
    → InBounds k
    → keyboard_getchar k ≡ some (c, k')
    → InBounds k'
unfolding keyboard_getchar
getchar-InBounds k c k' b e = ground arith

-- What happens to the driver, in order: a byte of the keyboard arrives, or a program reads.
pub data Event : Type 0 where
  byte : ℕ → Event
  read : Event

-- What the reads return; a read that would wait is passed over, and stands as `none`.
unfoldable pub run : Keyboard → List Event → List (Option ℕ)
run k [] = []
run k (byte s ∷ es) = run (keyboard_handle_byte k s) es
run k (read ∷ es) = elim (keyboard_getchar k) [
  | none ↦ none ∷ run k es
  | some (c, k') ↦ some c ∷ run k' es
]

unfoldable pub typist_run : Typist → List Event → List (Option ℕ)
typist_run t [] = []
typist_run t (byte s ∷ es) = typist_run (typist_byte t s) es
typist_run t (read ∷ es) = elim (typist_read t) [
  | none ↦ none ∷ typist_run t es
  | some (c, t') ↦ some c ∷ typist_run t' es
]

abbrev pub AreScancodes : List Event → Type 0
AreScancodes [] = Unit {0}
AreScancodes (byte s ∷ es) = (s < 256) × AreScancodes es
AreScancodes (read ∷ es) = AreScancodes es

-- For scancodes below 256 and indices in the ring, no interleaving of interrupts and reads tells the
-- driver from the queue: the reads return the characters of the keys in the order of the keys, and
-- what finds 255 waiting is dropped.
pub run_refines :
    (es : List Event) (k : Keyboard)
    → AreScancodes es
    → InBounds k
    → run k es ≡ typist_run (abstract k) es
unfolding run typist_run
run_refines [] k s b = refl
run_refines (byte x ∷ es) k s b =
    rw (← handle_byte_refines k x s.0 b)
      (run_refines es (keyboard_handle_byte k x) s.1 (handle_byte-InBounds k x b))
run_refines (read ∷ es) k s b = elim (Option-cases (keyboard_getchar k)) [
  | inl e ↦
      let t : typist_read (abstract k) ≡ none =
        sym (getchar_refines k b) ∙ ap (Option.map seen) e in
      rw (e, t, run, typist_run) (ap (◌∷◌ none) (run_refines es k s b))
  | inr ((c, k'), e) ↦
      let t : typist_read (abstract k) ≡ some (c, abstract k') =
        sym (getchar_refines k b) ∙ ap (Option.map seen) e in
      rw (e, t, run, typist_run)
        (ap (◌∷◌ (some c)) (run_refines es k' s (getchar-InBounds k c k' b e)))
]
