-- ===== src/Keyboard/Ring.antt =====
-- The keyboard's ring as a bounded first-in first-out queue, against interrupts and reads in any
-- order.
use gravityos.Base.{
  ℕ, zero, suc, ◌+◌, ◌-◌, ◌%◌, ◌<◌, ◌≡◌, ◌≢◌, refl, arith, ltb, ap, ap₂, if◌then◌else◌, List, [],
  ◌∷◌, ◌++◌, Option, none, some, length, update, update_self, update_ne, ℕ_discrete,
}
use gravityos.Keyboard.{
  Keyboard, buffer_size, buffer_put, put_key, key_char, key_pressed, key_released,
  keyboard_handle_byte,
}

pub record InBounds (k : Keyboard) : Type 0 where
  pub head_in : k.head < buffer_size
  pub tail_in : k.tail < buffer_size

-- The `n` characters from index `at` on, round the ring.
abbrev pub waiting : (ℕ → ℕ) → ℕ → ℕ → List ℕ
waiting buffer at zero = []
waiting buffer at (suc n) = buffer at ∷ waiting buffer ((at + 1) % buffer_size) n

abbrev pub count : Keyboard → ℕ
count k = (k.head + buffer_size - k.tail) % buffer_size

abbrev pub contents : Keyboard → List ℕ
contents k = waiting k.buffer k.tail (count k)

length-waiting : (buffer : ℕ → ℕ) (at n : ℕ) → length (waiting buffer at n) ≡ n
length-waiting buffer at zero = refl
length-waiting buffer at (suc n) = ap suc (length-waiting buffer ((at + 1) % buffer_size) n)

-- A store at the index just behind the characters appends to them.
waiting-update :
    (buffer : ℕ → ℕ) (i c at n : ℕ)
    → at < buffer_size
    → n < buffer_size
    → i ≡ (at + n) % buffer_size
    → waiting (update buffer i c) at (suc n) ≡ waiting buffer at n ++ c ∷ []
waiting-update buffer i c at zero hat hn e =
    let here : i ≡ at = omega arith in rw here (ap (λ x. x ∷ []) (update_self buffer at c))
waiting-update buffer i c at (suc n) hat hn e =
    ap₂ ◌∷◌ (update_ne buffer i at c (omega arith)) (
      waiting-update buffer i c ((at + 1) % buffer_size) n (omega arith) (omega arith)
        (omega arith))

-- The queue of at most 255 characters that the ring stands for.
abbrev pub capacity : ℕ
capacity = 255

unfoldable pub enqueue : List ℕ → ℕ → List ℕ
enqueue q c = if ltb (length q) capacity then q ++ c ∷ [] else q

put_count :
    (k : Keyboard)
    → InBounds k
    → ((k.head + 1) % buffer_size ≢ k.tail)
    → (((k.head + 1) % buffer_size + buffer_size - k.tail) % buffer_size ≡ suc (count k))
      × (count k < capacity)
      × (k.head ≡ (k.tail + count k) % buffer_size)
put_count k b ne = omega arith

-- With both indices in the ring, a character goes to the end of the queue, or is dropped where 255
-- characters wait already.
pub contents-buffer_put :
    (k : Keyboard) (c : ℕ) → InBounds k → contents (buffer_put k c) ≡ enqueue (contents k) c
unfolding buffer_put enqueue
contents-buffer_put k c b = elim (ℕ_discrete ((k.head + 1) % buffer_size) k.tail) [
  | yes full ↦ ground (arith, length-waiting k.buffer k.tail (count k))
  | no room ↦
      let p = put_count k b room in
      ground (
        arith,
        p,
        length-waiting k.buffer k.tail (count k),
        waiting-update k.buffer k.head c k.tail (count k),
      )
]

pub buffer_put-InBounds : (k : Keyboard) (c : ℕ) → InBounds k → InBounds (buffer_put k c)
unfolding buffer_put
buffer_put-InBounds k c b = ground arith

put_key-InBounds : (k : Keyboard) (o : Option ℕ) → InBounds k → InBounds (put_key k o)
unfolding put_key
put_key-InBounds k none b = b
put_key-InBounds k (some c) b = buffer_put-InBounds k c b

-- Whatever the scancode, indices that are in the ring stay there.
pub handle_byte-InBounds :
    (k : Keyboard) (scancode : ℕ) → InBounds k → InBounds (keyboard_handle_byte k scancode)
unfolding keyboard_handle_byte key_pressed key_released
handle_byte-InBounds k scancode b =
    ground
      (arith, put_key-InBounds k (key_char k.shift_pressed k.ctrl_pressed k.caps_lock scancode) b)
