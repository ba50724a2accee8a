-- ===== src/Strings/Terminated.antt =====
-- A C string, and strlen.
use gravityos.Base.{ℕ, zero, suc, ◌+◌, ◌<◌, ◌≡◌, ◌≢◌, refl, arith, true, false, ◌==◌, some}
use gravityos.Strings.{Bytes, strlen_from, strlen}

-- At `p` stands a string of length `l`: its first NUL is behind `l` bytes.
pub record IsString (m : Bytes) (p l : ℕ) : Type 0 where
  pub stop : m (p + l) ≡ 0
  pub body : (i : ℕ) → i < l → m (p + i) ≢ 0

pub IsString-head : (m : Bytes) (p l : ℕ) → IsString m p (suc l) → m p ≢ 0
IsString-head m p l s = let zeros : p + 0 ≡ p = omega arith in rw zeros at (s.body 0 (omega arith))

pub IsString-tail : (m : Bytes) (p l : ℕ) → IsString m p (suc l) → IsString m (p + 1) l
IsString-tail m p l s = record {
  stop = let shift : p + suc l ≡ p + 1 + l = omega arith in rw shift at s.stop;
  body = λ i lt.
      let shift : p + suc i ≡ p + 1 + i = omega arith in rw shift at (s.body (suc i) (omega arith));
}

pub IsString-end : (m : Bytes) (p : ℕ) → IsString m p 0 → m p ≡ 0
IsString-end m p s = let zeros : p + 0 ≡ p = omega arith in rw zeros at s.stop

strlen_from_lem :
    (n fuel : ℕ) (m : Bytes) (s len l : ℕ)
    → IsString m s l
    → len + n ≡ l
    → n < fuel
    → strlen_from fuel m s len ≡ some l
unfolding strlen_from
strlen_from_lem n zero m s len l h e lt = elim lt [ ]
strlen_from_lem zero (suc fuel) m s len l h e lt =
    let here : len ≡ l = omega arith in
    let z : (m (s + l) == 0) ≡ true = ground (arith, h.stop) in rw (here, z) refl
strlen_from_lem (suc n) (suc fuel) m s len l h e lt =
    let nz : (m (s + len) == 0) ≡ false = ground (arith, h.body len (omega arith)) in
    rw nz (strlen_from_lem n fuel m s (len + 1) l h (omega arith) (omega arith))

-- With fuel above its length, strlen comes to an end with the length of the string.
pub strlen_lem :
    (fuel : ℕ) (m : Bytes) (s l : ℕ) → IsString m s l → l < fuel → strlen fuel m s ≡ some l
unfolding strlen
strlen_lem fuel m s l h lt = strlen_from_lem l fuel m s 0 l h (omega arith) lt
