-- ===== src/Vfs/Normal.antt =====
-- What vfs_normalize_path writes.
use gravityos.Base.{
  ℕ, zero, suc, ◌+◌, ◌<◌, ◌≤◌, ◌≡◌, ◌≢◌, ◌⊎◌, arith, min, true, false, ◌==◌, update, update_self,
  update_ne, inl, ap, sym, ◌∙◌, subst, ℕ_discrete,
}
use gravityos.Strings.{Bytes}
use gravityos.Strings.Terminated.{IsString, IsString-head, IsString-tail, IsString-end}
use gravityos.Vfs.{slash, normalize_from, vfs_normalize_path}

-- The character `c'` for `c`: a slash (47) for a backslash (92), and every other character as it is.
abbrev pub Slashed : ℕ → ℕ → Type 0
Slashed c c' = (c ≡ 92 → c' ≡ 47) × (c ≢ 92 → c' ≡ c)

slash-Slashed : (c c' : ℕ) → c' ≡ slash c → Slashed c c'
slash-Slashed c c' e = (λ back. ground (arith, e), λ other. ground (arith, e))

-- From index `i` on stand the characters of the path, `len` of them, with slashes, and a NUL; no byte
-- outside the room for them changes.
abbrev pub Normalized : ℕ → ℕ → ℕ → ℕ → ℕ → Bytes → Bytes → Type 0
Normalized input output i len room m m' =
    ((j : ℕ) → i ≤ j → j < i + len → Slashed (m (input + j)) (m' (output + j)))
    × (m' (output + (i + len)) ≡ 0)
    × ((x : ℕ) → (x < output + i) ⊎ (output + (i + room) < x) → m' x ≡ m x)

IsString-kept :
    (m m' : Bytes) (p l : ℕ)
    → ((i : ℕ) → i ≤ l → m' (p + i) ≡ m (p + i))
    → IsString m p l
    → IsString m' p l
IsString-kept m m' p l same s = record {
  stop = same l (omega arith) ∙ s.stop;
  body = λ i lt nul. s.body i lt (sym (same i (omega arith)) ∙ nul);
}

-- One character, then the rest of the path.
Normalized-suc :
    (input output i len room : ℕ) (m m' : Bytes)
    → (input + (i + suc len) ≤ output) ⊎ (output + 256 ≤ input)
    → i + suc room ≤ 255
    → len ≤ room
    → Normalized input output (i + 1) len room (update m (output + i) (slash (m (input + i)))) m'
    → Normalized input output i (suc len) (suc room) m m'
Normalized-suc input output i len room m m' apart small le (chars, nul, outside) =
    let e : i + 1 + len ≡ i + suc len = omega arith in
    (
      λ j low high. elim (ℕ_discrete i j) [
        | yes here ↦ rw⁻¹ here (
            slash-Slashed (m (input + i)) (m' (output + i)) (
              outside (output + i) (inl (omega arith))
              ∙ update_self m (output + i) (slash (m (input + i)))))
        | no later ↦
            subst (λ c. Slashed c (m' (output + j)))
              (update_ne m (output + i) (input + j) (slash (m (input + i))) (omega arith))
              (chars j (omega arith) (omega arith))
      ],
      rw e at nul,
      λ x out.
          outside x (omega arith)
          ∙ update_ne m (output + i) x (slash (m (input + i))) (omega arith),
    )

-- The NUL where the path or the room ends.
Normalized-end :
    (input output i room : ℕ) (m : Bytes) (len : ℕ)
    → len ≡ 0
    → Normalized input output i len room m (update m (output + i) 0)
Normalized-end input output i room m len e =
    let here : output + (i + len) ≡ output + i = omega arith in
    (
      λ j low high. absurd (omega arith),
      ap (update m (output + i) 0) here ∙ update_self m (output + i) 0,
      λ x out. update_ne m (output + i) x 0 (omega arith),
    )

module _ (input output : ℕ) where
  normalize_from-Normalized :
      (n i l : ℕ) (m : Bytes)
      → (input + i + l < output) ⊎ (output + 256 ≤ input)
      → i + n ≤ 255
      → IsString m (input + i) l
      → Normalized input output i (min l n) n m (normalize_from input output n i m)
  unfolding normalize_from
  normalize_from-Normalized zero i l m apart room path =
      Normalized-end input output i 0 m (min l 0) (omega arith)
  normalize_from-Normalized (suc n) i zero m apart room path =
      let nul : (m (input + i) == 0) ≡ true = ground (arith, IsString-end m (input + i) path) in
      rw nul (Normalized-end input output i (suc n) m (min 0 (suc n)) (omega arith))
  normalize_from-Normalized (suc n) i (suc l) m apart room path =
      let more : (m (input + i) == 0) ≡ false =
        ground (arith, IsString-head m (input + i) l path) in
      let m1 = update m (output + i) (slash (m (input + i))) in
      let next : input + i + 1 ≡ input + (i + 1) = omega arith in
      let kept : (k : ℕ) → k ≤ l → m1 (input + i + 1 + k) ≡ m (input + i + 1 + k) = λ k le.
        update_ne m (output + i) (input + i + 1 + k) (slash (m (input + i))) (omega arith) in
      let path' =
        subst (λ p. IsString m1 p l) next
          (IsString-kept m m1 (input + i + 1) l kept (IsString-tail m (input + i) l path)) in
      let rest = normalize_from-Normalized n (i + 1) l m1 (omega arith) (omega arith) path' in
      let least : suc (min l n) ≡ min (suc l) (suc n) = omega arith in
      rw more (
        subst
          (λ len.
            Normalized input output i len (suc n) m (normalize_from input output n (i + 1) m1))
          least
          (Normalized-suc input output i (min l n) n m (normalize_from input output n (i + 1) m1)
            (omega arith) (omega arith) (omega arith) rest))

-- For a path of any length that ends below the buffer of 256 bytes or starts behind it: the buffer has
-- the path's first 255 characters, with each backslash as a slash, and a NUL behind them, and no byte
-- outside the buffer changes.
pub normalize_path-Normalized :
    (input output l : ℕ) (m : Bytes)
    → (input + l < output) ⊎ (output + 256 ≤ input)
    → IsString m input l
    → Normalized input output 0 (min l 255) 255 m (vfs_normalize_path input output m)
unfolding vfs_normalize_path
normalize_path-Normalized input output l m apart path =
    let zeros : input ≡ input + 0 = omega arith in
    normalize_from-Normalized input output 255 0 l m (omega arith) (omega arith)
      (subst (λ p. IsString m p l) zeros path)
