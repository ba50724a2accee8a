-- ===== src/Heap/Release.antt =====
-- kfree: the block is free, its neighbours coalesce, and nothing else changes.
use gravityos.Base.{
  ℕ, ◌+◌, ◌%◌, ◌<◌, ◌≤◌, ◌≡◌, refl, arith, Bool, true, false, ◌&&◌, List, [], ◌∷◌, ◌==◌, Bool-cases,
  inl, inr,
}
use gravityos.Heap.{Block, word, header, joined, merge_next, merge_prev}
use gravityos.Heap.Chain.{IsBlock, end_of, Chain, Chain-le, free_at, Coalesced, used, extent}

abbrev pub front_free : List Block → Bool
front_free [] = true
front_free (b ∷ bs) = b.is_free

and_false : (a b : Bool) → b ≡ false → (a && b) ≡ false
and_false a b h = ground arith

-- What coalescing keeps.
pub record Merged (lo hi : ℕ) (bs bs' : List Block) : Type 0 where
  pub chain : Chain lo bs' hi
  pub users : (a : ℕ) → used a bs' ≡ used a bs
  pub bytes : extent bs' ≡ extent bs

joined-IsBlock :
    (lo hi : ℕ) (b c : Block) (bs : List Block)
    → hi < word
    → (c.addr == (b.addr + header + b.size) % word) ≡ true
    → Chain lo (b ∷ c ∷ bs) hi
    → IsBlock lo (joined b c)
      × (end_of (joined b c) ≡ end_of c)
      × ((joined b c).size ≡ b.size + (header + c.size))
joined-IsBlock lo hi b c bs small touch (is, (ic, rest)) =
    let top = Chain-le (end_of c) bs hi rest in
    let at : c.addr ≡ end_of b = ground (arith, top) in
    let size : (b.size + (header + c.size)) % word ≡ b.size + (header + c.size) = omega arith in
    rw size (
      record {
        above = is.above;
        addr_aligned = is.addr_aligned;
        size_aligned = omega (arith, is.size_aligned, ic.size_aligned);
        magic = is.magic;
      },
      omega arith,
      refl,
    )

joined-Merged :
    (lo hi : ℕ) (b c : Block) (bs : List Block)
    → hi < word
    → b.is_free ≡ true
    → c.is_free ≡ true
    → (c.addr == (b.addr + header + b.size) % word) ≡ true
    → Chain lo (b ∷ c ∷ bs) hi
    → Merged lo hi (b ∷ c ∷ bs) (joined b c ∷ bs)
joined-Merged lo hi b c bs small fb fc touch chain =
    let (is, stop, size) = joined-IsBlock lo hi b c bs small touch chain in
    record {
      chain = (is, rw stop chain.1.1);
      users = λ a. ground (arith, fb, fc);
      bytes = omega (arith, size);
    }

module _ (lo hi : ℕ) (b : Block) (small : hi < word) (free : b.is_free ≡ true) where
  pub merge_next-Merged :
      (bs : List Block) → Chain lo (b ∷ bs) hi → Merged lo hi (b ∷ bs) (merge_next b bs)
  unfolding merge_next
  merge_next-Merged [] chain = record { chain = chain; users = λ a. refl; bytes = refl }
  merge_next-Merged (c ∷ bs) chain =
      elim (Bool-cases (c.is_free && (c.addr == (b.addr + header + b.size) % word))) [
        | inl t ↦ rw t (joined-Merged lo hi b c bs small free (ground arith) (ground arith) chain)
        | inr f ↦ rw f (record { chain = chain; users = λ a. refl; bytes = refl })
      ]

  pub merge_next-Coalesced :
      (bs : List Block) → Chain lo (b ∷ bs) hi → Coalesced bs → Coalesced (merge_next b bs)
  unfolding merge_next
  merge_next-Coalesced [] chain k = (ground arith, tt)
  merge_next-Coalesced (c ∷ bs) chain k =
      elim (Bool-cases (c.is_free && (c.addr == (b.addr + header + b.size) % word))) [
        | inl t ↦
            let (is, stop, size) = joined-IsBlock lo hi b c bs small (ground arith) chain in
            rw t (rw stop (ground (arith, k.0)), k.1)
        | inr f ↦
            let top : end_of b ≤ hi = Chain-le (end_of b) (c ∷ bs) hi chain.1 in
            let stop : (b.addr + header + b.size) % word ≡ end_of b = omega arith in
            let apart : free_at (end_of b) (c ∷ bs) ≡ false = rw stop at f in
            rw f (and_false b.is_free _ apart, k)
      ]

  pub merge_next_front : (bs : List Block) → front_free (merge_next b bs) ≡ true
  unfolding merge_next
  merge_next_front [] = free
  merge_next_front (c ∷ bs) = ground (arith, free)

-- The same where the block in front swallows a free one.
module _ (lo hi : ℕ) (p : Block) (small : hi < word) where
  pub merge_prev-Merged :
      (bs : List Block)
      → front_free bs ≡ true
      → Chain lo (p ∷ bs) hi
      → Merged lo hi (p ∷ bs) (merge_prev p bs)
  unfolding merge_prev
  merge_prev-Merged [] free chain = record { chain = chain; users = λ a. refl; bytes = refl }
  merge_prev-Merged (b ∷ bs) free chain =
      elim (Bool-cases (p.is_free && (b.addr == (p.addr + header + p.size) % word))) [
        | inl t ↦ rw t (joined-Merged lo hi p b bs small (ground arith) free (ground arith) chain)
        | inr f ↦ rw f (record { chain = chain; users = λ a. refl; bytes = refl })
      ]

  pub merge_prev-Coalesced :
      (bs : List Block)
      → front_free bs ≡ true
      → Chain lo (p ∷ bs) hi
      → Coalesced bs
      → Coalesced (merge_prev p bs)
  unfolding merge_prev
  merge_prev-Coalesced [] free chain k = (ground arith, tt)
  merge_prev-Coalesced (b ∷ bs) free chain k =
      elim (Bool-cases (p.is_free && (b.addr == (p.addr + header + p.size) % word))) [
        | inl t ↦
            let (is, stop, size) = joined-IsBlock lo hi p b bs small (ground arith) chain in
            rw t (rw stop (ground (arith, k.0, free)), k.1)
        | inr f ↦
            let top : end_of p ≤ hi = Chain-le (end_of p) (b ∷ bs) hi chain.1 in
            let stop : (p.addr + header + p.size) % word ≡ end_of p = omega arith in
            let apart : (p.is_free && (b.addr == end_of p)) ≡ false = rw stop at f in
            rw f (ground (arith, apart), k)
      ]

  pub merge_prev_front :
      (bs : List Block) (e : ℕ) → free_at e (merge_prev p bs) ≡ (p.is_free && (p.addr == e))
  unfolding merge_prev
  merge_prev_front [] e = refl
  merge_prev_front (b ∷ bs) e = ground arith
