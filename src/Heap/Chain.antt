-- ===== src/Heap/Chain.antt =====
-- The heap's list of blocks: ascending, aligned, without overlap, and coalesced.
use gravityos.Base.{
  ℕ, ◌+◌, ◌-◌, ◌%◌, ◌<◌, ◌≤◌, ◌≡◌, refl, arith, Bool, true, false, not, ◌&&◌, List, [], ◌∷◌, ◌++◌,
  Option, none, some, ltb, ◌==◌, if◌then◌else◌, Bool-cases, inl, inr,
}
use gravityos.Heap.{
  Block, word, header, heap_magic, free_block, first_fit, fits, keep_block, take_first, split_block,
}

pub record IsBlock (lo : ℕ) (b : Block) : Type 0 where
  pub above : lo ≤ b.addr
  pub addr_aligned : b.addr % 16 ≡ 0
  pub size_aligned : b.size % 16 ≡ 0
  pub magic : b.magic ≡ heap_magic

abbrev pub end_of : Block → ℕ
end_of b = b.addr + header + b.size

-- The blocks stand between `lo` and `hi` in ascending order, each behind the end of the one before.
abbrev pub Chain : ℕ → List Block → ℕ → Type 0
Chain lo [] hi = lo ≤ hi
Chain lo (b ∷ bs) hi = IsBlock lo b × Chain (end_of b) bs hi

-- The first block is free and starts at `e`.
abbrev pub free_at : ℕ → List Block → Bool
free_at e [] = false
free_at e (b ∷ bs) = b.is_free && (b.addr == e)

-- No two free blocks touch.
abbrev pub Coalesced : List Block → Type 0
Coalesced [] = Unit {0}
Coalesced (b ∷ bs) = ((b.is_free && free_at (end_of b) bs) ≡ false) × Coalesced bs

-- The size of the block in use whose header is at `a`.
abbrev pub used : ℕ → List Block → Option ℕ
used a [] = none
used a (b ∷ bs) = if (b.addr == a) && not b.is_free then some b.size else used a bs

-- All bytes of the blocks, their headers included.
abbrev pub extent : List Block → ℕ
extent [] = 0
extent (b ∷ bs) = header + b.size + extent bs

pub Chain-le : (lo : ℕ) (bs : List Block) (hi : ℕ) → Chain lo bs hi → lo ≤ hi
Chain-le lo [] hi c = c
Chain-le lo (b ∷ bs) hi c = omega (arith, Chain-le (end_of b) bs hi c.1)

pub Chain-mono :
    (lo lo' : ℕ) (bs : List Block) (hi : ℕ) → lo' ≤ lo → Chain lo bs hi → Chain lo' bs hi
Chain-mono lo lo' [] hi h c = omega arith
Chain-mono lo lo' (b ∷ bs) hi h c = (omega arith, c.1)

pub Chain-widen :
    (lo : ℕ) (bs : List Block) (hi hi' : ℕ) → hi ≤ hi' → Chain lo bs hi → Chain lo bs hi'
Chain-widen lo [] hi hi' h c = omega arith
Chain-widen lo (b ∷ bs) hi hi' h c = (c.0, Chain-widen (end_of b) bs hi hi' h c.1)

-- A chain has no header below its start.
pub used_below : (lo hi a : ℕ) (bs : List Block) → Chain lo bs hi → a < lo → used a bs ≡ none
used_below lo hi a [] c h = refl
used_below lo hi a (b ∷ bs) c h = ground (arith, used_below (end_of b) hi a bs c.1, c.0.above)

-- A list that may stand for `bs` behind any block: no new free block at its front.
abbrev pub Tamer : List Block → List Block → Type 0
Tamer bs bs' = (e : ℕ) → free_at e bs ≡ false → free_at e bs' ≡ false

-- What first fit makes of the list, with the block's header at `q`.
pub record Fitted (lo hi size : ℕ) (bs : List Block) (p : ℕ) (bs' : List Block) : Type 0 where
  pub q : ℕ
  pub got : ℕ
  pub pointer : p ≡ q + header
  pub aligned : q % 16 ≡ 0
  pub above : lo ≤ q
  pub enough : size ≤ got
  pub inside : q + header + got ≤ hi
  pub fresh : used q bs ≡ none
  pub chain : Chain lo bs' hi
  pub users : (a : ℕ) → used a bs' ≡ (if q == a then some got else used a bs)
  pub bytes : extent bs' ≡ extent bs
  pub tamer : Tamer bs bs'
  pub coalesced : Coalesced bs → Coalesced bs'

-- No block is free and large enough.
abbrev pub NoneFits : ℕ → List Block → Type 0
NoneFits size [] = Unit {0}
NoneFits size (b ∷ bs) = (fits size b ≡ false) × NoneFits size bs

abbrev pub FitResult : ℕ → ℕ → ℕ → List Block → Option (ℕ × List Block) → Type 0
FitResult lo hi size bs none = NoneFits size bs
FitResult lo hi size bs (some (p, bs')) = Fitted lo hi size bs p bs'

module _ (lo hi size : ℕ) (b : Block) (bs : List Block) (small : hi < word) where
  fit_later :
      (o : Option (ℕ × List Block))
      → fits size b ≡ false
      → IsBlock lo b
      → FitResult (end_of b) hi size bs o
      → FitResult lo hi size (b ∷ bs) (keep_block b o)
  fit_later none no_fit is h = (no_fit, h)
  fit_later (some (p, bs')) no_fit is f = record {
    q = f.q;
    got = f.got;
    pointer = f.pointer;
    aligned = f.aligned;
    above = omega (arith, f.above, is.above);
    enough = f.enough;
    inside = f.inside;
    fresh = ground (arith, f.fresh, f.above);
    chain = (is, f.chain);
    users = λ a. ground (arith, f.users a, f.above);
    bytes = omega (arith, f.bytes);
    tamer = λ e h. h;
    coalesced = λ c. (ground (arith, f.tamer (end_of b)), f.coalesced c.1);
  }

  fit_whole :
      fits size b ≡ true
      → Chain lo (b ∷ bs) hi
      → Fitted lo hi size (b ∷ bs) ((b.addr + header) % word) (record b { is_free = false } ∷ bs)
  fit_whole fit (is, rest) =
      let top = Chain-le (end_of b) bs hi rest in
      record {
        q = b.addr;
        got = b.size;
        pointer = omega arith;
        aligned = is.addr_aligned;
        above = is.above;
        enough = ground arith;
        inside = top;
        fresh = ground (arith, used_below (end_of b) hi b.addr bs rest);
        chain = (
          record {
            above = is.above;
            addr_aligned = is.addr_aligned;
            size_aligned = is.size_aligned;
            magic = is.magic;
          },
          rest,
        );
        users = λ a. ground arith;
        bytes = refl;
        tamer = λ e h. refl;
        coalesced = λ c. (refl, c.1);
      }

  fit_split :
      fits size b ≡ true
      → size + (header + 16) ≤ b.size
      → size % 16 ≡ 0
      → Chain lo (b ∷ bs) hi
      → Fitted lo hi size (b ∷ bs) ((b.addr + header) % word) (
          record b { size = size; is_free = false }
          ∷ free_block ((b.addr + header + size) % word) (b.size - size - header)
          ∷ bs)
  fit_split fit room al (is, rest) =
      let top = Chain-le (end_of b) bs hi rest in
      let at : (b.addr + header + size) % word ≡ b.addr + header + size = omega arith in
      let stop : b.addr + header + size + header + (b.size - size - header) ≡ end_of b =
        omega arith in
      rw at (record {
        q = b.addr;
        got = size;
        pointer = omega arith;
        aligned = is.addr_aligned;
        above = is.above;
        enough = omega arith;
        inside = omega arith;
        fresh = ground (arith, used_below (end_of b) hi b.addr bs rest);
        chain = (
          record {
            above = is.above;
            addr_aligned = is.addr_aligned;
            size_aligned = al;
            magic = is.magic;
          },
          (
            record {
              above = omega arith;
              addr_aligned = omega (arith, is.addr_aligned);
              size_aligned = omega (arith, is.size_aligned);
              magic = refl;
            },
            rw stop rest,
          ),
        );
        users = λ a. ground arith;
        bytes = omega arith;
        tamer = λ e h. refl;
        coalesced = λ c. (refl, (rw stop (ground (arith, c.0)), c.1));
      })

  fit_here :
      fits size b ≡ true
      → size % 16 ≡ 0
      → size < word - 64
      → Chain lo (b ∷ bs) hi
      → Fitted lo hi size
          (b ∷ bs)
          ((b.addr + header) % word)
          (take_first (split_block b size) ++ bs)
  unfolding split_block take_first
  fit_here fit al max c = elim (Bool-cases (ltb b.size ((size + (header + 16)) % word))) [
    | inl small_rest ↦ rw small_rest (fit_whole fit c)
    | inr big_rest ↦ rw big_rest (fit_split fit (ground arith) al c)
  ]

-- On a list of blocks in order, for an aligned size within the word, first fit hands out a free block
-- that is large enough, or the front part of one, and changes no other block's use; it fails only
-- where no free block is large enough.
pub first_fit-FitResult :
    (lo hi size : ℕ) (bs : List Block)
    → hi < word
    → size % 16 ≡ 0
    → size < word - 64
    → Chain lo bs hi
    → FitResult lo hi size bs (first_fit size bs)
unfolding first_fit
first_fit-FitResult lo hi size [] small al max c = tt
first_fit-FitResult lo hi size (b ∷ bs) small al max c = elim (Bool-cases (fits size b)) [
  | inl fit ↦ rw fit (fit_here lo hi size b bs small fit al max c)
  | inr no_fit ↦ rw no_fit (
      fit_later lo hi size b bs small (first_fit size bs) no_fit c.0
        (first_fit-FitResult (end_of b) hi size bs small al max c.1))
]
