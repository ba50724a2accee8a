-- ===== src/Heap/Free.antt =====
-- kfree on every kind of pointer.
use gravityos.Base.{
  ℕ, ◌+◌, ◌-◌, ◌%◌, ◌<◌, ◌≡◌, ◌≢◌, refl, arith, true, false, List, [], ◌∷◌, Option, none, some,
  ◌==◌, if◌then◌else◌, Bool, ◌&&◌, ◌||◌, Bool-cases, inl, inr, ap, ◌∙◌,
}
use gravityos.Heap.{
  Block, Heap, word, header, heap_start, heap_magic, merge_next, merge_prev, heads, release,
  find_block, FreeStatus, freed, null, bad_magic, double_free, faulted, forged, stray_status,
  free_found, kfree,
}
use gravityos.Heap.Chain.{end_of, Chain, free_at, Coalesced, used, used_below, extent}
use gravityos.Heap.Expand.{IsSound}
use gravityos.Heap.Release.{
  front_free, merge_next-Merged, merge_next-Coalesced, merge_next_front, merge_prev-Merged,
  merge_prev-Coalesced, merge_prev_front,
}

-- From `bs` to `bs'` the block whose header is at `a` is freed.
record Released (lo hi a : ℕ) (bs bs' : List Block) : Type 0 where
  chain : Chain lo bs' hi
  users : (x : ℕ) → used x bs' ≡ (if a == x then none else used x bs)
  bytes : extent bs' ≡ extent bs
  coalesced : Coalesced bs → Coalesced bs'
  front : heads a bs ≡ false → (e : ℕ) → free_at e bs' ≡ free_at e bs
  freed : heads a bs ≡ true → front_free bs' ≡ true

release_head :
    (lo hi a : ℕ) (b : Block) (bs : List Block)
    → hi < word
    → (b.addr == a) ≡ true
    → Chain lo (b ∷ bs) hi
    → Released lo hi a (b ∷ bs) (merge_next (record b { is_free = true }) bs)
release_head lo hi a b bs small here chain =
    let opened : Chain lo (record b { is_free = true } ∷ bs) hi = (
      record {
        above = chain.0.above;
        addr_aligned = chain.0.addr_aligned;
        size_aligned = chain.0.size_aligned;
        magic = chain.0.magic;
      },
      chain.1,
    ) in
    let m = merge_next-Merged lo hi (record b { is_free = true }) small refl bs opened in
    record {
      chain = m.chain;
      users = λ x. ground (arith, m.users x, used_below (end_of b) hi a bs chain.1, here);
      bytes = m.bytes;
      coalesced =
          λ k. merge_next-Coalesced lo hi (record b { is_free = true }) small refl bs opened k.1;
      front = λ h. cc;
      freed = λ h. merge_next_front lo hi (record b { is_free = true }) small refl bs;
    }

release_later :
    (lo hi a : ℕ) (b : Block) (bs bs' : List Block)
    → hi < word
    → (b.addr == a) ≡ false
    → Chain lo (b ∷ bs) hi
    → Released (end_of b) hi a bs bs'
    → Released lo hi a (b ∷ bs) (if heads a bs then merge_prev b bs' else b ∷ bs')
release_later lo hi a b bs bs' small ne chain r = elim (Bool-cases (heads a bs)) [
  | inl next ↦
      let m = merge_prev-Merged lo hi b small bs' (r.freed next) (chain.0, r.chain) in
      rw next (record {
        chain = m.chain;
        users = λ x. ground (arith, m.users x, r.users x, ne);
        bytes = m.bytes ∙ ap (λ n. header + b.size + n) r.bytes;
        coalesced = λ k.
            merge_prev-Coalesced lo hi b small bs' (r.freed next) (chain.0, r.chain)
              (r.coalesced k.1);
        front = λ h e. merge_prev_front lo hi b small bs' e;
        freed = λ h. cc;
      })
  | inr far ↦ rw far (record {
    chain = (chain.0, r.chain);
    users = λ x. ground (arith, r.users x, ne);
    bytes = ap (λ n. header + b.size + n) r.bytes;
    coalesced = λ k. (rw (r.front far (end_of b)) k.0, r.coalesced k.1);
    front = λ h e. refl;
    freed = λ h. cc;
  })
]

release-Released :
    (lo hi a : ℕ) (bs : List Block) {t : Block}
    → hi < word
    → find_block a bs ≡ some t
    → Chain lo bs hi
    → Released lo hi a bs (release a bs)
unfolding release find_block
release-Released lo hi a [] small e chain = cc
release-Released lo hi a (b ∷ bs) {t} small e chain = elim (Bool-cases (b.addr == a)) [
  | inl here ↦ rw here (release_head lo hi a b bs small here chain)
  | inr ne ↦
      let e' : find_block a bs ≡ some t = rw ne at e in
      rw ne (
        release_later lo hi a b bs (release a bs) small ne chain
          (release-Released (end_of b) hi a bs {t = t} small e' chain.1))
]

-- The size in use that a header found in the list stands for.
abbrev pub size_in_use : Option Block → Option ℕ
size_in_use none = none
size_in_use (some b) = if b.is_free then none else some b.size

used-find_block :
    (lo hi a : ℕ) (bs : List Block) → Chain lo bs hi → used a bs ≡ size_in_use (find_block a bs)
unfolding find_block
used-find_block lo hi a [] c = refl
used-find_block lo hi a (b ∷ bs) c = elim (Bool-cases (b.addr == a)) [
  | inl here ↦ rw here (ground (arith, used_below (end_of b) hi a bs c.1, here))
  | inr ne ↦ rw ne (used-find_block (end_of b) hi a bs c.1)
]

find_block-magic :
    (lo hi a : ℕ) (bs : List Block) {b : Block}
    → Chain lo bs hi
    → find_block a bs ≡ some b
    → b.magic ≡ heap_magic
unfolding find_block
find_block-magic lo hi a [] c e = cc
find_block-magic lo hi a (d ∷ bs) {b} c e = elim (Bool-cases (d.addr == a)) [
  | inl here ↦ ground (arith, c.0.magic, e, here)
  | inr ne ↦ find_block-magic (end_of d) hi a bs {b = b} c.1 (rw ne at e)
]

-- The header that belongs to a pointer.
abbrev pub header_of : ℕ → ℕ
header_of ptr = (ptr + word - header) % word

-- A block of the list has its header at `a`.
abbrev pub header_at : ℕ → List Block → Bool
header_at a [] = false
header_at a (b ∷ bs) = (b.addr == a) || header_at a bs

-- A free block of the list has its header at `a`.
abbrev pub free_block_at : ℕ → List Block → Bool
free_block_at a [] = false
free_block_at a (b ∷ bs) = ((b.addr == a) && b.is_free) || free_block_at a bs

-- The pointer is not NULL, and no block of the list has its header.
abbrev pub IsStray : Heap → ℕ → Type 0
IsStray h ptr = (ptr ≢ 0) × (header_at (header_of ptr) h.blocks ≡ false)

free_block_below :
    (lo hi a : ℕ) (bs : List Block) → Chain lo bs hi → a < lo → free_block_at a bs ≡ false
free_block_below lo hi a [] c below = refl
free_block_below lo hi a (b ∷ bs) c below =
    let rest = free_block_below (end_of b) hi a bs c.1 (omega (arith, c.0.above)) in
    ground (arith, rest, c.0.above)

-- Where no block has its header, or a free one, no block is in use.
pub no_header-used : (a : ℕ) (bs : List Block) → header_at a bs ≡ false → used a bs ≡ none
no_header-used a [] off = refl
no_header-used a (b ∷ bs) off =
    let rest = no_header-used a bs (ground arith) in ground (arith, off, rest)

pub free_block-used :
    (lo hi a : ℕ) (bs : List Block) → Chain lo bs hi → free_block_at a bs ≡ true → used a bs ≡ none
free_block-used lo hi a [] c on = refl
free_block-used lo hi a (b ∷ bs) c on = elim (Bool-cases (b.addr == a)) [
  | inr ne ↦
      let rest = free_block-used (end_of b) hi a bs c.1 (ground arith) in ground (arith, ne, rest)
  | inl here ↦
      let below = used_below (end_of b) hi a bs c.1 in
      elim (Bool-cases b.is_free) [
        | inl f ↦ ground (arith, below, here, f)
        | inr f ↦ absurd (later here f)
      ]
]
  where
    later : (b.addr == a) ≡ true → b.is_free ≡ false → ⊥
    later here f = ground (arith, on, here, f, free_block_below (end_of b) hi a bs c.1)

-- What kfree did to the block of a pointer, by the status that it ends with.
abbrev pub FreeResult : (ℕ → Option ℕ) → Heap → ℕ → FreeStatus × Heap → Type 0
FreeResult stray h ptr (freed, h') =
    IsSound h'
    × (used (header_of ptr) h.blocks ≢ none)
    × (h'.mapped_limit ≡ h.mapped_limit)
    × (extent h'.blocks ≡ extent h.blocks)
    × ((x : ℕ) → used x h'.blocks ≡ (if header_of ptr == x then none else used x h.blocks))
FreeResult stray h ptr (null, h') = (h' ≡ h) × (ptr ≡ 0)
FreeResult stray h ptr (double_free, h') =
    (h' ≡ h) × (free_block_at (header_of ptr) h.blocks ≡ true)
FreeResult stray h ptr (bad_magic, h') =
    (h' ≡ h) × IsStray h ptr × ((m : ℕ) × (stray (header_of ptr) ≡ some m) × (m ≢ 0x48454150))
FreeResult stray h ptr (faulted, h') = IsStray h ptr × (stray (header_of ptr) ≡ none)
FreeResult stray h ptr (forged, h') = IsStray h ptr × (stray (header_of ptr) ≡ some 0x48454150)

freed-FreeResult :
    (stray : ℕ → Option ℕ) (h : Heap) (ptr : ℕ) (b : Block)
    → IsSound h
    → find_block (header_of ptr) h.blocks ≡ some b
    → used (header_of ptr) h.blocks ≢ none
    → FreeResult stray h ptr (freed, record h { blocks = release (header_of ptr) h.blocks })
freed-FreeResult stray h ptr b s e u =
    let r =
      release-Released heap_start h.mapped_limit (header_of ptr) h.blocks {t = b} s.small e
        s.chain in
    (
      record {
        chain = r.chain;
        small = s.small;
        whole_pages = s.whole_pages;
        coalesced = r.coalesced s.coalesced;
      },
      u,
      refl,
      r.bytes,
      r.users,
    )

find_block-header : (a : ℕ) (bs : List Block) → find_block a bs ≡ none → header_at a bs ≡ false
unfolding find_block
find_block-header a [] e = refl
find_block-header a (b ∷ bs) e = elim (Bool-cases (b.addr == a)) [
  | inl here ↦ absurd (some_none (rw here at e))
  | inr ne ↦ rw ne (find_block-header a bs (rw ne at e))
]
  where
    some_none : {x : Block} → ◌≡◌ {A = Option Block} (some x) none → ⊥
    some_none q = cc

find_block-free :
    (a : ℕ) (bs : List Block) {t : Block}
    → find_block a bs ≡ some t
    → t.is_free ≡ true
    → free_block_at a bs ≡ true
unfolding find_block
find_block-free a [] e f = cc
find_block-free a (b ∷ bs) {t} e f = elim (Bool-cases (b.addr == a)) [
  | inl here ↦ let same : b.is_free ≡ true = ground (arith, f, e, here) in rw (here, same) refl
  | inr ne ↦ let rest = find_block-free a bs {t = t} (rw ne at e) f in ground (arith, ne, rest)
]

stray-FreeResult :
    (stray : ℕ → Option ℕ) (h : Heap) (ptr : ℕ) (o : Option ℕ)
    → stray (header_of ptr) ≡ o
    → IsStray h ptr
    → FreeResult stray h ptr (stray_status o, h)
stray-FreeResult stray h ptr none e is = (is, e)
stray-FreeResult stray h ptr (some m) e is = elim (Bool-cases (m == heap_magic)) [
  | inl right ↦ let value : m ≡ 0x48454150 = ground arith in rw right (is, e ∙ ap some value)
  | inr wrong ↦ rw wrong (refl, is, (m, e, ground arith))
]

free_found-FreeResult :
    (stray : ℕ → Option ℕ) (h : Heap) (ptr : ℕ) (o : Option Block)
    → IsSound h
    → ptr ≢ 0
    → find_block (header_of ptr) h.blocks ≡ o
    → used (header_of ptr) h.blocks ≡ size_in_use o
    → FreeResult stray h ptr (free_found stray h (header_of ptr) o)
unfolding free_found
free_found-FreeResult stray h ptr none s some_ptr e u =
    stray-FreeResult stray h ptr (stray (header_of ptr)) refl
      (some_ptr, find_block-header (header_of ptr) h.blocks e)
free_found-FreeResult stray h ptr (some b) s some_ptr e u =
    let magic : (b.magic == heap_magic) ≡ true = ground (
      arith,
      find_block-magic heap_start h.mapped_limit (header_of ptr) h.blocks {b = b} s.chain e,
    ) in
    rw magic (elim (Bool-cases b.is_free) [
      | inl f ↦ rw f (refl, find_block-free (header_of ptr) h.blocks {t = b} e f)
      | inr t ↦ rw t (freed-FreeResult stray h ptr b s e (λ n. ground arith))
    ])

-- On a sound heap kfree frees the block in use that the pointer belongs to and no other, keeps the
-- heap sound (coalesced again, no byte lost). It leaves the heap as it is for NULL and for a block that is
-- free already, and reports a wrong magic number, with the heap as it is, exactly where no block of the
-- list has its header at the pointer's and memory holds another word there. Otherwise no block has its
-- header there, and the read of the magic number faults or finds the right one by chance.
pub kfree-FreeResult :
    (stray : ℕ → Option ℕ) (h : Heap) (ptr : ℕ)
    → IsSound h
    → FreeResult stray h ptr (kfree stray h ptr)
unfolding kfree
kfree-FreeResult stray h ptr s = elim (Bool-cases (ptr == 0)) [
  | inl z ↦ rw z (refl, ground arith)
  | inr n ↦ rw n (
      free_found-FreeResult stray h ptr (find_block (header_of ptr) h.blocks) s (ground arith) refl
        (used-find_block heap_start h.mapped_limit (header_of ptr) h.blocks s.chain))
]
