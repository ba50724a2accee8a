-- ===== src/Heap.antt =====
-- kernel/heap.c: the kernel's first-fit allocator. The doubly linked list of block headers is the
-- list of its headers in order: `next` and `prev` are the neighbours in the list, heap_head and
-- heap_tail its ends. The pages under the heap come from an interface, `Pages`, which stands for
-- pmm_alloc_page and vmm_map_page; vmm_map_page reports nothing, and the heap takes it to succeed.
pub mod Chain
pub mod Expand
pub mod Alloc
pub mod Release
pub mod Free
pub mod Session
mod Tests
use gravityos.Base.{
  ℕ, zero, suc, ◌+◌, ◌-◌, ◌*◌, ◌/◌, ◌%◌, ◌^◌, Bool, true, false, not, ◌&&◌, List, [], ◌∷◌, ◌++◌,
  Option, none, some, ltb, leb, ◌==◌, if◌then◌else◌,
}

abbrev pub word : ℕ
word = 2 ^ 64

abbrev pub heap_start : ℕ
heap_start = 0xFFFFFFFF81000000

abbrev pub heap_magic : ℕ
heap_magic = 0x48454150

-- sizeof(heap_block_t).
abbrev pub header : ℕ
header = 32

abbrev pub page_size : ℕ
page_size = 4096

pub record Block : Type 0 where
  pub addr : ℕ
  pub magic : ℕ
  pub is_free : Bool
  pub size : ℕ

pub record Heap : Type 0 where
  pub mapped_limit : ℕ
  pub blocks : List Block

-- pmm_alloc_page and vmm_map_page (physical, virtual), over the state of the page allocator.
pub record Pages : Type 1 where
  pub State : Type 0
  pub alloc_page : State → Option ℕ × State
  pub map_page : ℕ → ℕ → State → State

unfoldable pub align_up : ℕ → ℕ
align_up n = if n % 16 == 0 then n else (n + (16 - n % 16)) % word

abbrev pub free_block : ℕ → ℕ → Block
free_block addr size = record { addr = addr; magic = heap_magic; is_free = true; size = size }

-- The size of a block that has swallowed the next one.
abbrev pub joined : Block → Block → Block
joined b c = record b { size = (b.size + (header + c.size)) % word }

abbrev pub append_tail : Bool → Block → Block → List Block
append_tail true b c = joined b c ∷ []
append_tail false b c = b ∷ c ∷ []

-- A new block behind the tail: a free tail swallows it.
pub append_block : List Block → Block → List Block
append_block [] c = c ∷ []
append_block (b ∷ []) c = append_tail b.is_free b c
append_block (b ∷ d ∷ bs) c = b ∷ append_block (d ∷ bs) c

-- Cut `size` bytes off a block, where the rest can hold a header and 16 bytes.
pub split_block : Block → ℕ → List Block
split_block b size =
    if ltb b.size ((size + (header + 16)) % word)
    then b ∷ []
    else record b { size = size }
      ∷ free_block ((b.addr + header + size) % word) (b.size - size - header)
      ∷ []

-- `blk->is_free = 0` on the first of the blocks that split_block leaves.
pub take_first : List Block → List Block
take_first [] = []
take_first (b ∷ bs) = record b { is_free = false } ∷ bs

abbrev pub fits : ℕ → Block → Bool
fits size b = b.is_free && leb size b.size

abbrev pub keep_block : Block → Option (ℕ × List Block) → Option (ℕ × List Block)
keep_block b none = none
keep_block b (some (p, bs)) = some (p, b ∷ bs)

-- First fit: the pointer that is handed out, and the list.
pub first_fit : ℕ → List Block → Option (ℕ × List Block)
first_fit size [] = none
first_fit size (b ∷ bs) =
    let rest = keep_block b (first_fit size bs) in
    if fits size b
    then some ((b.addr + header) % word, take_first (split_block b size) ++ bs)
    else rest

-- Swallow the next block if it is free and follows without a gap.
pub merge_next : Block → List Block → List Block
merge_next b [] = b ∷ []
merge_next b (c ∷ bs) =
    if c.is_free && (c.addr == (b.addr + header + b.size) % word)
    then joined b c ∷ bs
    else b ∷ c ∷ bs

-- The block in front swallows the list's first one under the same conditions on itself.
pub merge_prev : Block → List Block → List Block
merge_prev p [] = p ∷ []
merge_prev p (b ∷ bs) =
    if p.is_free && (b.addr == (p.addr + header + p.size) % word)
    then joined p b ∷ bs
    else p ∷ b ∷ bs

abbrev pub heads : ℕ → List Block → Bool
heads a [] = false
heads a (b ∷ bs) = b.addr == a

-- Free the block with its header at `a`, and coalesce it with its neighbours.
pub release : ℕ → List Block → List Block
release a [] = []
release a (b ∷ bs) =
    let rest = release a bs in
    if b.addr == a
    then merge_next (record b { is_free = true }) bs
    else if heads a bs
    then merge_prev b rest
    else b ∷ rest

-- The block with its header at `a`.
pub find_block : ℕ → List Block → Option Block
find_block a [] = none
find_block a (b ∷ bs) = if b.addr == a then some b else find_block a bs

pub data FreeStatus : Type 0 where
  freed null bad_magic double_free faulted forged : FreeStatus

-- What the read of a magic number outside the list's headers leads to. Where memory is not mapped, it
-- faults. Where the number is right by chance or was left behind, the code goes on with fields that are
-- no header of the list: the model stops there.
abbrev pub stray_status : Option ℕ → FreeStatus
stray_status none = faulted
stray_status (some magic) = if not (magic == heap_magic) then bad_magic else forged

-- kfree on a pointer that is not NULL, with the block whose header is at `a`. `stray` is the word that
-- memory holds in the place of `magic` for an address at which the list has no header, none where no
-- page is mapped.
pub free_found : (ℕ → Option ℕ) → Heap → ℕ → Option Block → FreeStatus × Heap
free_found stray h a none = (stray_status (stray a), h)
free_found stray h a (some b) =
    if not (b.magic == heap_magic)
    then (bad_magic, h)
    else if b.is_free
    then (double_free, h)
    else (freed, record h { blocks = release a h.blocks })

pub kfree : (ℕ → Option ℕ) → Heap → ℕ → FreeStatus × Heap
kfree stray h ptr =
    if ptr == 0
    then (null, h)
    else let a = (ptr + word - header) % word in free_found stray h a (find_block a h.blocks)

module _ (pg : Pages) where
  -- The loop of heap_expand over `n` pages: whether it went through, and the new limit.
  pub map_pages : ℕ → ℕ → pg.State → Bool × ℕ × pg.State
  map_pages zero limit st = (true, limit, st)
  map_pages (suc n) limit st =
      let (page, st') = pg.alloc_page st in
      elim page [
        | none ↦ (false, limit, st')
        | some phys ↦ map_pages n ((limit + page_size) % word) (pg.map_page phys limit st')
      ]

  -- How many pages make up `total` bytes.
  abbrev pub pages_for : ℕ → ℕ
  pages_for total = (total + (page_size - 1)) / page_size

  -- What follows the loop: the `n` new pages join the list as one block, or the call fails.
  pub grow : Heap → ℕ → Bool × ℕ × pg.State → Bool × Heap × pg.State
  grow h n (true, limit, st) = (
    true,
    record {
      mapped_limit = limit;
      blocks =
          append_block h.blocks
            (free_block h.mapped_limit ((n * page_size + word - header) % word));
    },
    st,
  )
  grow h n (false, limit, st) = (false, record h { mapped_limit = limit }, st)

  pub heap_expand : Heap → ℕ → pg.State → Bool × Heap × pg.State
  heap_expand h needed st =
      let n = pages_for (align_up ((needed + header) % word)) in
      grow h n (map_pages n h.mapped_limit st)

  pub heap_init : pg.State → Bool × Heap × pg.State
  heap_init = heap_expand (record { mapped_limit = heap_start; blocks = [] }) page_size

  -- What a pass over the list leaves, by what first fit found.
  pub hand_over : Heap → pg.State → Option (ℕ × List Block) → Option ℕ × Heap × pg.State
  hand_over h st none = (none, h, st)
  hand_over h st (some (p, bs)) = (some p, record h { blocks = bs }, st)

  -- The second pass, where the heap could grow.
  pub retry : ℕ → Bool × Heap × pg.State → Option ℕ × Heap × pg.State
  retry size (true, h, st) = hand_over h st (first_fit size h.blocks)
  retry size (false, h, st) = (none, h, st)

  pub first_pass : Heap → ℕ → pg.State → Option (ℕ × List Block) → Option ℕ × Heap × pg.State
  first_pass h size st none = retry size (heap_expand h size st)
  first_pass h size st (some r) = hand_over h st (some r)

  pub kmalloc_aligned : Heap → ℕ → pg.State → Option ℕ × Heap × pg.State
  kmalloc_aligned h size st = first_pass h size st (first_fit size h.blocks)

  pub kmalloc : Heap → ℕ → pg.State → Option ℕ × Heap × pg.State
  kmalloc h size st = if size == 0 then (none, h, st) else kmalloc_aligned h (align_up size) st
