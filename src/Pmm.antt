-- ===== src/Pmm.antt =====
-- kernel/pmm.c: the physical page allocator over a bitmap. A page's bit is 1 where it is taken.
-- The static variables are the fields of `Pmm`; each function takes and returns that record. The
-- bitmap is the array of its bytes. The calls of kprintf are left out: they change no state here.
mod Bitmap
pub mod Count
pub mod Alloc
pub mod Free
pub mod Init
pub mod Usable
mod Tests
use Prim.Native.Nat.{bit_and, bit_or}
use gravityos.Base.{
  ℕ, zero, suc, ◌+◌, ◌-◌, ◌*◌, ◌/◌, ◌%◌, ◌^◌, Bool, not, ◌&&◌, List, [], ◌∷◌, Option, none, some,
  ltb, leb, ◌==◌, if◌then◌else◌, update,
}

abbrev pub page_size : ℕ
page_size = 4096

abbrev pub bitmap_size : ℕ
bitmap_size = 16384

abbrev pub word : ℕ
word = 2 ^ 64

pub record Pmm : Type 0 where
  pub bitmap : ℕ → ℕ
  pub total_memory : ℕ
  pub free_memory : ℕ
  pub total_pages : ℕ

unfoldable pub bitmap_set : (ℕ → ℕ) → ℕ → ℕ → ℕ
bitmap_set bitmap bit = update bitmap (bit / 8) (bit_or (bitmap (bit / 8)) (2 ^ (bit % 8)))

unfoldable pub bitmap_clear : (ℕ → ℕ) → ℕ → ℕ → ℕ
bitmap_clear bitmap bit = update bitmap (bit / 8) (bit_and (bitmap (bit / 8)) (255 - 2 ^ (bit % 8)))

unfoldable pub bitmap_test : (ℕ → ℕ) → ℕ → Bool
bitmap_test bitmap bit = not (bit_and (bitmap (bit / 8)) (2 ^ (bit % 8)) == 0)

-- `free_memory += PMM_PAGE_SIZE` and `free_memory -= PMM_PAGE_SIZE` on uint64_t.
abbrev pub add_page : ℕ → ℕ
add_page n = (n + page_size) % word

abbrev pub sub_page : ℕ → ℕ
sub_page n = (n + word - page_size) % word

-- struct limine_memmap_entry, and LIMINE_MEMMAP_USABLE.
pub record MemmapEntry : Type 0 where
  pub base : ℕ
  pub length : ℕ
  pub kind : ℕ

abbrev pub usable : MemmapEntry → Bool
usable e = e.kind == 0

-- The first loop of pmm_init: the highest usable address, and the sum of the usable lengths.
pub scan : List MemmapEntry → ℕ → ℕ → ℕ × ℕ
scan [] highest total = (highest, total)
scan (e ∷ es) highest total =
    let top = (e.base + e.length) % word in
    scan es (if usable e then if ltb highest top then top else highest else highest)
      (if usable e then (total + e.length) % word else total)

-- One round of the inner loop over an entry's pages.
pub free_page_at : Pmm → ℕ → Pmm
free_page_at p page =
    if ltb page p.total_pages
    then record p { bitmap = bitmap_clear p.bitmap page; free_memory = add_page p.free_memory }
    else p

-- `for (j = 0; j < length; j += PMM_PAGE_SIZE)`, by the rounds that are left.
pub free_range : ℕ → ℕ → ℕ → Pmm → Pmm
free_range zero base j p = p
free_range (suc n) base j p =
    free_range n base (j + page_size) (free_page_at p ((base + j) % word / page_size))

pub free_usable : List MemmapEntry → Pmm → Pmm
free_usable [] p = p
free_usable (e ∷ es) p =
    free_usable es
      (if usable e then free_range ((e.length + (page_size - 1)) / page_size) e.base 0 p else p)

-- One round of the loop that takes the first megabyte out of use.
pub reserve_page : Pmm → ℕ → Pmm
reserve_page p page =
    if bitmap_test p.bitmap page
    then p
    else record p { bitmap = bitmap_set p.bitmap page; free_memory = sub_page p.free_memory }

-- The loop itself, by the rounds that are left.
pub reserve_low : ℕ → ℕ → Pmm → Pmm
reserve_low zero page p = p
reserve_low (suc n) page p =
    reserve_low n (page + 1) (if ltb page p.total_pages then reserve_page p page else p)

abbrev pub clamp_pages : ℕ → ℕ
clamp_pages n = if ltb (bitmap_size * 8) n then bitmap_size * 8 else n

-- The state once the first loop is over and every byte of the bitmap is 0xFF.
pub all_taken : List MemmapEntry → Pmm
all_taken es =
    let (highest, total) = scan es 0 0 in
    record {
      bitmap = λ _. 255;
      total_memory = total;
      free_memory = 0;
      total_pages = clamp_pages (highest / page_size);
    }

pub pmm_init : List MemmapEntry → Pmm
pmm_init es = reserve_low (1048576 / page_size) 0 (free_usable es (all_taken es))

-- The search of pmm_alloc_page from page `i` on: the first page whose bit is clear.
pub find_clear : (ℕ → ℕ) → ℕ → ℕ → Option ℕ
find_clear bitmap zero i = none
find_clear bitmap (suc n) i =
    let rest = find_clear bitmap n (i + 1) in if bitmap_test bitmap i then rest else some i

-- What pmm_alloc_page does with the outcome of the search.
pub take_page : Pmm → Option ℕ → Option ℕ × Pmm
take_page p none = (none, p)
take_page p (some i) = (
  some (i * page_size),
  record p { bitmap = bitmap_set p.bitmap i; free_memory = sub_page p.free_memory },
)

-- The address of the page that is handed out, or `none` for NULL.
pub pmm_alloc_page : Pmm → Option ℕ × Pmm
pmm_alloc_page p = take_page p (find_clear p.bitmap p.total_pages 0)

pub pmm_free_page : Pmm → ℕ → Pmm
pmm_free_page p addr =
    if bitmap_test p.bitmap (addr / page_size)
    then record p {
      bitmap = bitmap_clear p.bitmap (addr / page_size);
      free_memory = add_page p.free_memory;
    }
    else p

pub pmm_get_free_memory : Pmm → ℕ
pmm_get_free_memory p = p.free_memory

pub pmm_get_total_memory : Pmm → ℕ
pmm_get_total_memory p = p.total_memory
