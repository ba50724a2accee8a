-- ===== src/User/Elf.antt =====
-- kernel/elf_loader.c and kernel/elf.h: the header and the segments of an ELF file in memory, and elf_load.
-- `m` is what the kernel reads at virtual addresses; the file is taken to lie outside the pages that are
-- loaded, so that it stays while they are written.
pub mod Load
mod Tests
use gravityos.Base.{
  ℕ, zero, suc, ◌+◌, ◌-◌, ◌*◌, ◌/◌, ◌%◌, ◌^◌, ◌∷◌, Bool, true, false, not, ◌||◌, Option, none, some,
  ltb, leb, ◌==◌, if◌then◌else◌,
}
use gravityos.Strings.{Bytes}
use gravityos.User.{
  copy, Space, Frame, user_stack_virt, user_stack_size, usermode_reset_address_space,
  usermode_map_range, usermode_enter,
}

-- The number of the `n` bytes from `p` on, the lowest first.
pub le_bytes : Bytes → ℕ → ℕ → ℕ
le_bytes m p zero = 0
le_bytes m p (suc n) = m p + 256 * le_bytes m (p + 1) n

pub record Elf64Header : Type 0 where
  pub magic : ℕ
  pub bitness : ℕ
  pub endianness : ℕ
  pub header_version : ℕ
  pub abi : ℕ
  pub padding : ℕ
  pub kind : ℕ
  pub machine : ℕ
  pub version : ℕ
  pub entry : ℕ
  pub phoff : ℕ
  pub shoff : ℕ
  pub flags : ℕ
  pub ehsize : ℕ
  pub phentsize : ℕ
  pub phnum : ℕ
  pub shentsize : ℕ
  pub shnum : ℕ
  pub shstrndx : ℕ

pub record Elf64Phdr : Type 0 where
  pub p_type : ℕ
  pub p_flags : ℕ
  pub p_offset : ℕ
  pub p_vaddr : ℕ
  pub p_paddr : ℕ
  pub p_filesz : ℕ
  pub p_memsz : ℕ
  pub p_align : ℕ

-- The packed structures at an address.
abbrev pub header_at : Bytes → ℕ → Elf64Header
header_at m p = record {
  magic = le_bytes m p 4;
  bitness = m (p + 4);
  endianness = m (p + 5);
  header_version = m (p + 6);
  abi = m (p + 7);
  padding = le_bytes m (p + 8) 8;
  kind = le_bytes m (p + 16) 2;
  machine = le_bytes m (p + 18) 2;
  version = le_bytes m (p + 20) 4;
  entry = le_bytes m (p + 24) 8;
  phoff = le_bytes m (p + 32) 8;
  shoff = le_bytes m (p + 40) 8;
  flags = le_bytes m (p + 48) 4;
  ehsize = le_bytes m (p + 52) 2;
  phentsize = le_bytes m (p + 54) 2;
  phnum = le_bytes m (p + 56) 2;
  shentsize = le_bytes m (p + 58) 2;
  shnum = le_bytes m (p + 60) 2;
  shstrndx = le_bytes m (p + 62) 2;
}

abbrev pub phdr_at : Bytes → ℕ → Elf64Phdr
phdr_at m p = record {
  p_type = le_bytes m p 4;
  p_flags = le_bytes m (p + 4) 4;
  p_offset = le_bytes m (p + 8) 8;
  p_vaddr = le_bytes m (p + 16) 8;
  p_paddr = le_bytes m (p + 24) 8;
  p_filesz = le_bytes m (p + 32) 8;
  p_memsz = le_bytes m (p + 40) 8;
  p_align = le_bytes m (p + 48) 8;
}

-- The bytes of a segment are copied once its pages are there.
pub copy_segment : ℕ → Elf64Phdr → Space → Space
copy_segment file_buffer ph s =
    if ltb 0 ph.p_filesz
    then record s {
      stores = copy ph.p_vaddr ((file_buffer + ph.p_offset) % 2 ^ 64) ph.p_filesz ∷ s.stores;
    }
    else s

-- One round of the loop: whether it goes on.
pub load_segment : ℕ → ℕ → Elf64Phdr → Space → Bool × Space
load_segment root file_buffer ph s =
    if not (ph.p_type == 1)
    then (true, s)
    else if leb 0xFFFF800000000000 ph.p_vaddr
    then (false, s)
    else let (ok, s') = usermode_map_range root ph.p_vaddr ph.p_memsz s in
      if ok then (true, copy_segment file_buffer ph s') else (false, s')

-- The loop from segment `i` on, in at most `n` rounds.
pub load_segments : Bytes → ℕ → ℕ → ℕ → ℕ → ℕ → Space → Bool × Space
load_segments m root file_buffer phdrs zero i s = (true, s)
load_segments m root file_buffer phdrs (suc n) i s =
    let (ok, s') = load_segment root file_buffer (phdr_at m ((phdrs + i * 56) % 2 ^ 64)) s in
    let rest = load_segments m root file_buffer phdrs n (i + 1) s' in
    if not (ltb i (header_at m file_buffer).phnum)
    then (true, s)
    else if ok
    then rest
    else (false, s')

-- Whether the header is one that elf_load takes.
abbrev pub acceptable : Elf64Header → Bool
acceptable h =
    if not (h.magic == 0x464C457F)
    then false
    else if not (h.bitness == 2) || not (h.machine == 0x3E)
    then false
    else not (h.phnum == 0)

-- The stack, and the entry point.
pub finish_load : Bytes → ℕ → ℕ → Bool × Space → Option ℕ × Space
finish_load m root file_buffer (false, s) = (none, s)
finish_load m root file_buffer (true, s) =
    let (ok, s') = usermode_map_range root user_stack_virt user_stack_size s in
    (if ok then some (header_at m file_buffer).entry else none, s')

-- The entry point, or none for the result -1. The number of segments has sixteen bits.
pub elf_load : Bytes → ℕ → ℕ → Space → Option ℕ × Space
elf_load m root file_buffer s =
    let h = header_at m file_buffer in
    if not (acceptable h)
    then (none, s)
    else let cleared = usermode_reset_address_space root s in
      finish_load m root file_buffer
        (load_segments m root file_buffer ((file_buffer + h.phoff) % 2 ^ 64) 65536 0 cleared)

pub elf_load_and_run : Bytes → ℕ → ℕ → Space → Option Frame × Space
elf_load_and_run m root file_buffer s =
    let (entry, s') = elf_load m root file_buffer s in
    (
      elim entry [
        | none ↦ none
        | some e ↦ some (usermode_enter e (user_stack_virt + user_stack_size - 16))
      ],
      s',
    )
