-- ===== src/User/Elf/Load.antt =====
-- What loading a program writes.
use gravityos.Base.{ℕ, ◌+◌, ◌*◌, ◌%◌, ◌^◌, ◌<◌, ◌≤◌, ◌≡◌, Bool, true, Option, none, some}
use gravityos.Strings.{Bytes}
use gravityos.User.{copy, Space}
use gravityos.User.Stores.{Has, Writes, kernel_base}
use gravityos.User.Elf.{Elf64Phdr, header_at, phdr_at}

-- A segment that is loaded, and its bytes in the file, end below the kernel.
abbrev pub EndsBelow : Elf64Phdr → Type 0
EndsBelow ph =
    ph.p_type ≡ 1
    → ph.p_vaddr < kernel_base
    → (ph.p_vaddr + ph.p_memsz ≤ kernel_base) × (ph.p_vaddr + ph.p_filesz ≤ kernel_base)

-- Where the segment has bytes in the file, they were copied to its address.
abbrev pub Copied : ℕ → Elf64Phdr → Space → Type 0
Copied file_buffer ph s =
    ph.p_type ≡ 1
    → 0 < ph.p_filesz
    → Has (copy ph.p_vaddr ((file_buffer + ph.p_offset) % 2 ^ 64) ph.p_filesz) s.stores

module _ (root file_buffer : ℕ) where
  -- One round: what is written, and that a segment that went through was copied.
  abbrev Round : Elf64Phdr → Space → Bool × Space → Type 0
  Round ph s r = Writes s r.1 × (r.0 ≡ true → Copied file_buffer ph r.1)

  module _ (m : Bytes) (phdrs : ℕ) where
    -- Header `i`, as the loop finds it.
    abbrev pub nth_phdr : ℕ → Elf64Phdr
    nth_phdr i = phdr_at m ((phdrs + i * 56) % 2 ^ 64)

    abbrev pub count : ℕ
    count = (header_at m file_buffer).phnum

    -- The segments from `i` on, where the loop over them went through with `n` rounds.
    abbrev Rounds : ℕ → ℕ → Space → Bool × Space → Type 0
    Rounds n i s r =
        Writes s r.1
        × (r.0 ≡ true
            → count ≤ i + n
            → (k : ℕ) → i ≤ k
            → k < count
            → Copied file_buffer (nth_phdr k) r.1)

    -- What elf_load returns: with an entry point, it is the header's, and all segments were copied.
    abbrev pub Outcome : Option ℕ × Space → Type 0
    Outcome (none, s) = Unit {0}
    Outcome (some e, s) =
        (e ≡ (header_at m file_buffer).entry)
        × ((k : ℕ) → k < count → Copied file_buffer (nth_phdr k) s)

-- The place of the program headers.
abbrev pub headers_at : Bytes → ℕ → ℕ
headers_at m file_buffer = (file_buffer + (header_at m file_buffer).phoff) % 2 ^ 64
