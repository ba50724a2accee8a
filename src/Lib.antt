-- ===== src/Lib.antt =====
-- GravityOS: models of the kernel's own logic, and what is proved of them.
--
-- GravityOS is a small x86-64 kernel in C. The physical page allocator (kernel/pmm.c) hands out
-- pages from the boot loader's memory map; the page tables (kernel/vmm.c) map them; the heap
-- (kernel/heap.c) maps such pages and hands out blocks; the scheduler (kernel/process.c) takes its
-- stacks from the heap, switches processes on the timer's interrupt, and gives pages and stacks back
-- when a process ends; the keyboard driver (drivers/keyboard.c) turns scancodes into characters that
-- programs read. All parts use the string library (lib/string.c); the network stack (net/net.c)
-- answers ARP and echo requests; the text console (drivers/fbcon.c) keeps the cells of the screen,
-- scrolls and draws them; the FAT32 driver (drivers/fat32.c) reads, writes and deletes the files of
-- a volume on the ATA drive (drivers/ata.c). The network card (drivers/e1000.c), which is found on
-- the PCI bus (drivers/pci.c), gives the network stack its frames. The shell (shell/shell.c) reads
-- lines from the keyboard and starts programs, which the ELF loader (kernel/elf_loader.c) puts into
-- the window of user programs (kernel/usermode.c), and which ask the kernel for service by system
-- calls (kernel/syscall.c). The processor's interrupts reach the drivers through the descriptor
-- tables (cpu/gdt.c, cpu/idt.c, cpu/isr.c).
--
-- The files:
--   * Base: library names that are passed on, Boolean tests on numbers, lists over native numbers,
--     C arrays as functions with an update, bit operations on bytes, and signed results.
--   * Pmm: kernel/pmm.c. The static variables pmm_bitmap, total_memory, free_memory and total_pages are
--     the record Pmm; pmm_init, pmm_alloc_page and pmm_free_page take and return it. The loops of
--     pmm_init are scan, free_usable with free_range, and reserve_low.
--   * Heap: kernel/heap.c. The doubly linked list of headers is a list of Block in its order;
--     heap_expand, heap_init, split_block, kmalloc and kfree are functions on Heap. The page
--     allocator and vmm_map_page are the interface Pages.
--   * Vmm: kernel/vmm.c. The page tables are the entries of each page by its address; vmm_map_page,
--     vmm_is_mapped and vmm_unmap_page are functions on them. Vmm/Tree says what a tree of tables is,
--     Vmm/Walk follows an address through it, Vmm/Store, Vmm/Descent and Vmm/Map prove what mapping does.
--   * Process: kernel/process.c. The table and the static variables are the record Scheduler;
--     process_create, process_schedule, process_track_allocation and process_exit are functions on
--     it. kmalloc, kfree and pmm_free_page are the interface Memory.
--   * Keyboard: drivers/keyboard.c. The flags and the ring are the record Keyboard;
--     keyboard_handle_byte and keyboard_getchar are functions on it.
--   * Strings: lib/string.c. memcpy, memset, memmove, memcmp, strncmp, strlen, strcmp, strchr and
--     strrchr on a memory of bytes; Strings/Copies has strcpy, strncpy, strcat and strstr.
--   * Vfs: kernel/vfs.c. vfs_normalize_path and vfs_open on such a memory.
--   * Cpu: cpu/gdt.c, cpu/idt.c, cpu/isr.c and drivers/timer.c. The tables are arrays of records, the writes to
--     ports lists; Cpu/Deliver follows an interrupt from its gate to its handler.
--   * Format: lib/stdio.c, and utoa and atoi of lib/string.c. vsnprintf stores into an array; its arguments
--     are the words that va_arg gives.
--   * Console: drivers/fbcon.c. The cells, the cursor and the calls that draw are the record Console;
--     fbcon_init, fbcon_clear, fbcon_putchar and fbcon_cursor_blink are functions on it.
--   * Fat32: drivers/fat32.c. The record fs is Fs, the drive the record Disk of sectors whose commands may
--     fail, a write also once its sector is written. Fat32 has the table and its chains, Fat32/Directory short names, the search and the entries
--     of the root directory, Fat32/Files reading and writing, Fat32/Remove deleting.
--   * Mouse: drivers/mouse.c, and the pixels of drivers/fb.c. mouse_handle_byte and draw_mouse_cursor are
--     functions on the record Mouse, whose field `screen` is the framebuffer.
--   * Net: net/net.c. Byte order, the checksum and the ARP table; Net/Stack has the static variables as the
--     record Net, sending, the handlers of ARP, IPv4 and ICMP, net_poll, net_arp_resolve and net_ping. The
--     network card and the timer are what their calls give, in their order.
--   * Nic: drivers/e1000.c. The rings, the buffers and the static variables are the record Nic; e1000_send and
--     e1000_receive are functions on it. Nic/Setup has e1000_init, which finds the card on the bus (Pci) and maps its
--     registers (Vmm).
--   * Ata: drivers/ata.c. The waits, the commands and the transfers; what the drive's ports give is an argument, what is
--     written to them a list. The drive that Fat32 uses is its own record of sectors whose commands may fail.
--   * Pci: drivers/pci.c. A read of the configuration space is a function of the address.
--   * User: kernel/usermode.c, with kernel/elf_loader.c in User/Elf and kernel/syscall.c in User/Syscall. The page
--     tables (Vmm), the processes (Process) and the calls of memset and memcpy, in their order, are the record
--     Space; what the ELF file holds is an argument.
--   * Shell: shell/shell.c. readline, parse_ipv4 and process_command; Shell/Run composes the file system, the
--     loader and the end of a process in run_elf_process.
--
-- Machine integers are native numbers with the wrap-around written out (`% 2 ^ 64` for uint64_t).
-- Pointers into the memory of Strings are taken not to wrap. Where the C code loops over a bounded
-- index, the model is structural recursion on the rounds that are left: 64 slots in the scheduler's
-- searches, total_pages in the bitmap's search, a memory map entry's length in pages, the pages of
-- heap_expand's total size, the cells of the console. The loops over the heap's list are recursion
-- on the list. These need no fuel. The loops of Strings that run to a NUL have fuel, and fuel above
-- the string's length is enough; the loop of checksum16 that folds carries has fuel 3, which is
-- enough for every 32-bit sum. A chain of clusters has no bound in the code, and may run in a
-- circle: its loops have fuel, and fuel above the chain's length is enough. The loops of Net/Stack
-- that wait end by the timer and the card, which are parameters: they have fuel, and `none` says
-- that it ran out. The shell's loops over a line have fuel, too. elf_load's loop over the segments
-- has 65536 rounds, as many as the 16 bits of their number allow.
--
-- What is not modelled: device access (the serial line), processor set-up and
-- assembly, the glyphs of the console, printing, and the vendored boot header. Nor are strtok and
-- itoa, and the shell's commands that print. In Heap, vmm_map_page returns nothing and is taken to
-- succeed. Where no header of the heap's list stands in front of a pointer, what memory holds there is
-- an argument of kfree, and the model stops where that is the magic number by chance. Interrupts are
-- taken to come between calls, not inside them. In User only the blocks that are written are kept, not
-- what memory holds. What the network card's registers and descriptors give while the driver polls them
-- are arguments of Nic.
pub mod Ata
pub mod Base
pub mod Console
pub mod Cpu
pub mod Fat32
pub mod Format
pub mod Heap
pub mod Keyboard
pub mod Mouse
pub mod Net
pub mod Nic
pub mod Pci
pub mod Pmm
pub mod Process
pub mod Shell
pub mod Strings
pub mod User
pub mod Vfs
pub mod Vmm
