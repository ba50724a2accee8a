-- ===== src/User/Elf/Tests.antt =====
-- A file with one segment of 512 bytes, on a machine with free pages.
use gravityos.Base.{◌∷◌, ◌==◌, [], none, if◌then◌else◌}
use gravityos.Strings.{Bytes}
use gravityos.Process.{zero_process}
use gravityos.User.{Space}

-- The magic number, a 64-bit file, the machine 0x3E, headers at 64, one of them, of type 1 for the pages
-- from 0x400000 on.
abbrev file : Bytes
file x =
    if x == 0xFFFF800000000000
    then 0x7F
    else if x == 0xFFFF800000000001
    then 0x45
    else if x == 0xFFFF800000000002
    then 0x4C
    else if x == 0xFFFF800000000003
    then 0x46
    else if x == 0xFFFF800000000004
    then 2
    else if x == 0xFFFF800000000012
    then 0x3E
    else if x == 0xFFFF800000000020
    then 64
    else if x == 0xFFFF800000000038
    then 1
    else if x == 0xFFFF800000000040
    then 1
    else if x == 0xFFFF800000000052
    then 0x40
    else if x == 0xFFFF800000000061
    then 2
    else if x == 0xFFFF800000000069
    then 2
    else 0

abbrev space : Space
space = record {
  vm = record {
    tables = λ t i. 0;
    supply =
        0x2000 ∷ 0x3000 ∷ 0x4000 ∷ 0x5000 ∷ 0x6000 ∷ 0x7000 ∷ 0x8000 ∷ 0x9000 ∷ 0xA000 ∷ 0xB000
        ∷ [];
  };
  scheduler = record {
    processes = λ _. zero_process;
    current = none;
    next_pid = 1;
    kernel_cs = 8;
    kernel_ss = 16;
  };
  stores = [];
}
