-- ===== src/User/Tests.antt =====
-- A window with one page, at 0x403000.
use gravityos.Base.{ℕ, refl, arith, ◌&&◌, [], none, ◌==◌, if◌then◌else◌}
use gravityos.Vmm.Tree.{Label, IsTree}
use gravityos.Vmm.Mapped.{NoHuge}
use gravityos.Process.{Scheduler, zero_process}
use gravityos.User.{Space, usermode_reset_address_space}
use gravityos.User.Reset.{Emptied, reset-Emptied}

abbrev tables : ℕ → ℕ → ℕ
tables t i =
    if (t == 0x1000) && (i == 0)
    then 0x2007
    else if (t == 0x2000) && (i == 0)
    then 0x3007
    else if (t == 0x3000) && (i == 2)
    then 0x4007
    else if (t == 0x4000) && (i == 3)
    then 0x9007
    else 0

abbrev label : Label
label = record {
  level = λ t.
      if t == 0x1000
      then 4
      else if t == 0x2000
      then 3
      else if t == 0x3000
      then 2
      else if t == 0x4000
      then 1
      else 0;
  prefix = λ t. if t == 0x4000 then 2 else 0;
}

abbrev idle : Scheduler
idle = record {
  processes = λ _. zero_process;
  current = none;
  next_pid = 1;
  kernel_cs = 8;
  kernel_ss = 16;
}

abbrev space : Space
space = record { vm = record { tables = tables; supply = [] }; scheduler = idle; stores = [] }

tables-IsTree : IsTree label tables
tables-IsTree t i high on = ground arith

tables-NoHuge : NoHuge label tables
tables-NoHuge t i level = ground arith

reset-Emptied_example :
    Emptied label 0x1000 0x400 0x200 space.vm (usermode_reset_address_space 0x1000 space).vm
reset-Emptied_example = reset-Emptied label 0x1000 space refl tables-IsTree tables-NoHuge
