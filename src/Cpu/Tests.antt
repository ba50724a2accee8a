-- ===== src/Cpu/Tests.antt =====
-- The mouse's line, 12, with all lines masked.
use gravityos.Base.{arith}
use gravityos.Cpu.Deliver.{Delivered, install-Delivered}

install-Delivered_example :
    Delivered
      (λ _. 0xFFFFFFFF80001000)
      (λ _. 0xFFFFFFFF80002000)
      12
      0xFFFFFFFF80003000
      255
      255
      (λ _. 0)
install-Delivered_example =
    install-Delivered (λ _. 0xFFFFFFFF80001000) (λ _. 0xFFFFFFFF80002000) 12 0xFFFFFFFF80003000 255
      255 (λ _. 0) (λ j. (omega arith, omega arith)) (omega arith) (omega arith) (omega arith)
