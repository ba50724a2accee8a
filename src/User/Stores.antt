-- ===== src/User/Stores.antt =====
-- The blocks that are written while pages of user programs are made.
use gravityos.Base.{
  ℕ, zero, suc, ◌+◌, ◌-◌, ◌*◌, ◌/◌, ◌%◌, ◌^◌, ◌≤◌, ◌≡◌, ◌⊎◌, arith, Bool, true, false, refl, List,
  [], ◌∷◌, inr, if◌then◌else◌,
}
use gravityos.Vmm.{vmm_is_mapped}
use gravityos.User.{
  Store, fill, copy, Space, give_page, map_new, map_one, map_from, usermode_map_range,
}

-- The lowest address of the kernel.
abbrev pub kernel_base : ℕ
kernel_base = 0xFFFF800000000000

-- Every block that is written ends below the kernel.
abbrev pub AllBelow : List Store → Type 0
AllBelow [] = Unit {0}
AllBelow (fill d n ∷ l) = (d + n ≤ 0xFFFF800000000000) × AllBelow l
AllBelow (copy d s n ∷ l) = (d + n ≤ 0xFFFF800000000000) × AllBelow l

abbrev pub Has : Store → List Store → Type 0
Has x [] = ⊥
Has x (y ∷ l) = (y ≡ x) ⊎ Has x l

-- More blocks are written, all of them below the kernel.
abbrev pub Writes : Space → Space → Type 0
Writes s s' =
    (AllBelow s.stores → AllBelow s'.stores) × ((x : Store) → Has x s.stores → Has x s'.stores)

pub Writes-refl : (s : Space) → Writes s s
Writes-refl s = (λ b. b, λ x h. h)

pub Writes-trans : (s t u : Space) → Writes s t → Writes t u → Writes s u
Writes-trans s t u (b, h) (b', h') = (λ a. b' (b a), λ x k. h' x (h x k))

-- A property of both branches.
pub on_test {ℓ κ} :
    {A : Type ℓ} (p : A → Type κ) (b : Bool) (x y : A)
    → (b ≡ true → p x)
    → (b ≡ false → p y)
    → p (if b then x else y)
on_test p true x y px py = px refl
on_test p false x y px py = py refl

map_new-Writes :
    (root v : ℕ) (supply : List ℕ) (s : Space)
    → v + 4096 ≤ kernel_base
    → Writes s (map_new root v supply s).1
unfolding map_new give_page
map_new-Writes root v [] s low = Writes-refl s
map_new-Writes root v (phys ∷ rest) s low = (λ b. (low, b), λ x h. inr h)

map_one-Writes : (root v : ℕ) (s : Space) → v + 4096 ≤ kernel_base → Writes s (map_one root v s).1
unfolding map_one
map_one-Writes root v s low =
    on_test (λ r. Writes s r.1) (vmm_is_mapped root v s.vm) (true, s) (map_new root v s.vm.supply s)
      (λ e. Writes-refl s) (λ e. map_new-Writes root v s.vm.supply s low)

map_from-Writes :
    (root n v : ℕ) (s : Space) → v + n * 4096 ≤ kernel_base → Writes s (map_from root n v s).1
unfolding map_from
map_from-Writes root zero v s low = Writes-refl s
map_from-Writes root (suc n) v s low =
    let r = map_one root v s in
    let first = map_one-Writes root v s (omega arith) in
    let rest = map_from-Writes root n (v + 4096) r.1 (omega arith) in
    on_test (λ u. Writes s u.1) r.0 (map_from root n (v + 4096) r.1) (false, r.1)
      (λ e. Writes-trans s r.1 (map_from root n (v + 4096) r.1).1 first rest) (λ e. first)

-- A range that ends below the kernel.
pub map_range-Writes :
    (root virt size : ℕ) (s : Space)
    → virt + size ≤ kernel_base
    → Writes s (usermode_map_range root virt size s).1
unfolding usermode_map_range
map_range-Writes root virt size s low =
    map_from-Writes root (((virt + size + 4095) % 2 ^ 64 / 4096 * 4096 - virt / 4096 * 4096) / 4096)
      (virt / 4096 * 4096) s (omega arith)
