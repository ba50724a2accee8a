-- ===== src/User/Reset.antt =====
-- usermode_reset_address_space: the window of user programs is empty afterwards.
use gravityos.Base.{
  ℕ, zero, suc, ◌+◌, ◌*◌, ◌/◌, ◌%◌, ◌^◌, ◌<◌, ◌≤◌, ◌≡◌, ◌⊎◌, refl, arith, true, false, Option, some,
  none, Bool-cases, inl, inr, ap, sym, ◌∙◌, subst, ℕ_discrete,
}
use gravityos.Vmm.{Vm, index, present, step_down, vmm_is_mapped}
use gravityos.Vmm.Tree.{Label, IsTree}
use gravityos.Vmm.Walk.{entry_of, IsWalk, entry_of-IsWalk}
use gravityos.Vmm.Mapped.{NoHuge, present_in, is_mapped_lem, Unmapped, unmap-Unmapped}
use gravityos.User.{Space, unmap_if_mapped, reset_pages, usermode_reset_address_space}

abbrev page_of : ℕ → ℕ
page_of virt = virt / 4096 % 2 ^ 36

-- An entry of a table that is present leads to the next table.
abbrev pub Leads : (ℕ → ℕ → ℕ) → ℕ → ℕ → ℕ → Type 0
Leads tables t i next = (tables t i % 2 ≡ 1) × (tables t i / 4096 * 4096 ≡ next)

-- Wherever the three upper tables lead for an address, the entry at the lowest level is not present.
abbrev pub Unreachable : (ℕ → ℕ → ℕ) → ℕ → ℕ → Type 0
Unreachable tables root virt =
    (a b pt : ℕ)
    → Leads tables root (virt / 2 ^ 39 % 512) a
    → Leads tables a (virt / 2 ^ 30 % 512) b
    → Leads tables b (virt / 2 ^ 21 % 512) pt
    → tables pt (virt / 2 ^ 12 % 512) % 2 ≡ 0

-- What usermode_reset_address_space leaves, for the `n` pages from page `p` on.
abbrev pub Emptied : Label → ℕ → ℕ → ℕ → Vm → Vm → Type 0
Emptied l root p n s s' =
    IsTree l s'.tables
    × NoHuge l s'.tables
    × ((q : ℕ) → p ≤ q → q < p + n → Unreachable s'.tables root (q * 4096))
    × ((virt e : ℕ)
        → (page_of virt < p) ⊎ (p + n ≤ page_of virt)
        → entry_of root virt s ≡ some e
        → entry_of root virt s' ≡ some e)

-- The same by vmm_is_mapped.
abbrev Cleared : Label → ℕ → ℕ → ℕ → Vm → Vm → Type 0
Cleared l root p n s s' =
    IsTree l s'.tables
    × NoHuge l s'.tables
    × ((q : ℕ) → p ≤ q → q < p + n → vmm_is_mapped root (q * 4096) s' ≡ false)
    × ((virt e : ℕ)
        → (page_of virt < p) ⊎ (p + n ≤ page_of virt)
        → entry_of root virt s ≡ some e
        → entry_of root virt s' ≡ some e)

-- The pages below stay without a mapping, too.
abbrev Below : ℕ → ℕ → Vm → Vm → Type 0
Below root p s s' =
    (q : ℕ)
    → q < p
    → vmm_is_mapped root (q * 4096) s ≡ false
    → vmm_is_mapped root (q * 4096) s' ≡ false

module _ (l : Label) (root : ℕ) (top : l.level root ≡ 4) where
  present_some : (o : Option ℕ) → present_in o ≡ true → (e : ℕ) × (o ≡ some e)
  present_some none h = absurd (ground arith)
  present_some (some e) h = (e, refl)

  round-Unmapped :
      (virt : ℕ) (s : Vm)
      → IsTree l s.tables
      → NoHuge l s.tables
      → Unmapped l root virt s (unmap_if_mapped root virt s)
  unfolding unmap_if_mapped
  round-Unmapped virt s tree plain = elim (Bool-cases (vmm_is_mapped root virt s)) [
    | inl on ↦
        let (e, h) =
          present_some (entry_of root virt s)
            (sym (is_mapped_lem l root top s tree plain virt) ∙ on) in
        rw on (unmap-Unmapped l root top s tree plain virt e h)
    | inr off ↦ rw off (tree, plain, off, λ virt' other h. h, λ virt' e other h. h)
  ]

  reset_pages-Cleared :
      (n p : ℕ) (s : Vm)
      → IsTree l s.tables
      → NoHuge l s.tables
      → p + n ≤ 2 ^ 36
      → let s' = reset_pages root n (p * 4096) s in Cleared l root p n s s' × Below root p s s'
  unfolding reset_pages
  reset_pages-Cleared zero p s tree plain room =
      ((tree, plain, λ q low high. absurd (omega arith), λ virt e aside h. h), λ q low h. h)
  reset_pages-Cleared (suc n) p s tree plain room =
      let s1 = unmap_if_mapped root (p * 4096) s in
      let (tree1, plain1, clear, still, kept) = round-Unmapped (p * 4096) s tree plain in
      let next : p * 4096 + 4096 ≡ (p + 1) * 4096 = omega arith in
      let ((tree2, plain2, empty, kept2), below) =
        reset_pages-Cleared n (p + 1) s1 tree1 plain1 (omega arith) in
      subst
        (λ v.
          Cleared l root p (suc n) s (reset_pages root n v s1)
          × Below root p s (reset_pages root n v s1))
        (sym next)
        (
          (
            tree2,
            plain2,
            λ q low high. elim (ℕ_discrete q p) [
              | yes e ↦ rw e (below p (omega arith) clear)
              | no ne ↦ empty q (omega arith) (omega arith)
            ],
            λ virt e aside h. kept2 virt e (omega arith) (kept virt e (omega arith) h),
          ),
          λ q low h. below q (omega arith) (still (q * 4096) (omega arith) h),
        )

  Leads-step_down :
      (tables : ℕ → ℕ → ℕ) (t i next : ℕ) → Leads tables t i next → step_down tables t i ≡ some next
  Leads-step_down tables t i next (on, e) =
      let there : present (tables t i) ≡ true = ground arith in rw there (ap some e)

  unmapped-Unreachable :
      (s : Vm) (virt : ℕ)
      → IsTree l s.tables
      → NoHuge l s.tables
      → vmm_is_mapped root virt s ≡ false
      → Unreachable s.tables root virt
  unmapped-Unreachable s virt tree plain off a b pt h3 h2 h1 =
      let walk : IsWalk s.tables root virt pt = (
        a,
        b,
        Leads-step_down s.tables root (index 3 virt) a h3,
        Leads-step_down s.tables a (index 2 virt) b h2,
        Leads-step_down s.tables b (index 1 virt) pt h1,
      ) in
      let missing : present (s.tables pt (index 0 virt)) ≡ false =
        sym (ap present_in (entry_of-IsWalk root virt pt s walk))
        ∙ (sym (is_mapped_lem l root top s tree plain virt) ∙ off) in
      ground arith

-- Where the tables are a tree below the root and have no large page, then after
-- usermode_reset_address_space the tables lead to no present entry for any page of the window of user
-- programs, every page outside the
-- window that had an entry keeps it, and the tables are the same tree, without a large page.
pub reset-Emptied :
    (l : Label) (root : ℕ) (s : Space)
    → l.level root ≡ 4
    → IsTree l s.vm.tables
    → NoHuge l s.vm.tables
    → Emptied l root 0x400 0x200 s.vm (usermode_reset_address_space root s).vm
unfolding usermode_reset_address_space
reset-Emptied l root s top tree plain =
    let s' = reset_pages root 0x200 (0x400 * 4096) s.vm in
    let (tree', plain', clear, kept) =
      (reset_pages-Cleared l root top 0x200 0x400 s.vm tree plain (omega arith)).0 in
    (
      tree',
      plain',
      λ q low high. unmapped-Unreachable l root top s' (q * 4096) tree' plain' (clear q low high),
      kept,
    )
