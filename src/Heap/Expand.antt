-- ===== src/Heap/Expand.antt =====
-- heap_expand: the heap grows by whole pages, and the new bytes join the list.
use gravityos.Base.{
  ℕ, zero, suc, ◌+◌, ◌-◌, ◌*◌, ◌/◌, ◌%◌, ◌<◌, ◌≤◌, ◌≡◌, refl, arith, Bool, true, false, List, [],
  ◌∷◌, none, some, ◌⊎◌, subst, Option-cases, inl, inr, ap,
}
use gravityos.Heap.{
  Block, Heap, Pages, word, header, heap_start, page_size, align_up, free_block, joined,
  append_tail, append_block, map_pages, grow, pages_for, heap_expand,
}
use gravityos.Heap.Chain.{
  IsBlock, end_of, Chain, Chain-widen, free_at, Coalesced, used, extent, NoneFits,
}

-- The block `c` behind a list that ends before it.
pub record Behind (limit hi : ℕ) (c : Block) : Type 0 where
  is_block : IsBlock limit c
  free : c.is_free ≡ true
  stop : end_of c ≤ hi
  small : hi < word

record Appended (lo hi : ℕ) (bs : List Block) (c : Block) (bs' : List Block) : Type 0 where
  chain : Chain lo bs' hi
  users : (a : ℕ) → used a bs' ≡ used a bs
  bytes : extent bs' ≡ extent bs + (header + c.size)
  coalesced : Coalesced bs → Coalesced bs'
  serves : (size : ℕ) → size ≤ c.size → NoneFits size bs' → ⊥

front_append :
    (e : ℕ) (d : Block) (bs : List Block) (c : Block)
    → free_at e (append_block (d ∷ bs) c) ≡ free_at e (d ∷ bs)
unfolding append_block
front_append e d [] c = ground arith
front_append e d (b ∷ bs) c = refl

append_free :
    (lo limit hi : ℕ) (b c : Block)
    → Chain lo (b ∷ []) limit
    → b.is_free ≡ true
    → Behind limit hi c
    → Appended lo hi (b ∷ []) c (joined b c ∷ [])
append_free lo limit hi b c (is, le) free h =
    let size : (b.size + (header + c.size)) % word ≡ b.size + (header + c.size) =
      omega (arith, h.stop, h.small, h.is_block.above) in
    rw size (record {
      chain = (
        record {
          above = is.above;
          addr_aligned = is.addr_aligned;
          size_aligned = omega (arith, is.size_aligned, h.is_block.size_aligned);
          magic = is.magic;
        },
        omega (arith, h.stop, h.is_block.above),
      );
      users = λ a. ground (arith, free);
      bytes = omega arith;
      coalesced = λ k. (ground arith, tt);
      serves = λ n le_n none_fit. ground (arith, free, none_fit.0);
    })

append_used :
    (lo limit hi : ℕ) (b c : Block)
    → Chain lo (b ∷ []) limit
    → b.is_free ≡ false
    → Behind limit hi c
    → Appended lo hi (b ∷ []) c (b ∷ c ∷ [])
append_used lo limit hi b c (is, le) in_use h = record {
  chain = (
    is,
    (
      record {
        above = omega (arith, h.is_block.above);
        addr_aligned = h.is_block.addr_aligned;
        size_aligned = h.is_block.size_aligned;
        magic = h.is_block.magic;
      },
      h.stop,
    ),
  );
  users = λ a. ground (arith, h.free);
  bytes = omega arith;
  coalesced = λ k. (ground (arith, in_use), (ground arith, tt));
  serves = λ n le_n none_fit. ground (arith, h.free, none_fit.1.0);
}

append_tail-Appended :
    (lo limit hi : ℕ) (b c : Block) (t : Bool)
    → b.is_free ≡ t
    → Chain lo (b ∷ []) limit
    → Behind limit hi c
    → Appended lo hi (b ∷ []) c (append_tail t b c)
append_tail-Appended lo limit hi b c true e chain h = append_free lo limit hi b c chain e h
append_tail-Appended lo limit hi b c false e chain h = append_used lo limit hi b c chain e h

append-Appended :
    (lo limit hi : ℕ) (bs : List Block) (c : Block)
    → Chain lo bs limit
    → Behind limit hi c
    → Appended lo hi bs c (append_block bs c)
unfolding append_block
append-Appended lo limit hi [] c chain h = record {
  chain = (
    record {
      above = omega (arith, h.is_block.above);
      addr_aligned = h.is_block.addr_aligned;
      size_aligned = h.is_block.size_aligned;
      magic = h.is_block.magic;
    },
    h.stop,
  );
  users = λ a. ground (arith, h.free);
  bytes = omega arith;
  coalesced = λ k. (ground arith, tt);
  serves = λ n le_n none_fit. ground (arith, h.free, none_fit.0);
}
append-Appended lo limit hi (b ∷ []) c chain h =
    append_tail-Appended lo limit hi b c b.is_free refl chain h
append-Appended lo limit hi (b ∷ d ∷ bs) c chain h =
    let r = append-Appended (end_of b) limit hi (d ∷ bs) c chain.1 h in
    record {
      chain = (chain.0, r.chain);
      users = λ a. ground (arith, r.users a);
      bytes = omega (arith, r.bytes);
      coalesced = λ k. (rw (front_append (end_of b) d bs c) k.0, r.coalesced k.1);
      serves = λ n le_n none_fit. r.serves n le_n none_fit.1;
    }

-- The heap's invariant.
pub record IsSound (h : Heap) : Type 0 where
  pub chain : Chain heap_start h.blocks h.mapped_limit
  pub small : h.mapped_limit < word
  pub whole_pages : h.mapped_limit % page_size ≡ 0
  pub coalesced : Coalesced h.blocks

-- The blocks in use are the same, and no byte of the heap is lost.
pub record SameUse (h h' : Heap) : Type 0 where
  pub users : (a : ℕ) → used a h'.blocks ≡ used a h.blocks
  pub bytes : extent h.blocks ≤ extent h'.blocks

module _ (pg : Pages) where
  -- One of the next `n` calls of pmm_alloc_page finds no page, where each page before it is mapped at the
  -- limit, which moves up by a page.
  abbrev pub RunsOut : ℕ → ℕ → pg.State → Type 0
  RunsOut zero limit st = ⊥
  RunsOut (suc n) limit st =
      ((pg.alloc_page st).0 ≡ none)
      ⊎ ((phys : ℕ) × ((pg.alloc_page st).0 ≡ some phys)
          × RunsOut n (limit + 4096) (pg.map_page phys limit (pg.alloc_page st).1))

  -- The loop maps whole pages from the limit on, and all of them unless the pages run out.
  record Mapped (n limit : ℕ) (st : pg.State) (r : Bool × ℕ × pg.State) : Type 0 where
    pages : ℕ
    at_most : pages ≤ n
    stop : r.1 ≡ limit + pages * page_size
    all : r.0 ≡ true → pages ≡ n
    out : r.0 ≡ false → RunsOut n limit st

  map_pages-Mapped :
      (n limit : ℕ) (st : pg.State)
      → limit + n * page_size < word
      → Mapped n limit st (map_pages pg n limit st)
  unfolding map_pages
  map_pages-Mapped zero limit st h = record {
    pages = 0;
    at_most = omega arith;
    stop = omega arith;
    all = λ e. refl;
    out = λ e. cc;
  }
  map_pages-Mapped (suc n) limit st h =
      let (page, st') = pg.alloc_page st in
      elim (Option-cases page) [
        | inl e ↦
            rw (e, map_pages)
              (record {
                pages = 0;
                at_most = omega arith;
                stop = omega arith;
                all = λ t. cc;
                out = λ f. inl e;
              })
        | inr (phys, e) ↦
            let up : (limit + page_size) % word ≡ limit + page_size = omega arith in
            let m =
              map_pages-Mapped n ((limit + page_size) % word) (pg.map_page phys limit st')
                (omega arith) in
            rw (e, map_pages)
              (record {
                pages = suc m.pages;
                at_most = omega (arith, m.at_most);
                stop = omega (arith, m.stop);
                all = λ t. ap suc (m.all t);
                out = λ f.
                    inr
                      (phys, e, subst (λ l. RunsOut n l (pg.map_page phys limit st')) up (m.out f));
              })
      ]

  abbrev pub total_of : ℕ → ℕ
  total_of needed = align_up ((needed + header) % word)

  abbrev new_block : Heap → ℕ → Block
  new_block h n = free_block h.mapped_limit ((n * page_size + word - header) % word)

  total_of_lem :
      (needed : ℕ)
      → needed % 16 ≡ 0
      → needed + 2 * page_size < word
      → total_of needed ≡ needed + header
  unfolding align_up
  total_of_lem needed al small = ground arith

  -- What heap_expand leaves: the heap is sound and its blocks in use are the same. If it went
  -- through, there is a free block of the size that was asked for.
  pub record Expanded (h : Heap) (needed : ℕ) (st : pg.State) (r : Bool × Heap × pg.State)
      : Type 0 where
    pub sound : IsSound r.1
    pub same : SameUse h r.1
    pub serves : r.0 ≡ true → NoneFits needed r.1.blocks → ⊥
    pub out : r.0 ≡ false → RunsOut ((needed + 32 + 4095) / 4096) h.mapped_limit st

  module _ (h : Heap) (needed : ℕ) (s : IsSound h) (al : needed % 16 ≡ 0)
      (room : h.mapped_limit + needed + 2 * page_size < word) where
    new-Behind :
        (n : ℕ)
        → n ≡ pages_for pg (needed + header)
        → Behind h.mapped_limit (h.mapped_limit + n * page_size) (new_block h n)
    new-Behind n e = record {
      is_block = record {
        above = omega arith;
        addr_aligned = omega (arith, s.whole_pages);
        size_aligned = omega arith;
        magic = refl;
      };
      free = refl;
      stop = omega arith;
      small = omega arith;
    }

    expand_all :
        (n : ℕ) (st0 st : pg.State)
        → n ≡ pages_for pg (needed + header)
        → Expanded h needed st0 (
          true,
          record {
            mapped_limit = h.mapped_limit + n * page_size;
            blocks = append_block h.blocks (new_block h n);
          },
          st,
        )
    expand_all n st0 st e =
        let b = new-Behind n e in
        let a = append-Appended heap_start h.mapped_limit _ h.blocks (new_block h n) s.chain b in
        record {
          sound = record {
            chain = a.chain;
            small = b.small;
            whole_pages = omega (arith, s.whole_pages);
            coalesced = a.coalesced s.coalesced;
          };
          same = record { users = a.users; bytes = omega (arith, a.bytes) };
          serves = λ t. a.serves needed (omega arith);
          out = λ f. cc;
        }

    expand_grown :
        (n : ℕ) (st0 : pg.State) (r : Bool × ℕ × pg.State)
        → n ≡ pages_for pg (needed + header)
        → Mapped n h.mapped_limit st0 r
        → Expanded h needed st0 (grow pg h n r)
    unfolding grow
    expand_grown n st0 (true, limit, st) e m =
        let top : limit ≡ h.mapped_limit + n * page_size = omega (arith, m.stop, m.all refl) in
        rw top (expand_all n st0 st e)
    expand_grown n st0 (false, limit, st) e m = record {
      sound = record {
        chain =
            Chain-widen heap_start h.blocks h.mapped_limit limit (omega (arith, m.stop)) s.chain;
        small = omega (arith, m.stop, m.at_most);
        whole_pages = omega (arith, m.stop, s.whole_pages);
        coalesced = s.coalesced;
      };
      same = record { users = λ a. refl; bytes = omega arith };
      serves = λ t. cc;
      out = λ f. subst (λ k. RunsOut k h.mapped_limit st0) e (m.out refl);
    }

    -- heap_expand keeps the invariant and the blocks in use, also where the pages run out half way.
    -- Where it succeeds some free block is as large as was asked for.
    pub expand-Expanded : (st : pg.State) → Expanded h needed st (heap_expand pg h needed st)
    unfolding heap_expand
    expand-Expanded st =
        let total = total_of_lem needed al (omega arith) in
        rw total (
          expand_grown (pages_for pg (needed + header)) st _ refl
            (map_pages-Mapped (pages_for pg (needed + header)) h.mapped_limit st (omega arith)))
