-- ===== src/Allocator/Release.antt =====
-- `deallocate_block`: a block that is given back is joined with its free neighbours and listed.
use shm_next.Base.{ℕ, ◌≡◌, refl, true, false, List, arith, has, ◌∙◌}
use shm_next.Allocator.{Allocator, ok, put_next, put_free}
use shm_next.Allocator.Calls.{merge_next, merge_previous, deallocate_block}
use shm_next.Allocator.FreeList.{insert_free_block}
use shm_next.Allocator.FreeList.Links.{Links-frame, relink}
use shm_next.Allocator.FreeList.Order.{has-insert}
use shm_next.Allocator.FreeList.Insert.{insert_by}
use shm_next.Allocator.Invariant.{ListedIn, IsValid, insert_free_block-Listed}
use shm_next.Allocator.Loose.{Loose, Grows}
use shm_next.Allocator.Merge.{merge_next-Loose, merge_previous-Loose, Grows-trans}

-- the writes before and behind the merges
abbrev opened : ℕ → Allocator → Allocator
opened b a = put_next b 0 (put_free b true a)

deallocate_block_run :
    (a a₁ a₂ a₃ : Allocator) (b b' : ℕ)
    → merge_next b (opened b a) ≡ ok tt a₁
    → merge_previous b a₁ ≡ ok b' a₂
    → insert_free_block b' (opened b' a₂) ≡ ok tt a₃
    → deallocate_block b a ≡ ok tt a₃
unfolding deallocate_block
deallocate_block_run a a₁ a₂ a₃ b b' e₁ e₂ e₃ = rw (e₁, e₂, e₃)

opened-Loose :
    (a : Allocator) (b : ℕ) (bs xs : List ℕ)
    → IsValid a bs xs
    → has b bs ≡ true
    → a.is_free b ≡ false
    → Loose (opened b a) b bs xs
opened-Loose a b bs xs v i used =
    let out : has b xs ≡ false = v.exact b i ∙ used in
    record {
      blocks = v.blocks;
      listed = record {
        links = Links-frame a.next_free _ _ xs v.listed.links λ q j. ground arith;
        sorted = v.listed.sorted;
        within = v.listed.within;
      };
      present = i;
      unlisted = out;
      exact = λ q j ne. ground (arith, v.exact q j);
      first = v.first;
    }

opened-Grows : (a : Allocator) (b : ℕ) (bs : List ℕ) → Grows a b bs (opened b a) b bs
opened-Grows a b bs = record {
  keeps = record { base = refl; total = refl; first = refl; headers = refl; requests = refl };
  from = omega arith;
  to = omega arith;
  live = λ q i ne f. (i, ne, refl, ground arith);
}

-- A loose block is opened and listed: the invariant holds again.
relisted :
    (a : Allocator) (b : ℕ) (bs xs : List ℕ)
    → Loose a b bs xs
    → (a' : Allocator) × (xs' : List ℕ) × (insert_free_block b (opened b a) ≡ ok tt a')
      × IsValid a' bs xs'
      × Grows a b bs a' b bs
      × (a'.is_free b ≡ true)
relisted a b bs xs s =
    let l : ListedIn (opened b a) bs xs = record {
      links = Links-frame a.next_free _ _ xs s.listed.links λ q j. ground (arith, s.unlisted);
      sorted = s.listed.sorted;
      within = s.listed.within;
    } in
    let (h, n, run, li) =
      insert_free_block-Listed (opened b a) bs xs s.blocks l b s.present s.unlisted in
    let g = opened-Grows a b bs in
    (
      relink h n (opened b a),
      insert_by a.size b xs,
      run,
      record {
        blocks = s.blocks;
        listed = li;
        exact = λ q i. ground (arith, has-insert a.size b q xs, s.exact q i);
        first = s.first;
      },
      record {
        keeps = record { base = refl; total = refl; first = refl; headers = refl; requests = refl };
        from = g.from;
        to = g.to;
        live = g.live;
      },
      ground arith,
    )

-- `deallocate_block` of a block in use in a valid state returns, and the state is valid again. A free
-- block covers the released one, and the other blocks in use are still there, at their size.
pub deallocate_block-IsValid :
    (a : Allocator) (b : ℕ) (bs xs : List ℕ)
    → IsValid a bs xs
    → has b bs ≡ true
    → a.is_free b ≡ false
    → (b' : ℕ) × (a' : Allocator) × (bs' : List ℕ) × (xs' : List ℕ) × (deallocate_block b a
        ≡ ok tt a')
      × IsValid a' bs' xs'
      × Grows a b bs a' b' bs'
      × (a'.is_free b' ≡ true)
      × (has b' bs' ≡ true)
deallocate_block-IsValid a b bs xs v i used =
    let s = opened-Loose a b bs xs v i used in
    let (a₁, bs₁, xs₁, run₁, s₁, g₁) = merge_next-Loose (opened b a) b bs xs s in
    let (b', a₂, bs₂, xs₂, run₂, s₂, g₂) = merge_previous-Loose a₁ b bs₁ xs₁ s₁ in
    let (a₃, xs₃, run₃, v₃, g₃, free) = relisted a₂ b' bs₂ xs₂ s₂ in
    (
      b',
      a₃,
      bs₂,
      xs₃,
      deallocate_block_run a a₁ a₂ a₃ b b' run₁ run₂ run₃,
      v₃,
      Grows-trans (opened-Grows a b bs) (Grows-trans g₁ (Grows-trans g₂ g₃)),
      free,
      s₂.present,
    )
