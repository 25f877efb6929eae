-- ===== src/Malloc/Ealloc/Find.antt =====
-- `dealloc` of ealloc.c: the block that the loop over the pages finds.
use os_modules.Prelude.{
  ℕ, zero, suc, ◌+◌, ◌-◌, ◌*◌, ◌^◌, ◌≤◌, ◌<◌, ◌≡◌, ◌⊎◌, refl, inl, inr, Option, none, some, arith,
  leb, sym, ◌∙◌, Bool-cases, leb→le, true, false,
}
use os_modules.Prelude.Array.{Array}
use os_modules.Prelude.Int.{ℤ, pos, negsuc}
use os_modules.Malloc.Page.{page_size}
use os_modules.Malloc.Ealloc.{blocks, pages, min_alloc, block_index, hit, find_page}

-- A pointer to a block of the page at `base`.
pub block_index_self :
    (base start : ℕ) → start < blocks → block_index (base + start * min_alloc) base ≡ pos start
unfolding block_index
block_index_self base start h = ground arith

-- A pointer to a block of the page at `base`, looked up at another page: the result of the cast and
-- of the division is no block there.
pub hit_other :
    (base other start i : ℕ) (rest : Option (ℕ × ℕ))
    → (base + page_size ≤ other) ⊎ (other + page_size ≤ base)
    → base ≤ other + 2 ^ 30
    → other ≤ base + 2 ^ 30
    → start < blocks
    → hit (block_index (base + start * min_alloc) other) i rest ≡ rest
unfolding hit block_index
hit_other base other start i rest apart near near' h = ground arith

pub hit_self :
    (start i : ℕ) (rest : Option (ℕ × ℕ))
    → start < blocks
    → hit (pos start) i rest ≡ some (i, start)
unfolding hit
hit_self start i rest h = ground arith

pub find_page-suc :
    (ptr : ℕ) (base : Array ℕ) (left i : ℕ)
    → find_page ptr base (suc left) i
      ≡ hit (block_index ptr (base i)) i (find_page ptr base left (i + 1))
unfolding find_page
find_page-suc ptr base left i = refl

hit_in :
    (idx i : ℕ) (rest : Option (ℕ × ℕ))
    → leb idx (blocks - 1) ≡ true
    → hit (pos idx) i rest ≡ some (i, idx)
unfolding hit
hit_in idx i rest e = rw e

hit_out :
    (idx i : ℕ) (rest : Option (ℕ × ℕ)) → leb idx (blocks - 1) ≡ false → hit (pos idx) i rest ≡ rest
unfolding hit
hit_out idx i rest e = rw e

hit_negative : (idx i : ℕ) (rest : Option (ℕ × ℕ)) → hit (negsuc idx) i rest ≡ rest
unfolding hit
hit_negative idx i rest = refl

hit_bounds :
    (z : ℤ) (i : ℕ) (rest : Option (ℕ × ℕ)) {page start : ℕ}
    → hit z i rest ≡ some (page, start)
    → ((page ≡ i) × (start < blocks)) ⊎ (rest ≡ some (page, start))
hit_bounds (pos idx) i rest {page} {start} e = elim (Bool-cases (leb idx (blocks - 1))) [
  | inl inside ↦
      let at : start ≡ idx = cc (e, hit_in idx i rest inside) in
      inl (cc (e, hit_in idx i rest inside), omega (arith, leb→le _ _ inside))
  | inr outside ↦ inr (sym (hit_out idx i rest outside) ∙ e)
]
hit_bounds (negsuc idx) i rest e = inr (sym (hit_negative idx i rest) ∙ e)

find_page-zero : (ptr : ℕ) (base : Array ℕ) (i : ℕ) → find_page ptr base zero i ≡ none
unfolding find_page
find_page-zero ptr base i = refl

pub find_page_bounds :
    (ptr : ℕ) (base : Array ℕ) (left i : ℕ) {page start : ℕ}
    → i + left ≡ pages
    → find_page ptr base left i ≡ some (page, start)
    → (page < pages) × (start < blocks)
find_page_bounds ptr base zero i total e = absurd (cc (e, find_page-zero ptr base i))
find_page_bounds ptr base (suc left) i total e =
    elim (hit_bounds (block_index ptr (base i)) i _ (sym (find_page-suc ptr base left i) ∙ e)) [
      | inl here ↦ (omega arith, here.1)
      | inr later ↦ find_page_bounds ptr base left (i + 1) (omega arith) later
    ]

pub block_index_alias :
    (base other gap start : ℕ)
    → base ≡ other + gap * 2 ^ 32
    → start < blocks
    → block_index (base + start * min_alloc) other ≡ pos start
unfolding block_index
block_index_alias base other gap start e h = ground arith
