-- ===== src/Simplefs/Parts.antt =====
-- The invariant of the disk, seen from one inode whose new contents `x` are not yet written back.
use os_modules.Prelude.{ℕ, ◌*◌, ◌≤◌, ◌<◌, ◌≡◌, ◌≢◌, sym, ◌∙◌, none, some, arith, dec_lt}
use mathlib.Core.Path.{subst}
use os_modules.Prelude.Array.{Array, update, update_at}
use os_modules.Simplefs.Disk.{
  Inode, block_size, num_data_blocks, num_inodes, max_file_size, used_mark,
}
use os_modules.Simplefs.Valid.{Holds, Valid}

pub record Parts (a : Array Inode) (i : ℕ) (x : Inode) (inode_mark block_mark : Array ℕ)
    : Type 0 where
  pub small : x.file_size ≤ max_file_size * block_size
  pub held : (k : ℕ) → k * block_size < x.file_size → Holds block_mark (x.direct_blocks k)
  pub bare : (k : ℕ) → x.file_size ≤ k * block_size → x.direct_blocks k ≡ none
  pub own : (k l b : ℕ) → x.direct_blocks k ≡ some b → x.direct_blocks l ≡ some b → k ≡ l
  pub apart :
      (j k l b : ℕ)
      → j < num_inodes
      → i ≢ j
      → x.direct_blocks k ≡ some b
      → (a j).direct_blocks l ≢ some b
  pub empty : inode_mark i ≢ used_mark → x.file_size ≡ 0
  pub others_small : (j : ℕ) → j < num_inodes → i ≢ j → (a j).file_size ≤ max_file_size * block_size
  pub others_held :
      (j k : ℕ)
      → j < num_inodes
      → i ≢ j
      → k * block_size < (a j).file_size
      → Holds block_mark ((a j).direct_blocks k)
  pub others_bare :
      (j k : ℕ)
      → j < num_inodes
      → i ≢ j
      → (a j).file_size ≤ k * block_size
      → (a j).direct_blocks k ≡ none
  pub others_own :
      (j j' k l b : ℕ)
      → j < num_inodes
      → j' < num_inodes
      → i ≢ j
      → i ≢ j'
      → (a j).direct_blocks k ≡ some b
      → (a j').direct_blocks l ≡ some b
      → (j ≡ j') × (k ≡ l)
  pub others_empty :
      (j : ℕ) → j < num_inodes → i ≢ j → inode_mark j ≢ used_mark → (a j).file_size ≡ 0

module _ {a : Array Inode} {i : ℕ} {im bm : Array ℕ} where
  -- A valid disk, seen from its own inode `i`.
  pub Valid-Parts : i < num_inodes → Valid a im bm → Parts a i (a i) im bm
  Valid-Parts lt v = record {
    small = v.small i lt;
    held = λ k. v.held i k lt;
    bare = λ k. v.bare i k lt;
    own = λ k l b p q. (v.own i i k l b lt lt p q).1;
    apart = λ j k l b h ne p q. ne (v.own i j k l b lt h p q).0;
    empty = v.empty i lt;
    others_small = λ j h ne. v.small j h;
    others_held = λ j k h ne. v.held j k h;
    others_bare = λ j k h ne. v.bare j k h;
    others_own = λ j j' k l b h h' ne ne'. v.own j j' k l b h h';
    others_empty = λ j h ne. v.empty j h;
  }

  -- Writing the inode back gives a valid disk.
  pub Parts-Valid : {x : Inode} → Parts a i x im bm → Valid (update a i x) im bm
  Parts-Valid {x} p = record {
    small = λ j h.
        update_at (λ y. y.file_size ≤ max_file_size * block_size) a i j (λ e. p.small)
          (λ ne. p.others_small j h ne);
    held = λ j k h.
        update_at (λ y. k * block_size < y.file_size → Holds bm (y.direct_blocks k)) a i j
          (λ e. p.held k) (λ ne. p.others_held j k h ne);
    bare = λ j k h.
        update_at (λ y. y.file_size ≤ k * block_size → y.direct_blocks k ≡ none) a i j
          (λ e. p.bare k) (λ ne. p.others_bare j k h ne);
    own = λ j j' k l b h h'.
        update_at
          (λ y.
            y.direct_blocks k ≡ some b
            → (update a i x j').direct_blocks l ≡ some b
            → (j ≡ j') × (k ≡ l))
          a i j
          (λ e c.
            update_at (λ y. y.direct_blocks l ≡ some b → (j ≡ j') × (k ≡ l)) a i j'
              (λ e' c'. (sym e ∙ e', p.own k l b c c'))
              (λ ne' c'. absurd (p.apart j' k l b h' ne' c c')))
          (λ ne c.
            update_at (λ y. y.direct_blocks l ≡ some b → (j ≡ j') × (k ≡ l)) a i j'
              (λ e' c'. absurd (p.apart j l k b h ne c' c))
              (λ ne' c'. p.others_own j j' k l b h h' ne ne' c c'));
    empty = λ j h.
        update_at (λ y. im j ≢ used_mark → y.file_size ≡ 0) a i j
          (λ e u. p.empty (subst (λ t. im t ≢ used_mark) (sym e) u)) (λ ne. p.others_empty j h ne);
  }

module _ {a : Array Inode} {i : ℕ} {x : Inode} {im bm : Array ℕ} (p : Parts a i x im bm) where
  -- The blocks of the inode, and of the others, are marked as used.
  pub block_used :
      {k b : ℕ} → x.direct_blocks k ≡ some b → (b < num_data_blocks) × (bm b ≡ used_mark)
  block_used {k} {b} e = elim (dec_lt (k * block_size) x.file_size) [
    | yes inside ↦ rw e at (p.held k inside)
    | no outside ↦ absurd (cc (e, p.bare k (omega arith)))
  ]

  pub others_used :
      {j k b : ℕ}
      → j < num_inodes
      → i ≢ j
      → (a j).direct_blocks k ≡ some b
      → (b < num_data_blocks) × (bm b ≡ used_mark)
  others_used {j} {k} {b} h ne e = elim (dec_lt (k * block_size) (a j).file_size) [
    | yes inside ↦ rw e at (p.others_held j k h ne inside)
    | no outside ↦ absurd (cc (e, p.others_bare j k h ne (omega arith)))
  ]
