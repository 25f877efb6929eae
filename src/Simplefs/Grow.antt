-- ===== src/Simplefs/Grow.antt =====
-- How a file grows: into a new block, or inside its last one.
use os_modules.Prelude.{
  ℕ, ◌+◌, ◌-◌, ◌*◌, ◌/◌, ◌%◌, ◌≤◌, ◌<◌, ◌≡◌, ◌≢◌, refl, sym, ◌∙◌, Option, none, some, arith,
}
use os_modules.Prelude.Array.{Array, update, update_self, update_ne, update_at}
use os_modules.Simplefs.Disk.{
  Inode, block_size, num_data_blocks, num_inodes, max_file_size, free_mark, used_mark,
}
use os_modules.Simplefs.Valid.{Holds}
use os_modules.Simplefs.Parts.{Parts, block_used, others_used}

-- A block stays in use while others are taken.
pub Holds-update :
    (bm : Array ℕ) (b : ℕ) (o : Option ℕ) → Holds bm o → Holds (update bm b used_mark) o
Holds-update bm b none h = h
Holds-update bm b (some c) h = (h.0, update_at (λ m. m ≡ used_mark) bm b c (λ e. refl) (λ ne. h.1))

-- The inode with `size` more bytes, and with a new block for them.
abbrev pub longer : (size : ℕ) → Inode → Inode
longer size x = record x { file_size = x.file_size + size }

abbrev pub with_block : (b : ℕ) → Inode → Inode
with_block b x = record x {
  direct_blocks = update x.direct_blocks (x.file_size / block_size) (some b);
}

module _ {a : Array Inode} {i : ℕ} {x : Inode} {im bm : Array ℕ} (p : Parts a i x im bm)
    (used : im i ≡ used_mark) where
  pub grow_old :
      {s : ℕ}
      → 0 < x.file_size % block_size
      → s ≤ block_size - x.file_size % block_size
      → Parts a i (longer s x) im bm
  grow_old {s} inside fits = record {
    small = omega (arith, p.small);
    held = λ k q. p.held k (omega arith);
    bare = λ k q. p.bare k (omega arith);
    own = p.own;
    apart = p.apart;
    empty = λ u. absurd (u used);
    others_small = p.others_small;
    others_held = p.others_held;
    others_bare = p.others_bare;
    others_own = p.others_own;
    others_empty = p.others_empty;
  }

  module _ {b : ℕ} (lt : b < num_data_blocks) (free : bm b ≡ free_mark) where
    not_mine : {k : ℕ} → x.direct_blocks k ≢ some b
    not_mine e = grind (arith, block_used p e)

    not_others : {j k : ℕ} → j < num_inodes → i ≢ j → (a j).direct_blocks k ≢ some b
    not_others h ne e = grind (arith, others_used p h ne e)

    pub grow_new :
        {s : ℕ}
        → x.file_size % block_size ≡ 0
        → x.file_size < max_file_size * block_size
        → 0 < s
        → s ≤ block_size
        → Parts a i (longer s (with_block b x)) im (update bm b used_mark)
    grow_new {s} full room some_bytes fits = record {
      small = omega arith;
      held = λ k q.
          update_at (Holds (update bm b used_mark)) x.direct_blocks (x.file_size / block_size) k
            (λ e. (lt, update_self bm b used_mark))
            (λ ne. Holds-update bm b (x.direct_blocks k) (p.held k (omega arith)));
      bare = λ k q.
          update_ne x.direct_blocks (x.file_size / block_size) k (some b) (omega arith)
          ∙ p.bare k (omega arith);
      own = λ k l c.
          update_at
            (λ o.
              o ≡ some c
              → update x.direct_blocks (x.file_size / block_size) (some b) l ≡ some c
              → k ≡ l)
            x.direct_blocks (x.file_size / block_size) k
            (λ e q.
              update_at (λ o. o ≡ some c → k ≡ l) x.direct_blocks (x.file_size / block_size) l
                (λ e' q'. sym e ∙ e') (λ ne' q'. absurd (not_mine {k = l} cc)))
            (λ ne q.
              update_at (λ o. o ≡ some c → k ≡ l) x.direct_blocks (x.file_size / block_size) l
                (λ e' q'. absurd (not_mine {k = k} cc)) (λ ne' q'. p.own k l c q q'));
      apart = λ j k l c h ne.
          update_at (λ o. o ≡ some c → (a j).direct_blocks l ≢ some c) x.direct_blocks
            (x.file_size / block_size) k (λ e q q'. not_others {j = j} {k = l} h ne cc)
            (λ ne'. p.apart j k l c h ne);
      empty = λ u. absurd (u used);
      others_small = p.others_small;
      others_held =
          λ j k h ne q. Holds-update bm b ((a j).direct_blocks k) (p.others_held j k h ne q);
      others_bare = p.others_bare;
      others_own = p.others_own;
      others_empty = p.others_empty;
    }
