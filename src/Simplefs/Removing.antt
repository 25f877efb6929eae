-- ===== src/Simplefs/Removing.antt =====
-- What `simplefs_delete` does with the inode of a file.
use os_modules.Prelude.{
  ℕ, zero, suc, ◌+◌, ◌≤◌, ◌<◌, ◌≡◌, ◌≢◌, refl, sym, ap, ◌∙◌, Option, none, some, arith, ℕ_discrete,
  inl, inr, dec_lt, Option-cases, lt→ltb,
}
use os_modules.Prelude.Array.{Array, update, update_self, update_ne, fill_in, fill_out}
use os_modules.Prelude.Result.{ok}
use os_modules.Simplefs.Disk.{
  Fs, Inode, num_data_blocks, num_inodes, max_file_size, free_mark, used_mark, read_inode,
  write_inode, free_inode, free_data_block, freed_inode, put_inode, set_inode_mark, set_block_mark,
}
use os_modules.Simplefs.Ops.{free_block_at, free_blocks, delete_inode}
use os_modules.Simplefs.Valid.{Holds, IsValid}
use os_modules.Simplefs.Parts.{Parts, Valid-Parts, Parts-Valid, block_used}

-- The disk with other marks of its data blocks.
abbrev pub with_marks : Array ℕ → Fs → Fs
with_marks bm fs = record fs { superblock = record fs.superblock { datablock_freelist = bm } }

-- Block `c` is one of the `left` blocks of the inode from index `k` on.
abbrev IsAmong : Inode → (left k c : ℕ) → Type 0
IsAmong ino left k c = (l : ℕ) × (k ≤ l) × (l < k + left) × (ino.direct_blocks l ≡ some c)

-- These blocks are freed, and no others.
record Freed (ino : Inode) (left k : ℕ) (bm bm' : Array ℕ) : Type 0 where
  freed : (c : ℕ) → IsAmong ino left k c → bm' c ≡ free_mark
  stays : (c : ℕ) → ¬ IsAmong ino left k c → bm' c ≡ bm c

module _ (ino : Inode)
    (own : (k l b : ℕ) → ino.direct_blocks k ≡ some b → ino.direct_blocks l ≡ some b → k ≡ l) where
  Freed-none :
      (left k : ℕ) (bm bm' : Array ℕ)
      → ino.direct_blocks k ≡ none
      → Freed ino left (k + 1) bm bm'
      → Freed ino (suc left) k bm bm'
  Freed-none left k bm bm' e f = record {
    freed = λ c (l, lo, hi, e'). elim (ℕ_discrete k l) [
      | yes here ↦ absurd (cc (e', ap ino.direct_blocks here, e))
      | no there ↦ f.freed c (l, omega arith, omega arith, e')
    ];
    stays = λ c out. f.stays c (λ (l, lo, hi, e'). out (l, omega arith, omega arith, e'));
  }

  Freed-some :
      (left k b : ℕ) (bm bm' : Array ℕ)
      → ino.direct_blocks k ≡ some b
      → Freed ino left (k + 1) (update bm b free_mark) bm'
      → Freed ino (suc left) k bm bm'
  Freed-some left k b bm bm' e f = record {
    freed = λ c (l, lo, hi, e'). elim (ℕ_discrete k l) [
      | yes here ↦
          let same : b ≡ c = cc (e, e', ap ino.direct_blocks here) in
          f.stays c (λ (m, lo', hi', e''). omega (arith, own l m c e' e'', here))
          ∙ ap (update bm b free_mark) (sym same)
          ∙ update_self bm b free_mark
      | no there ↦ f.freed c (l, omega arith, omega arith, e')
    ];
    stays = λ c out.
        f.stays c (λ (l, lo, hi, e'). out (l, omega arith, omega arith, e'))
        ∙ update_ne bm b c free_mark (λ e'. out (k, omega arith, omega arith, e ∙ ap some e'));
  }

  free_blocks_lem :
      (left k : ℕ) (fs : Fs)
      → ((c : ℕ)
          → IsAmong ino left k c
          → (c < num_data_blocks) × (fs.superblock.datablock_freelist c ≡ used_mark))
      → (bm' : Array ℕ) × (free_blocks ino left k fs ≡ ok (with_marks bm' fs))
        × Freed ino left k fs.superblock.datablock_freelist bm'
  unfolding free_blocks free_block_at free_data_block
  free_blocks_lem zero k fs used = (
    fs.superblock.datablock_freelist,
    refl,
    record { freed = λ c (l, lo, hi, e). absurd (omega arith); stays = λ c out. refl },
  )
  free_blocks_lem (suc left) k fs used = elim (Option-cases (ino.direct_blocks k)) [
    | inl e ↦
        let (bm', e', f) =
          free_blocks_lem left (k + 1) fs
            (λ c (l, lo, hi, at_l). used c (l, omega arith, omega arith, at_l)) in
        (bm', rw (free_blocks, e) e', Freed-none left k fs.superblock.datablock_freelist bm' e f)
    | inr (b, e) ↦
        let (on_disk, marked) = used b (k, omega arith, omega arith, e) in
        let (bm', e', f) =
          free_blocks_lem left (k + 1) (set_block_mark b free_mark fs) (λ c (l, lo, hi, at_l).
            let other = used c (l, omega arith, omega arith, at_l) in
            (
              other.0,
              update_ne fs.superblock.datablock_freelist b c free_mark
                    (λ same. omega (arith, own k l c (e ∙ ap some same) at_l))
                  ∙ other.1,
            )) in
        (
          bm',
          rw (free_blocks, e, lt→ltb b num_data_blocks on_disk, marked) e',
          Freed-some left k b fs.superblock.datablock_freelist bm' e f,
        )
  ]

-- The disk that deleting the file of inode `i` leaves.
pub record Removed (i : ℕ) (fs fs' : Fs) : Type 0 where
  pub valid : IsValid fs'
  pub inode_eq : fs'.inode ≡ update fs.inode i (freed_inode (fs.inode i))
  pub marks_eq : fs'.superblock.inode_freelist ≡ update fs.superblock.inode_freelist i free_mark
  pub bytes_eq : fs'.block ≡ fs.block
  pub handles_eq : fs'.file_handle_array ≡ fs.file_handle_array
  pub freed :
      (k b : ℕ)
      → (fs.inode i).direct_blocks k ≡ some b
      → fs'.superblock.datablock_freelist b ≡ free_mark

module _ (fs : Fs) (i : ℕ) (v : IsValid fs) (lt : i < num_inodes) where
  p : Parts fs.inode i (fs.inode i) fs.superblock.inode_freelist fs.superblock.datablock_freelist
  p = Valid-Parts lt v

  pub no_blocks : (k : ℕ) → (freed_inode (fs.inode i)).direct_blocks k ≡ none
  no_blocks k = elim (dec_lt k max_file_size) [
    | yes inside ↦
        fill_in (fs.inode i).direct_blocks 0 max_file_size none k (omega arith) (omega arith)
    | no outside ↦
        fill_out (fs.inode i).direct_blocks 0 max_file_size none k (inr (omega arith))
        ∙ v.bare i k lt (omega (arith, v.small i lt))
  ]

  inside_file : (k b : ℕ) → (fs.inode i).direct_blocks k ≡ some b → k < 0 + max_file_size
  inside_file k b e = elim (dec_lt k max_file_size) [
    | yes inside ↦ omega arith
    | no outside ↦ absurd (cc (e, v.bare i k lt (omega (arith, v.small i lt))))
  ]

  module _ (bm' : Array ℕ)
      (f : Freed (fs.inode i) max_file_size 0 fs.superblock.datablock_freelist bm') where
    others_hold :
        (j k : ℕ) (o : Option ℕ)
        → j < num_inodes
        → i ≢ j
        → (fs.inode j).direct_blocks k ≡ o
        → Holds fs.superblock.datablock_freelist o
        → Holds bm' o
    others_hold j k none hj ne e h = h
    others_hold j k (some c) hj ne e h =
        (h.0, f.stays c (λ (l, lo, hi, e'). p.apart j l k c hj ne e' e) ∙ h.1)

    freed-Parts :
        Parts fs.inode i
          (freed_inode (fs.inode i))
          (update fs.superblock.inode_freelist i free_mark)
          bm'
    freed-Parts = record {
      small = omega arith;
      held = λ k q. absurd (omega arith);
      bare = λ k q. no_blocks k;
      own = λ k l b e e'. absurd (cc (e, no_blocks k));
      apart = λ j k l b h ne e e'. cc (e, no_blocks k);
      empty = λ u. refl;
      others_small = p.others_small;
      others_held = λ j k h ne q.
          others_hold j k ((fs.inode j).direct_blocks k) h ne refl (p.others_held j k h ne q);
      others_bare = p.others_bare;
      others_own = p.others_own;
      others_empty = λ j h ne u.
          p.others_empty j h ne
            (λ e. u (update_ne fs.superblock.inode_freelist i j free_mark ne ∙ e));
    }

  -- Deleting the file of an inode in use frees the inode and its blocks, and passes all assertions.
  pub delete_inode_lem :
      fs.superblock.inode_freelist i ≡ used_mark
      → (fs' : Fs) × (delete_inode (some i) fs ≡ ok fs') × Removed i fs fs'
  unfolding delete_inode read_inode free_inode write_inode
  delete_inode_lem used =
      let (bm', e, f) =
        free_blocks_lem (fs.inode i) p.own max_file_size 0 fs
          (λ c (l, lo, hi, e). block_used p e) in
      (
        put_inode i (freed_inode (fs.inode i)) (set_inode_mark i free_mark (with_marks bm' fs)),
        rw (lt→ltb i num_inodes lt, e, used) refl,
        record {
          valid = Parts-Valid (freed-Parts bm' f);
          inode_eq = refl;
          marks_eq = refl;
          bytes_eq = refl;
          handles_eq = refl;
          freed = λ k b e'. f.freed b (k, omega arith, inside_file k b e', e');
        },
      )
