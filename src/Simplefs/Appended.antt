-- ===== src/Simplefs/Appended.antt =====
-- The bytes of files when a chunk is written behind the end of one.
use os_modules.Prelude.{
  ℕ, ◌+◌, ◌-◌, ◌/◌, ◌%◌, ◌≤◌, ◌<◌, ◌≡◌, ◌≢◌, refl, sym, ap, ◌∙◌, Option, none, some, arith,
  ℕ_discrete, ◌⊎◌, inl, inr, dec_lt,
}
use os_modules.Prelude.Array.{Array, update, update_self, update_ne}
use os_modules.Simplefs.Disk.{Inode, block_size, num_inodes}
use os_modules.Simplefs.Valid.{byte, byte_in}
use os_modules.Simplefs.Parts.{Parts}
use os_modules.Simplefs.Grow.{longer}
use os_modules.Simplefs.Reading.{byte_near}

-- The file of inode `i` has `size` more bytes, those of `buf` from `from` on, and every other byte
-- of every file is what it was. `a` are the inodes on the disk.
pub record Appended (a : Array Inode) (i : ℕ) (buf : Array ℕ) (from size : ℕ)
    (block : Array (Array ℕ)) (x : Inode) (block' : Array (Array ℕ)) (x' : Inode) : Type 0 where
  pub size_eq : x'.file_size ≡ x.file_size + size
  pub kept : (j : ℕ) → j < x.file_size → byte block' x' j ≡ byte block x j
  pub added : (d : ℕ) → d < size → byte block' x' (x.file_size + d) ≡ buf (from + d)
  pub others : (j k : ℕ) → j < num_inodes → i ≢ j → byte block' (a j) k ≡ byte block (a j) k

module _ {a : Array Inode} {i : ℕ} {buf : Array ℕ} where
  pub Appended-refl :
      (block : Array (Array ℕ)) (x : Inode) (from : ℕ) → Appended a i buf from 0 block x block x
  Appended-refl block x from = record {
    size_eq = omega arith;
    kept = λ j h. refl;
    added = λ d h. absurd (omega arith);
    others = λ j k h ne. refl;
  }

  pub Appended-trans :
      {from s t : ℕ} {block block' block'' : Array (Array ℕ)} {x x' x'' : Inode}
      → Appended a i buf from s block x block' x'
      → Appended a i buf (from + s) t block' x' block'' x''
      → Appended a i buf from (s + t) block x block'' x''
  Appended-trans {from} {s} {t} {block} {block'} {block''} {x} {x'} {x''} p q = record {
    size_eq = omega (arith, p.size_eq, q.size_eq);
    kept = λ j h. q.kept j (omega (arith, p.size_eq)) ∙ p.kept j h;
    added = λ d h. elim (dec_lt d s) [
      | yes first ↦ q.kept (x.file_size + d) (omega (arith, p.size_eq)) ∙ p.added d first
      | no second ↦
          let place : x'.file_size + (d - s) ≡ x.file_size + d = omega (arith, p.size_eq) in
          let source : from + s + (d - s) ≡ from + d = omega arith in
          sym (ap (byte block'' x'') place) ∙ q.added (d - s) (omega arith) ∙ ap buf source
    ];
    others = λ j k h ne. q.others j k h ne ∙ p.others j k h ne;
  }

byte_in-update :
    (block : Array (Array ℕ)) (b : ℕ) (temp : Array ℕ) (o : Option ℕ) (k : ℕ)
    → o ≢ some b
    → byte_in (update block b temp) o k ≡ byte_in block o k
byte_in-update block b temp none k ne = refl
byte_in-update block b temp (some c) k ne =
    ap (λ f. f k) (update_ne block b c temp (λ e. ne (ap some (sym e))))

byte_in_here :
    (block : Array (Array ℕ)) (b : ℕ) (temp : Array ℕ) (o : Option ℕ) (k : ℕ)
    → o ≡ some b
    → byte_in (update block b temp) o k ≡ temp k
byte_in_here block b temp o k e =
    ap (λ o'. byte_in (update block b temp) o' k) e ∙ ap (λ f. f k) (update_self block b temp)

-- Block `b`, the last of the file with the block numbers `blocks`, is written with `temp`.
module _ {a : Array Inode} {i : ℕ} (x : Inode) (blocks : Array (Option ℕ)) (s : ℕ) {im bm : Array ℕ}
    (p : Parts a i (longer s (record x { direct_blocks = blocks })) im bm) (block : Array (Array ℕ))
    (b : ℕ) (temp buf : Array ℕ) (from : ℕ) (here : blocks (x.file_size / block_size) ≡ some b)
    (there : (k : ℕ)
      → (k ≢ x.file_size / block_size) ⊎ (0 < x.file_size % block_size)
      → blocks k ≡ x.direct_blocks k)
    (fits : s ≤ block_size - x.file_size % block_size)
    (old_bytes : (k : ℕ) → k < x.file_size % block_size → temp k ≡ block b k)
    (new_bytes : (d : ℕ) → d < s → temp (x.file_size % block_size + d) ≡ buf (from + d)) where
  kept_here :
      (j : ℕ)
      → j < x.file_size
      → j / block_size ≡ x.file_size / block_size
      → byte (update block b temp) (longer s (record x { direct_blocks = blocks })) j
        ≡ byte block x j
  kept_here j h e =
      let at_b : blocks (j / block_size) ≡ some b = ap blocks e ∙ here in
      byte_in_here block b temp (blocks (j / block_size)) (j % block_size) at_b
      ∙ old_bytes (j % block_size) (omega arith)
      ∙ ap (λ o. byte_in block o (j % block_size))
          (sym at_b ∙ there (j / block_size) (inr (omega arith)))

  kept_there :
      (j : ℕ)
      → j / block_size ≢ x.file_size / block_size
      → byte (update block b temp) (longer s (record x { direct_blocks = blocks })) j
        ≡ byte block x j
  kept_there j ne =
      byte_in-update block b temp (blocks (j / block_size)) (j % block_size)
        (λ e. ne (p.own (j / block_size) (x.file_size / block_size) b e here))
      ∙ ap (λ o. byte_in block o (j % block_size)) (there (j / block_size) (inl ne))

  pub chunk-Appended :
      Appended a i buf from s block x
        (update block b temp)
        (longer s (record x { direct_blocks = blocks }))
  chunk-Appended = record {
    size_eq = refl;
    kept = λ j h. elim (ℕ_discrete (j / block_size) (x.file_size / block_size)) [
      | yes e ↦ kept_here j h e
      | no ne ↦ kept_there j ne
    ];
    added = λ d h.
        byte_near (update block b temp) (longer s (record x { direct_blocks = blocks })) x.file_size
          d (omega arith)
        ∙ byte_in_here block b temp (blocks (x.file_size / block_size))
            (x.file_size % block_size + d) here
        ∙ new_bytes d h;
    others = λ j k h ne.
        byte_in-update block b temp ((a j).direct_blocks (k / block_size)) (k % block_size)
          (p.apart j (x.file_size / block_size) (k / block_size) b h ne here);
  }
