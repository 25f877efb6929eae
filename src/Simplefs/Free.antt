-- ===== src/Simplefs/Free.antt =====
-- What the loops of `simplefs_allocInode` and `simplefs_allocDataBlock` find.
use os_modules.Prelude.{ℕ, zero, suc, ◌+◌, ◌≡◌, Option, ◌==◌, Bool-cases, inl, inr, ==→eq, ==→ne}
use os_modules.Prelude.Search.{IsFirst, IsFirst-none, IsFirst-here, IsFirst-later}
use os_modules.Prelude.Array.{Array}
use os_modules.Simplefs.Disk.{free_mark, first_free}

-- The first free one of the marks from `i` on, or none when none is.
abbrev pub IsFirstFree : Array ℕ → (left i : ℕ) → Option ℕ → Type 0
IsFirstFree f = IsFirst (λ k. f k ≡ free_mark)

-- The search returns the lowest index that is marked as free, or none when no index is.
pub first_free-IsFirstFree : (f : Array ℕ) (left i : ℕ) → IsFirstFree f left i (first_free f left i)
unfolding first_free
first_free-IsFirstFree f zero i = IsFirst-none (λ k. f k ≡ free_mark) i
first_free-IsFirstFree f (suc left) i = elim (Bool-cases (f i == free_mark)) [
  | inl free ↦
      rw (first_free, free)
        (IsFirst-here (λ k. f k ≡ free_mark) left i (==→eq (f i) free_mark free))
  | inr taken ↦
      rw (first_free, taken)
        (IsFirst-later (λ k. f k ≡ free_mark) left i (first_free f left (i + 1))
          (==→ne (f i) free_mark taken) (first_free-IsFirstFree f left (i + 1)))
]
