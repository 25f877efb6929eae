-- ===== src/Simplefs/Names.antt =====
-- How `get_inode_num` finds a name, and where an open file is put.
use os_modules.Prelude.{
  ℕ, zero, suc, ◌+◌, ◌<◌, ◌≡◌, refl, ap, Option, List, [], ◌∷◌, ◌++◌, Bool-cases, inl, inr, arith,
  ◌==◌,
}
use os_modules.Prelude.Search.{IsFirst, IsFirst-none, IsFirst-here, IsFirst-later}
use os_modules.Prelude.Array.{Array}
use os_modules.Prelude.Text.{length, take, string, same_string, same_string_iff}
use os_modules.Simplefs.Disk.{Inode}
use os_modules.Simplefs.Ops.{name_of, find_name}

-- The inode has the name of the string `filename`.
abbrev pub IsNamed : (filename : List ℕ) → Inode → Type 0
IsNamed filename ino = name_of ino ≡ string filename

-- The first of the inodes from `i` on that has the name, or none when none has it.
abbrev pub IsFound : (filename : List ℕ) → Array Inode → (left i : ℕ) → Option ℕ → Type 0
IsFound filename a = IsFirst (λ k. IsNamed filename (a k))

pub find_name-IsFound :
    (filename : List ℕ) (a : Array Inode) (left i : ℕ)
    → IsFound filename a left i (find_name filename a left i)
unfolding find_name
find_name-IsFound filename a zero i = IsFirst-none (λ k. IsNamed filename (a k)) i
find_name-IsFound filename a (suc left) i =
    let decides = same_string_iff (name_of (a i)) (string filename) in
    elim (Bool-cases (same_string (name_of (a i)) (string filename))) [
      | inl same ↦
          rw (find_name, same) (IsFirst-here (λ k. IsNamed filename (a k)) left i (decides.0 same))
      | inr other ↦
          rw (find_name, other)
            (IsFirst-later (λ k. IsNamed filename (a k)) left i (find_name filename a left (i + 1))
              (λ e. cc (other, decides.1 e)) (find_name-IsFound filename a left (i + 1)))
    ]

-- A name that ends inside the inode is the string that was copied there.
pub string-take :
    (m rest : List ℕ) (k : ℕ)
    → length (string m) < length m
    → length (string m) < k
    → string (take k m ++ rest) ≡ string m
unfolding string
string-take [] rest k h lt = absurd (omega arith)
string-take (c ∷ m) rest zero h lt = absurd (omega arith)
string-take (c ∷ m) rest (suc k) h lt = elim (Bool-cases (c == 0)) [
  | inl e ↦ rw (string, e) refl
  | inr ne ↦
      let longer : length (string (c ∷ m)) ≡ suc (length (string m)) = rw (string, ne) refl in
      rw (string, ne) (ap (λ s. c ∷ s) (string-take m rest k (omega arith) (omega arith)))
]

pub string-++ : (m rest : List ℕ) → length (string m) < length m → string (m ++ rest) ≡ string m
unfolding string
string-++ [] rest h = absurd (omega arith)
string-++ (c ∷ m) rest h = elim (Bool-cases (c == 0)) [
  | inl e ↦ rw (string, e) refl
  | inr ne ↦
      let longer : length (string (c ∷ m)) ≡ suc (length (string m)) = rw (string, ne) refl in
      rw (string, ne) (ap (λ s. c ∷ s) (string-++ m rest (omega arith)))
]
