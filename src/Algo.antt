-- ===== src/Algo.antt =====
-- libs/algo.c: `qsort`, which orders the locks that are taken or given back together. An array of
-- pointers is a function of the index, and `cmp a b` says whether the comparison is negative. The
-- recursion takes fuel.
pub mod Rearranged
pub mod Order
pub mod Partition
pub mod Sort
pub mod Unsorted
pub mod Tree
pub mod Rotate
pub mod SearchTree
pub mod Insert
pub mod Examples
use mips_os.Common.{
  ℕ, zero, suc, ◌+◌, ◌-◌, ◌*◌, ◌/◌, ◌%◌, ◌^◌, ◌≤◌, ◌<◌, ◌≡◌, refl, sym, ap, ◌∙◌, subst, fun_ext,
}
use mips_os.Common.{◌≢◌, ◌↔◌, ◌⊎◌, inl, inr, Bool, true, false, not, ◌&&◌, ◌||◌, Option, none, some}
use mips_os.Common.{
  List, [], ◌∷◌, ◌++◌, map, arith, ltb, leb, ◌==◌, if◌then◌else◌, update, points_to,
}
use mips_os.Common.{
  ltb→lt, ltb→le, lt→ltb, le→ltb, ==_iff, ==_self, update_self, update_other, Bool-cases,
  Option-cases,
}
use mips_os.Common.{
  Outcome, ok, fault, hang, ◌>>=◌, >>=-fault, >>=-returns, Ends, Ends-bind, length, get_elem?, set,
  first, last_from, length-append, has, Distinct, has-append,
}

-- Two elements exchanged.
unfoldable pub swap : (ℕ → ℕ) → ℕ → ℕ → ℕ → ℕ
swap b i j = update (update b i (b j)) j (b i)

-- The loop over `i`, with `left` rounds to go: the array and `last`.
unfoldable pub partition_from : (cmp : ℕ → ℕ → Bool) → (left i last : ℕ) → (ℕ → ℕ) → (ℕ → ℕ) × ℕ
partition_from cmp zero i last b = (b, last)
partition_from cmp (suc left) i last b = elim (cmp (b i) (b last)) [
  | true ↦ partition_from cmp left (i + 1) (last + 1) (swap b i (last + 1))
  | false ↦ partition_from cmp left (i + 1) last b
]

unfoldable pub qsort : ℕ → (cmp : ℕ → ℕ → Bool) → (ℕ → ℕ) → (left right : ℕ) → Outcome (ℕ → ℕ)
qsort zero cmp b left right = hang
qsort (suc fuel) cmp b left right = elim (leb right left) [
  | true ↦ ok b
  | false ↦
      let r = partition_from cmp (right + 1 - left) left left b in
      (do b ← qsort fuel cmp (swap r.0 left r.1) left r.1; qsort fuel cmp b (r.1 + 1) right)
]

-- `cmp_lock` is negative: the difference of two words, read as an `int`.
unfoldable pub cmp_lock : (lock_id : ℕ → ℕ) → ℕ → ℕ → Bool
cmp_lock lock_id a b = leb (2 ^ 31) ((lock_id a + 2 ^ 32 - lock_id b) % 2 ^ 32)
