-- ===== src/Algo/Examples.antt =====
-- The theorems on libs/algo.c at three locks and at a tree of four nodes.
use mips_os.Common.{ℕ, ◌<◌, ◌≡◌, refl}
use mips_os.Common.{none, some}
use mips_os.Common.{arith, ◌==◌, if◌then◌else◌}
use mips_os.Common.{Ends}
use mips_os.Common.{Ends}
use mips_os.Algo.{qsort, cmp_lock}
use mips_os.Algo.Rearranged.{Rearranged}
use mips_os.Algo.Sort.{qsort-Rearranged}
use mips_os.Algo.Unsorted.{qsort_unsorted}
use mips_os.Algo.Tree.{Store, insert_recurse}
use mips_os.Algo.SearchTree.{Tree, leaf, branch, Grown}
use mips_os.Algo.Insert.{insert_recurse-inserted}

-- The lock 0 has the number 9, and the locks 1 and 2 the numbers 4 and 6.
abbrev numbers : ℕ → ℕ
numbers i = if i == 0 then 9 else if i == 1 then 4 else 6

abbrev in_order : ℕ → ℕ
in_order i = i

qsort-Rearranged_example : Ends (Rearranged 0 2 in_order) (qsort 5 (cmp_lock numbers) in_order 0 2)
qsort-Rearranged_example = qsort-Rearranged numbers (λ a. ground arith) 5 0 2 in_order (omega arith)

qsort_unsorted_example :
    Ends
      (λ new. (new 0 ≡ 1) × (new 1 ≡ 0) × (new 2 ≡ 2) × (numbers (new 2) < numbers (new 1)))
      (qsort 3 (cmp_lock numbers) in_order 0 2)
qsort_unsorted_example =
    qsort_unsorted numbers (λ a. ground arith) 0 in_order (omega arith) (omega arith)

-- Node 0 has the children 1 and 2, and node 2 the right child 3.
abbrev small_tree : Store
small_tree n =
    if n == 0
    then record { color = 1; key = 10; parent = none; left = some 1; right = some 2 }
    else if n == 1
    then record { color = 1; key = 5; parent = some 0; left = none; right = none }
    else if n == 2
    then record { color = 1; key = 20; parent = some 0; left = none; right = some 3 }
    else record { color = 0; key = 30; parent = some 2; left = none; right = none }

abbrev four_nodes : Tree
four_nodes = branch (branch leaf 1 leaf) 0 (branch leaf 2 (branch leaf 3 leaf))

insert_recurse-inserted_example :
    Ends (Grown small_tree none (some 0) four_nodes 4) (insert_recurse 9 small_tree (some 0) 4)
insert_recurse-inserted_example =
    insert_recurse-inserted 9 small_tree none four_nodes 0 4 (omega arith)
      (refl, refl, (refl, refl, refl, refl), (refl, refl, refl, (refl, refl, refl, refl)))
      (
        refl,
        refl,
        λ a on. ground arith,
        (refl, refl, λ a on. absurd cc, tt, tt),
        (refl, refl, λ a on. absurd cc, tt, (refl, refl, λ a on. absurd cc, tt, tt)),
      )
      refl
