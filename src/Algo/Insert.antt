-- ===== src/Algo/Insert.antt =====
-- `insert_recurse` of libs/algo.c against insertion into a search tree: the linked nodes stand for a
-- tree, and the new node becomes a leaf of that tree at the place that its key has.
use mips_os.Common.{ℕ, zero, suc, ◌<◌, ◌≡◌, refl, sym, subst}
use mips_os.Common.{inl, inr, true, false, Option, some}
use mips_os.Common.{arith, ltb}
use mips_os.Common.{Bool-cases}
use mips_os.Common.{Ends}
use mips_os.Common.{Ends, Ends-map}
use mips_os.Algo.Tree.{Store, insert_recurse}
use mips_os.Algo.SearchTree.{
  Tree, leaf, branch, member, IsTree, Separate, height, Grown, Grown-left, Grown-right, leaf_left,
  leaf_right,
}

-- One step down to the left, given the insertion into the left subtree.
below_left :
    (fuel : ℕ) (h : Store) (up : Option ℕ) (l r : Tree) (m n : ℕ)
    → IsTree h up (some m) (branch l m r)
    → Separate (branch l m r)
    → member n (branch l m r) ≡ false
    → ltb (h n).key (h m).key ≡ true
    → ((c : ℕ)
        → IsTree h (some m) (some c) l
        → Ends (Grown h (some m) (some c) l n) (insert_recurse fuel h (some c) n))
    → Ends (Grown h up (some m) (branch l m r) n) (insert_recurse (suc fuel) h (some m) n)
unfolding insert_recurse
below_left fuel h up leaf r m n (at, parent, left, right) sep out less go =
    rw (less, left, insert_recurse) (leaf_left h up r m n sep.1 out (parent, right) less)
below_left fuel h up (branch a b c) r m n (at, parent, left, right) sep out less go =
    let here : (h m).left ≡ some b = left.0 in
    rw (less, here, insert_recurse)
      (Ends-map _ _ (insert_recurse fuel h (some b) n)
        (go b (subst (λ p. IsTree h (some m) p (branch a b c)) here left))
        λ new grown.
          Grown-left h new up (branch a b c) r m n sep out (parent, right) less
            (subst (λ p. Grown h (some m) p (branch a b c) n new) (sym here) grown))

-- The same to the right.
below_right :
    (fuel : ℕ) (h : Store) (up : Option ℕ) (l r : Tree) (m n : ℕ)
    → IsTree h up (some m) (branch l m r)
    → Separate (branch l m r)
    → member n (branch l m r) ≡ false
    → ltb (h n).key (h m).key ≡ false
    → ((c : ℕ)
        → IsTree h (some m) (some c) r
        → Ends (Grown h (some m) (some c) r n) (insert_recurse fuel h (some c) n))
    → Ends (Grown h up (some m) (branch l m r) n) (insert_recurse (suc fuel) h (some m) n)
unfolding insert_recurse
below_right fuel h up l leaf m n (at, parent, left, right) sep out less go =
    rw (less, right, insert_recurse) (leaf_right h up l m n sep.0 out (parent, left) less)
below_right fuel h up l (branch a b c) m n (at, parent, left, right) sep out less go =
    let here : (h m).right ≡ some b = right.0 in
    rw (less, here, insert_recurse)
      (Ends-map _ _ (insert_recurse fuel h (some b) n)
        (go b (subst (λ p. IsTree h (some m) p (branch a b c)) here right))
        λ new grown.
          Grown-right h new up l (branch a b c) m n sep out (parent, left) less
            (subst (λ p. Grown h (some m) p (branch a b c) n new) (sym here) grown))

-- Into the linked nodes of a tree, a node that is not in it goes in as a new leaf, at the place that its
-- key has in the search order. It is red with the key that it had; the nodes of the tree keep their keys
-- and colours, and are linked as the new tree; every node outside the tree but the new one is as it
-- was. The nodes of the tree are distinct, and a fuel above their number is enough.
pub insert_recurse-inserted :
    (fuel : ℕ) (h : Store) (up : Option ℕ) (t : Tree) (root n : ℕ)
    → height t < fuel
    → IsTree h up (some root) t
    → Separate t
    → member n t ≡ false
    → Ends (Grown h up (some root) t n) (insert_recurse fuel h (some root) n)
insert_recurse-inserted fuel h up leaf root n enough tree sep out = absurd cc
insert_recurse-inserted zero h up (branch l m r) root n enough tree sep out = absurd (omega arith)
insert_recurse-inserted (suc fuel) h up (branch l m r) root n enough (at, parent, left, right) sep
      out =
    subst (λ p. Ends (Grown h up p (branch l m r) n) (insert_recurse (suc fuel) h p n)) (sym at)
      (elim (Bool-cases (ltb (h n).key (h m).key)) [
        | inl less ↦
            below_left fuel h up l r m n (refl, parent, left, right) sep out less
              λ c sub.
                insert_recurse-inserted fuel h (some m) l c n (omega (arith, enough)) sub sep.3
                  (ground (arith, out))
        | inr more ↦
            below_right fuel h up l r m n (refl, parent, left, right) sep out more
              λ c sub.
                insert_recurse-inserted fuel h (some m) r c n (omega (arith, enough)) sub sep.4
                  (ground (arith, out))
      ])
