-- ===== src/Algo/Rotate.antt =====
-- What the rotations of libs/algo.c do to the links of the parent.
use mips_os.Common.{ℕ, ◌≡◌, refl, sym, ap, ◌∙◌, subst}
use mips_os.Common.{◌≢◌, false, Option, none, some}
use mips_os.Common.{arith, points_to}
use mips_os.Common.{Ends}
use mips_os.Common.{Ends}
use mips_os.Algo.Tree.{
  Node, Store, set_parent, set_left, set_right, adopt, relink_left, relink_right, turn_left,
  turn_right, rotate_left, rotate_right,
}

-- A change of parents leaves the children alone.
set_parent-left :
    (h : Store) (n : ℕ) (v : Option ℕ) (q : ℕ) → (set_parent h n v q).left ≡ (h q).left
set_parent-left h n v q = ground arith

set_parent-right :
    (h : Store) (n : ℕ) (v : Option ℕ) (q : ℕ) → (set_parent h n v q).right ≡ (h q).right
set_parent-right h n v q = ground arith

adopt-left : (h : Store) (c : Option ℕ) (n q : ℕ) → (adopt h c n q).left ≡ (h q).left
unfolding adopt
adopt-left h none n q = refl
adopt-left h (some c) n q = set_parent-left h c (some n) q

adopt-right : (h : Store) (c : Option ℕ) (n q : ℕ) → (adopt h c n q).right ≡ (h q).right
unfolding adopt
adopt-right h none n q = refl
adopt-right h (some c) n q = set_parent-right h c (some n) q

-- The children of a node that the first steps of a rotation do not write.
early_left :
    (h : Store) (n m p : ℕ)
    → p ≢ n
    → p ≢ m
    → (set_parent (set_left (set_right h n (h m).left) m (some n)) n (some m) p) ≡ h p
early_left h n m p pn pm = ground arith

early_right :
    (h : Store) (n m p : ℕ)
    → p ≢ n
    → p ≢ m
    → (set_parent (set_right (set_left h n (h m).right) m (some n)) n (some m) p) ≡ h p
early_right h n m p pn pm = ground arith

relinked_left :
    (h : Store) (p n m : ℕ)
    → ((relink_left h (some p) n m p).left ≡ some m)
      × ((relink_left h (some p) n m p).right ≡ (h p).right)
unfolding relink_left
relinked_left h p n m = (ground arith, ground arith)

-- Where `n` is the right child of `p` and not its left.
relinked_right :
    (h : Store) (p n m : ℕ)
    → points_to (h p).left n ≡ false
    → ((relink_right h (some p) n m p).left ≡ (h p).left)
      × ((relink_right h (some p) n m p).right ≡ some m)
unfolding relink_right
relinked_right h p n m other = rw other (ground arith, ground arith)

-- Rotating a right child to the left puts the new top in place of the parent's left child, which the
-- parent then has no link to, and leaves the parent's link to the node that went down.
pub rotate_left-right_child :
    (h : Store) (n m p : ℕ)
    → (h n).parent ≡ some p
    → (h p).right ≡ some n
    → (h n).right ≡ some m
    → p ≢ n
    → p ≢ m
    → Ends (λ new. ((new p).left ≡ some m) × ((new p).right ≡ some n)) (rotate_left h n)
unfolding rotate_left
rotate_left-right_child h n m p up at down pn pm =
    let h2 = set_parent (set_left (set_right h n (h m).left) m (some n)) n (some m) in
    let kids = relinked_left (adopt h2 (h2 n).right n) p n m in
    rw (down, rotate_left)
      (rw up (
        unfold turn_left in
        (
          set_parent-left (relink_left (adopt h2 (h2 n).right n) (some p) n m) m (some p) p
              ∙ kids.0,
          set_parent-right (relink_left (adopt h2 (h2 n).right n) (some p) n m) m (some p) p
              ∙ kids.1
              ∙ adopt-right h2 (h2 n).right n p
              ∙ ap (λ (d : Node). d.right) (early_left h n m p pn pm)
              ∙ at,
        )))

-- Rotating a right child to the right puts the new top in its place, and leaves the other child of the
-- parent as it was.
pub rotate_right-right_child :
    (h : Store) (n m p : ℕ)
    → (h n).parent ≡ some p
    → points_to (h p).left n ≡ false
    → (h n).left ≡ some m
    → p ≢ n
    → p ≢ m
    → Ends (λ new. ((new p).left ≡ (h p).left) × ((new p).right ≡ some m)) (rotate_right h n)
unfolding rotate_right
rotate_right-right_child h n m p up other down pn pm =
    let h2 = set_parent (set_right (set_left h n (h m).right) m (some n)) n (some m) in
    let same =
      adopt-left h2 (h2 n).left n p ∙ ap (λ (d : Node). d.left) (early_right h n m p pn pm) in
    let kids =
      relinked_right (adopt h2 (h2 n).left n) p n m
        (subst (λ o. points_to o n ≡ false) (sym same) other) in
    rw (down, rotate_right)
      (rw up (
        unfold turn_right in
        (
          set_parent-left (relink_right (adopt h2 (h2 n).left n) (some p) n m) m (some p) p
              ∙ kids.0
              ∙ same,
          set_parent-right (relink_right (adopt h2 (h2 n).left n) (some p) n m) m (some p) p
              ∙ kids.1,
        )))
