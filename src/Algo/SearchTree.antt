-- ===== src/Algo/SearchTree.antt =====
-- The trees that the linked nodes of libs/algo.c stand for, and what a new leaf does to them.
use mips_os.Common.{ℕ, suc, ◌+◌, ◌≡◌, refl, sym, ap, ◌∙◌, subst}
use mips_os.Common.{◌≢◌, Bool, true, false, ◌||◌, Option, none, some}
use mips_os.Common.{arith, ltb, ◌==◌, if◌then◌else◌}
use mips_os.Algo.Tree.{red, Node, Store, set_left, set_right, hang_leaf}

pub data Tree : Type 0 where
  leaf : Tree
  branch : Tree → ℕ → Tree → Tree

abbrev pub member : ℕ → Tree → Bool
member a leaf = false
member a (branch l m r) = (a == m) || member a l || member a r

-- The node `ptr`, under the parent `up`, stands for the tree.
abbrev pub IsTree : Store → (up ptr : Option ℕ) → Tree → Type 0
IsTree h up ptr leaf = ptr ≡ none
IsTree h up ptr (branch l m r) =
    (ptr ≡ some m)
    × ((h m).parent ≡ up)
    × IsTree h (some m) (h m).left l
    × IsTree h (some m) (h m).right r

-- No node stands at two places.
abbrev pub Separate : Tree → Type 0
Separate leaf = Unit
Separate (branch l m r) =
    (member m l ≡ false)
    × (member m r ≡ false)
    × ((a : ℕ) → member a l ≡ true → member a r ≡ false)
    × Separate l
    × Separate r

-- The tree with the node `n` as a new leaf: to the left of greater keys, to the right of the others.
abbrev pub inserted : (key : ℕ → ℕ) → ℕ → Tree → Tree
inserted key n leaf = branch leaf n leaf
inserted key n (branch l m r) =
    if ltb (key n) (key m) then branch (inserted key n l) m r else branch l m (inserted key n r)

abbrev pub height : Tree → ℕ
height leaf = 0
height (branch l m r) = suc (height l + height r)

IsTree-frame :
    (h new : Store) (up ptr : Option ℕ) (t : Tree)
    → IsTree h up ptr t
    → ((a : ℕ) → member a t ≡ true → new a ≡ h a)
    → IsTree new up ptr t
IsTree-frame h new up ptr leaf i same = i
IsTree-frame h new up ptr (branch l m r) (at, parent, left, right) same =
    let here : new m ≡ h m = same m (ground arith) in
    (
      at,
      ap (λ (d : Node). d.parent) here ∙ parent,
      subst (λ (p : Option ℕ). IsTree new (some m) p l) (sym (ap (λ (d : Node). d.left) here))
          (IsTree-frame h new (some m) (h m).left l left (λ a on. same a (ground arith))),
      subst (λ (p : Option ℕ). IsTree new (some m) p r) (sym (ap (λ (d : Node). d.right) here))
          (IsTree-frame h new (some m) (h m).right r right (λ a on. same a (ground arith))),
    )

-- The new node is red, and all other keys and colours are as they were.
abbrev pub Painted : Store → ℕ → Store → Type 0
Painted h n new =
    ((new n).color ≡ red)
    × ((a : ℕ) → (new a).key ≡ (h a).key)
    × ((a : ℕ) → a ≢ n → (new a).color ≡ (h a).color)

-- What the insertion leaves: the tree with the new leaf, and nothing else changed but the links.
abbrev pub Grown : Store → (up ptr : Option ℕ) → Tree → ℕ → Store → Type 0
Grown h up ptr t n new =
    IsTree new up ptr (inserted (λ a. (h a).key) n t)
    × Painted h n new
    × ((a : ℕ) → member a t ≡ false → a ≢ n → new a ≡ h a)

-- Below the branch `m`, to the left: the subtree grew, and the rest is as it was.
pub Grown-left :
    (h new : Store) (up : Option ℕ) (l r : Tree) (m n : ℕ)
    → Separate (branch l m r)
    → member n (branch l m r) ≡ false
    → ((h m).parent ≡ up) × IsTree h (some m) (h m).right r
    → ltb (h n).key (h m).key ≡ true
    → Grown h (some m) (h m).left l n new
    → Grown h up (some m) (branch l m r) n new
Grown-left h new up l r m n (ml, mr, lr, _, _) out (parent, right) less (tree, painted, same) =
    let here : new m ≡ h m = same m ml (λ e. ground (arith, e)) in
    rw less (
      (
        refl,
        ap (λ (d : Node). d.parent) here ∙ parent,
        subst (λ (p : Option ℕ). IsTree new (some m) p (inserted (λ a. (h a).key) n l))
            (sym (ap (λ (d : Node). d.left) here)) tree,
        subst (λ (p : Option ℕ). IsTree new (some m) p r) (sym (ap (λ (d : Node). d.right) here))
            (IsTree-frame h new (some m) (h m).right r right
              (λ a on. same a (ground (arith, lr a)) (λ e. ground (arith, e)))),
      ),
      painted,
      λ a off ne. same a (ground arith) ne,
    )

-- Below the branch `m`, to the right: the subtree grew, and the rest is as it was.
pub Grown-right :
    (h new : Store) (up : Option ℕ) (l r : Tree) (m n : ℕ)
    → Separate (branch l m r)
    → member n (branch l m r) ≡ false
    → ((h m).parent ≡ up) × IsTree h (some m) (h m).left l
    → ltb (h n).key (h m).key ≡ false
    → Grown h (some m) (h m).right r n new
    → Grown h up (some m) (branch l m r) n new
Grown-right h new up l r m n (ml, mr, lr, _, _) out (parent, left) more (tree, painted, same) =
    let here : new m ≡ h m = same m mr (λ e. ground (arith, e)) in
    rw more (
      (
        refl,
        ap (λ (d : Node). d.parent) here ∙ parent,
        subst (λ (p : Option ℕ). IsTree new (some m) p l) (sym (ap (λ (d : Node). d.left) here))
            (IsTree-frame h new (some m) (h m).left l left
              (λ a on. same a (ground (arith, lr a)) (λ e. ground (arith, e)))),
        subst (λ (p : Option ℕ). IsTree new (some m) p (inserted (λ a. (h a).key) n r))
            (sym (ap (λ (d : Node). d.right) here)) tree,
      ),
      painted,
      λ a off ne. same a (ground arith) ne,
    )

-- Below the branch `m`, where there is no left child.
pub leaf_left :
    (h : Store) (up : Option ℕ) (r : Tree) (m n : ℕ)
    → member m r ≡ false
    → member n (branch leaf m r) ≡ false
    → ((h m).parent ≡ up) × IsTree h (some m) (h m).right r
    → ltb (h n).key (h m).key ≡ true
    → Grown h up (some m) (branch leaf m r) n (hang_leaf (set_left h m (some n)) (some m) n)
unfolding hang_leaf
leaf_left h up r m n apart out (parent, other) test =
    let ne : (m == n) ≡ false = ground arith in
    let new : Store = hang_leaf (set_left h m (some n)) (some m) n in
    let here : hang_leaf (set_left h m (some n)) (some m) n m ≡ record (h m) { left = some n } =
      unfold hang_leaf in ground arith in
    rw test (
      (
        refl,
        ap (λ (d : Node). d.parent) here ∙ parent,
        (ap (λ (d : Node). d.left) here, ground arith, ground arith, ground arith),
        subst (λ (p : Option ℕ). IsTree new (some m) p r) (sym (ap (λ (d : Node). d.right) here))
            (IsTree-frame h new (some m) (h m).right r other
              (λ a on. ground (arith, on, apart, out))),
      ),
      (ground arith, λ a. ground arith, λ a other. ground arith),
      λ a off other. ground arith,
    )

-- Below the branch `m`, where there is no right child.
pub leaf_right :
    (h : Store) (up : Option ℕ) (l : Tree) (m n : ℕ)
    → member m l ≡ false
    → member n (branch l m leaf) ≡ false
    → ((h m).parent ≡ up) × IsTree h (some m) (h m).left l
    → ltb (h n).key (h m).key ≡ false
    → Grown h up (some m) (branch l m leaf) n (hang_leaf (set_right h m (some n)) (some m) n)
unfolding hang_leaf
leaf_right h up l m n apart out (parent, other) test =
    let ne : (m == n) ≡ false = ground arith in
    let new : Store = hang_leaf (set_right h m (some n)) (some m) n in
    let here : hang_leaf (set_right h m (some n)) (some m) n m ≡ record (h m) { right = some n } =
      unfold hang_leaf in ground arith in
    rw test (
      (
        refl,
        ap (λ (d : Node). d.parent) here ∙ parent,
        subst (λ (p : Option ℕ). IsTree new (some m) p l) (sym (ap (λ (d : Node). d.left) here))
            (IsTree-frame h new (some m) (h m).left l other
              (λ a on. ground (arith, on, apart, out))),
        (ap (λ (d : Node). d.right) here, ground arith, ground arith, ground arith),
      ),
      (ground arith, λ a. ground arith, λ a other. ground arith),
      λ a off other. ground arith,
    )
