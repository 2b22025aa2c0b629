-- ===== src/Algo/Tree.antt =====
-- The red-black tree of libs/algo.c. A node is its number in a store, NULL is `none`, and an access
-- through NULL is a fault. The walks down, up and through the repairs take fuel.
use mips_os.Common.{ℕ, zero, suc}
use mips_os.Common.{Bool, true, false, ◌&&◌, Option, none, some}
use mips_os.Common.{ltb, ◌==◌, if◌then◌else◌, update, points_to}
use mips_os.Common.{Outcome, ok, fault, hang, ◌>>=◌}

pub record Node : Type 0 where
  pub color : ℕ
  pub key : ℕ
  pub parent : Option ℕ
  pub left : Option ℕ
  pub right : Option ℕ

abbrev pub Store : Type 0
Store = ℕ → Node

abbrev pub red : ℕ
red = 0

abbrev pub black : ℕ
black = 1

abbrev pub set_parent : Store → ℕ → Option ℕ → Store
set_parent h n v = update h n (record (h n) { parent = v })

abbrev pub set_left : Store → ℕ → Option ℕ → Store
set_left h n v = update h n (record (h n) { left = v })

abbrev pub set_right : Store → ℕ → Option ℕ → Store
set_right h n v = update h n (record (h n) { right = v })

abbrev pub set_color : Store → ℕ → ℕ → Store
set_color h n v = update h n (record (h n) { color = v })

unfoldable pub get_parent : Store → Option ℕ → Option ℕ
get_parent h none = none
get_parent h (some n) = (h n).parent

unfoldable pub get_grandparent : Store → Option ℕ → Option ℕ
get_grandparent h n = get_parent h (get_parent h n)

unfoldable pub sibling_under : Store → Option ℕ → ℕ → Option ℕ
sibling_under h none n = none
sibling_under h (some p) n = if points_to (h p).left n then (h p).right else (h p).left

-- The sibling of NULL is NULL: it has no parent.
unfoldable pub get_sibling : Store → Option ℕ → Option ℕ
get_sibling h none = none
get_sibling h (some n) = sibling_under h (get_parent h (some n)) n

unfoldable pub get_uncle : Store → Option ℕ → Option ℕ
get_uncle h n = get_sibling h (get_parent h n)

-- The child that moved over gets its new parent.
unfoldable pub adopt : Store → Option ℕ → ℕ → Store
adopt h none n = h
adopt h (some c) n = set_parent h c (some n)

-- The link of the parent in `rotate_left`: the test assigns, and is true of a pointer to a node.
unfoldable pub relink_left : Store → Option ℕ → (n nnew : ℕ) → Store
relink_left h none n nnew = h
relink_left h (some p) n nnew = set_left (set_left h p (some n)) p (some nnew)

-- The link of the parent in `rotate_right`.
unfoldable pub relink_right : Store → Option ℕ → (n nnew : ℕ) → Store
relink_right h none n nnew = h
relink_right h (some p) n nnew =
    if points_to (h p).left n then set_left h p (some nnew) else set_right h p (some nnew)

-- `rotate_left` with the parent `p` of the node, and the child that becomes the new top.
unfoldable pub turn_left : Store → (p : Option ℕ) → (n nnew : ℕ) → Store
turn_left h p n nnew =
    let h1 = set_right h n (h nnew).left in
    let h2 = set_parent (set_left h1 nnew (some n)) n (some nnew) in
    let h3 = relink_left (adopt h2 (h2 n).right n) p n nnew in set_parent h3 nnew p

unfoldable pub rotate_left : Store → ℕ → Outcome Store
rotate_left h n = elim (h n).right [
  | none ↦ fault
  | some nnew ↦ ok (turn_left h (h n).parent n nnew)
]

-- `rotate_right` with the parent `p` of the node, and the child that becomes the new top.
unfoldable pub turn_right : Store → (p : Option ℕ) → (n nnew : ℕ) → Store
turn_right h p n nnew =
    let h1 = set_left h n (h nnew).right in
    let h2 = set_parent (set_right h1 nnew (some n)) n (some nnew) in
    let h3 = relink_right (adopt h2 (h2 n).left n) p n nnew in set_parent h3 nnew p

unfoldable pub rotate_right : Store → ℕ → Outcome Store
rotate_right h n = elim (h n).left [
  | none ↦ fault
  | some nnew ↦ ok (turn_right h (h n).parent n nnew)
]

-- The new leaf `n` below `root`.
unfoldable pub hang_leaf : Store → Option ℕ → ℕ → Store
hang_leaf h root n =
    update h n (record (h n) { parent = root; left = none; right = none; color = red })

unfoldable pub insert_recurse : ℕ → Store → Option ℕ → ℕ → Outcome Store
insert_recurse zero h root n = hang
insert_recurse (suc fuel) h none n = ok (hang_leaf h none n)
insert_recurse (suc fuel) h (some root) n = elim (ltb (h n).key (h root).key) [
  | true ↦ elim (h root).left [
    | some child ↦ insert_recurse fuel h (some child) n
    | none ↦ ok (hang_leaf (set_left h root (some n)) (some root) n)
  ]
  | false ↦ elim (h root).right [
    | some child ↦ insert_recurse fuel h (some child) n
    | none ↦ ok (hang_leaf (set_right h root (some n)) (some root) n)
  ]
]

abbrev pub follow_node : Option ℕ → Outcome ℕ
follow_node none = fault
follow_node (some n) = ok n

-- A zig-zag of `n`, its parent and its grandparent is made straight; the node to go on with.
unfoldable pub straighten : Store → (n p g : ℕ) → Outcome (ℕ × Store)
straighten h n p g =
    if points_to (h g).left p && points_to (h p).right n
    then (do h ← rotate_left h p; n ← follow_node (h n).left; ok (n, h))
    else if points_to (h g).right p && points_to (h p).left n
    then (do h ← rotate_right h p; n ← follow_node (h n).right; ok (n, h))
    else ok (n, h)

unfoldable pub rotate_top : Store → (n p g : ℕ) → Outcome Store
rotate_top h n p g =
    if points_to (h p).left n
    then rotate_right h g
    else if points_to (h p).right n
    then rotate_left h g
    else ok h

-- The last case of `insert_repair`: the parent `p` is red and the uncle is not.
unfoldable pub repair_rotate : Store → (n p : ℕ) → Outcome Store
repair_rotate h n p = do
  g ← follow_node (h p).parent
  r ← straighten h n p g
  p ← follow_node (r.1 r.0).parent
  g ← follow_node (r.1 p).parent
  h ← rotate_top r.1 r.0 p g
  ok (set_color (set_color h p black) g red)

-- The uncle is there, and red.
unfoldable pub is_red : Store → Option ℕ → Bool
is_red h none = false
is_red h (some n) = (h n).color == red

unfoldable pub recolor : Store → (p : ℕ) → Option ℕ → Store
recolor h p none = set_color h p black
recolor h p (some u) = set_color (set_color h p black) u black

unfoldable pub insert_repair : ℕ → Store → ℕ → Outcome Store
insert_repair zero h n = hang
insert_repair (suc fuel) h n = elim (h n).parent [
  | none ↦ ok (set_color h n black)
  | some p ↦ elim ((h p).color == black) [
    | true ↦ ok h
    | false ↦ elim (is_red h (get_uncle h (some n))) [
      | true ↦ do
        let h' = recolor h p (get_uncle h (some n))
        g ← follow_node (h' p).parent
        insert_repair fuel (set_color h' g red) g
      | false ↦ repair_rotate h n p
    ]
  ]
]

-- The walk up to the root.
unfoldable pub find_root : ℕ → Store → ℕ → Outcome ℕ
find_root zero h n = hang
find_root (suc fuel) h n = elim (h n).parent [ none ↦ ok n | some p ↦ find_root fuel h p ]

unfoldable pub insert : ℕ → Store → Option ℕ → ℕ → Outcome (ℕ × Store)
insert fuel h root n = do
  h ← insert_recurse fuel h root n
  h ← insert_repair fuel h n
  root ← find_root fuel h n
  ok (root, h)
