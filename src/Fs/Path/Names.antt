-- ===== src/Fs/Path/Names.antt =====
-- Names and paths in arrays as strings: what the loops of `name_parse` in kernel/fs/fs.c and the
-- string routines it calls find in them.
use mips_os.Common.{ℕ, zero, suc, ◌+◌, ◌<◌, ◌≡◌, refl, sym, ap, ◌∙◌, subst}
use mips_os.Common.{◌⊎◌, inl, inr, true, false}
use mips_os.Common.{List, [], ◌∷◌, ◌++◌, arith, ◌==◌, update}
use mips_os.Common.{lt→ltb, update_self, update_other, Bool-cases}
use mips_os.Common.{ok, Ends, length, has}
use mips_os.Common.{Ends, Ends-map, update_self, update_other}
use mips_os.Text.Walk.{IsString, IsString-frame, same_list}
use mips_os.Fs.Path.{same_name, copy_name, component_end}

pub same_name-same_list :
    (fuel : ℕ) (a : ℕ → ℕ) (i : ℕ) (b : ℕ → ℕ) (j : ℕ) (xs ys : List ℕ)
    → IsString a i xs
    → IsString b j ys
    → j + length ys < 4096
    → length xs < fuel
    → same_name fuel a i b j ≡ ok (same_list xs ys)
unfolding same_name
same_name-same_list zero a i b j xs ys h k inside small = absurd (omega arith)
same_name-same_list (suc fuel) a i b j [] [] h k inside small =
    rw (lt→ltb j 4096 (omega arith), h, k, same_name) (ap ok (ground (arith, h)))
same_name-same_list (suc fuel) a i b j [] (y ∷ ys) h (e, low, high, _) inside small =
    rw (lt→ltb j 4096 (omega arith), h, e, same_name) (ap ok (ground (arith, h)))
same_name-same_list (suc fuel) a i b j (x ∷ xs) [] (e, low, high, _) k inside small =
    let ne : (x == 0) ≡ false = ground arith in
    rw (lt→ltb j 4096 (omega arith), k, e, ne, same_name) (ap ok (ground (arith, e, k)))
same_name-same_list (suc fuel) a i b j (x ∷ xs) (y ∷ ys) (e, low, high, h) (f, low', high', k)
      inside small =
    let ne : (x == 0) ≡ false = ground arith in
    let ne' : (y == 0) ≡ false = ground arith in
    elim (Bool-cases (x == y)) [
      | inl same ↦
          rw (lt→ltb j 4096 (omega arith), e, f, ne, ne', same, same_name)
            (same_name-same_list fuel a (i + 1) b (j + 1) xs ys h k (omega arith) (omega arith))
      | inr other ↦
          rw (lt→ltb j 4096 (omega arith), e, f, ne, ne', other, same_name)
            (ap ok (ground (arith, e, f)))
    ]

pub component_end-last :
    (fuel : ℕ) (name : ℕ → ℕ) (pos : ℕ) (c : List ℕ)
    → IsString name pos c
    → has 47 c ≡ false
    → pos + length c < 240
    → length c < fuel
    → component_end fuel name pos ≡ ok (pos + length c, true)
unfolding component_end
component_end-last zero name pos c h plain inside small = absurd (omega arith)
component_end-last (suc fuel) name pos [] h plain inside small =
    let e : pos + 0 ≡ pos = omega arith in
    rw (lt→ltb pos 240 (omega arith), h, e, component_end) refl
component_end-last (suc fuel) name pos (x ∷ xs) (e, low, high, h) plain inside small =
    let ne : (name pos == 0) ≡ false = ground arith in
    let ne' : (name pos == 47) ≡ false = ground arith in
    let at : pos + suc (length xs) ≡ pos + 1 + length xs = omega arith in
    rw (lt→ltb pos 240 (omega arith), ne, ne', at, component_end)
      (component_end-last fuel name (pos + 1) xs h (ground arith) (omega arith) (omega arith))

pub component_end-slash :
    (fuel : ℕ) (name : ℕ → ℕ) (pos : ℕ) (c rest : List ℕ)
    → IsString name pos (c ++ 47 ∷ rest)
    → has 47 c ≡ false
    → pos + length c < 240
    → length c < fuel
    → component_end fuel name pos ≡ ok (pos + length c, false)
unfolding component_end
component_end-slash zero name pos c rest h plain inside small = absurd (omega arith)
component_end-slash (suc fuel) name pos [] rest (e, _, _, _) plain inside small =
    let at : pos + 0 ≡ pos = omega arith in
    let nz : (name pos == 0) ≡ false = ground arith in
    let is : (name pos == 47) ≡ true = ground arith in
    rw (lt→ltb pos 240 (omega arith), nz, is, at, component_end) refl
component_end-slash (suc fuel) name pos (x ∷ xs) rest (e, low, high, h) plain inside small =
    let ne : (name pos == 0) ≡ false = ground arith in
    let ne' : (name pos == 47) ≡ false = ground arith in
    let at : pos + suc (length xs) ≡ pos + 1 + length xs = omega arith in
    rw (lt→ltb pos 240 (omega arith), ne, ne', at, component_end)
      (component_end-slash fuel name (pos + 1) xs rest h (ground arith) (omega arith) (omega arith))

-- Cutting the string at the slash leaves the component before it and the rest after it.
pub IsString-cut :
    (name : ℕ → ℕ) (pos k : ℕ) (c rest : List ℕ)
    → k ≡ pos + length c
    → IsString name pos (c ++ 47 ∷ rest)
    → IsString (update name k 0) pos c × IsString (update name k 0) (k + 1) rest
IsString-cut name pos k [] rest at (e, low, high, h) =
    let here : k ≡ pos = omega arith in
    (
      ground arith,
      IsString-frame name _ (k + 1) rest (subst (λ a. IsString name (a + 1) rest) (sym here) h)
          (λ a le most. update_other name k 0 a (ground arith)),
    )
IsString-cut name pos k (x ∷ xs) rest at (e, low, high, h) =
    let tail = IsString-cut name (pos + 1) k xs rest (omega arith) h in
    ((update_other name k 0 pos (ground arith) ∙ e, low, high, tail.0), tail.1)

-- Copying a string that fits puts it there and changes nothing else.
pub copy_name-IsString :
    (fuel size : ℕ) (dest : ℕ → ℕ) (d : ℕ) (src : ℕ → ℕ) (s : ℕ) (xs : List ℕ)
    → IsString src s xs
    → d + length xs < size
    → length xs < fuel
    → Ends
        (λ new. IsString new d xs × ((a : ℕ) → (a < d) ⊎ (d + length xs < a) → new a ≡ dest a))
        (copy_name fuel size dest d src s)
unfolding copy_name
copy_name-IsString zero size dest d src s xs h fits small = absurd (omega arith)
copy_name-IsString (suc fuel) size dest d src s [] h fits small =
    rw (lt→ltb d size (omega arith), h, copy_name)
      (update_self dest d 0, λ a out. update_other dest d 0 a (ground arith))
copy_name-IsString (suc fuel) size dest d src s (x ∷ xs) (e, low, high, h) fits small =
    let ne : (src s == 0) ≡ false = ground arith in
    rw (lt→ltb d size (omega arith), ne, copy_name)
      (Ends-map _ _ (copy_name fuel size (update dest d (src s)) (d + 1) src (s + 1))
        (copy_name-IsString fuel size (update dest d (src s)) (d + 1) src (s + 1) xs h (omega arith)
          (omega arith))
        (λ new (copied, same). (
          (same d (inl (omega arith)) ∙ update_self dest d (src s) ∙ e, low, high, copied),
          λ a out. same a (ground arith) ∙ update_other dest d (src s) a (ground arith),
        )))
