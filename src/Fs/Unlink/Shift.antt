-- ===== src/Fs/Unlink/Shift.antt =====
-- Taking an entry out of a directory's block, as in `do_rm` of kernel/fs/fs.c: the loop that moves the
-- entries, on the list of entries.
use mips_os.Common.{ℕ, zero, suc, ◌+◌, ◌-◌, ◌*◌, ◌≤◌, ◌<◌, ◌≡◌, refl, sym, ap, ◌∙◌, subst}
use mips_os.Common.{inl, inr, false, ◌&&◌, Option, none, some}
use mips_os.Common.{List, [], ◌∷◌, arith, ltb, leb, if◌then◌else◌}
use mips_os.Common.{lt→ltb, Bool-cases}
use mips_os.Common.{ok, Ends, length}
use mips_os.Common.{Ends, Ends-map}
use mips_os.Text.Walk.{IsString, IsString-frame, same_list}
use mips_os.Fs.Remove.{word_at}
use mips_os.Fs.Path.{name_at, search_entries}
use mips_os.Fs.Path.Names.{same_name-same_list}
use mips_os.Fs.Path.Resolve.{Directory, Lists}
use mips_os.Fs.Unlink.{shift_entries}

-- The index, from `i`, of the first entry of that name.
abbrev pub position : Directory → List ℕ → ℕ → Option ℕ
position [] c i = none
position (e ∷ es) c i = if same_list c e.0 then some i else position es c (i + 1)

-- The directory without the first entry of that name.
abbrev pub delete : List ℕ → Directory → Directory
delete c [] = []
delete c (e ∷ es) = if same_list c e.0 then es else e ∷ delete c es

pub search_entries-position :
    (es : Directory) (name : ℕ → ℕ) (pos : ℕ) (buf : ℕ → ℕ) (i : ℕ) (c : List ℕ)
    → IsString name pos c
    → length c < 4096
    → Lists buf i es
    → i + length es ≤ 128
    → search_entries (length es) name pos buf i ≡ ok (position es c i)
unfolding search_entries
search_entries-position [] name pos buf i c h small l inside = refl
search_entries-position (e ∷ es) name pos buf i c h small (s, short, at, low, l) inside =
    rw
      (
        same_name-same_list 4097 name pos buf (name_at i) c e.0 h s (omega arith) (omega arith),
        search_entries,
      )
      (elim (Bool-cases (same_list c e.0)) [
        | inl same ↦ rw same refl
        | inr other ↦
            rw other (search_entries-position es name pos buf (i + 1) c h small l (omega arith))
      ])

-- `new` is `buf` with the bytes from entry `th` up to entry `last` taken from 32 places further on.
abbrev pub Shifted : (th last : ℕ) → (buf new : ℕ → ℕ) → Type 0
Shifted th last buf new =
    (k : ℕ) → new k ≡ (if leb (32 * th) k && ltb k (32 * last) then buf (k + 32) else buf k)

pub shift_entries-Shifted :
    (left th : ℕ) (buf : ℕ → ℕ)
    → th + 1 + left ≤ 128
    → Ends (Shifted th (th + left) buf) (shift_entries left (th + 1) buf)
unfolding shift_entries
shift_entries-Shifted zero th buf inside = λ k. ground arith
shift_entries-Shifted (suc left) th buf inside =
    let e : th + 1 - 1 ≡ th = omega arith in
    rw (lt→ltb (th + 1) 128 (omega arith), e, shift_entries)
      (Ends-map _ _ (shift_entries left (th + 1 + 1) (moved th))
        (shift_entries-Shifted left (th + 1) (moved th) (omega arith))
        λ new s k. s k ∙ step th left k)
  where
    moved : ℕ → ℕ → ℕ
    moved th k = if leb (32 * th) k && ltb k (32 * (th + 1)) then buf (k + 32) else buf k

    step :
        (th left k : ℕ)
        → (if leb (32 * (th + 1)) k && ltb k (32 * (th + 1 + left))
            then moved th (k + 32)
            else moved th k)
          ≡ (if leb (32 * th) k && ltb k (32 * (th + suc left)) then buf (k + 32) else buf k)
    step th left k = ground arith

IsString-move :
    (mem new : ℕ → ℕ) (s t : ℕ) (xs : List ℕ)
    → IsString mem s xs
    → ((j : ℕ) → j ≤ length xs → new (t + j) ≡ mem (s + j))
    → IsString new t xs
IsString-move mem new s t [] h same =
    let e : s + 0 ≡ s = omega arith in
    let f : t + 0 ≡ t = omega arith in ap new (sym f) ∙ same 0 (omega arith) ∙ ap mem e ∙ h
IsString-move mem new s t (x ∷ xs) (e, low, high, h) same = (
  ap new (omega arith) ∙ same 0 (omega arith) ∙ ap mem (omega arith) ∙ e,
  low,
  high,
  IsString-move mem new (s + 1) (t + 1) xs h
      (λ j le. ap new (omega arith) ∙ same (j + 1) (omega arith) ∙ ap mem (omega arith)),
)

pub word_at-move :
    (buf new : ℕ → ℕ) (s t : ℕ)
    → ((j : ℕ) → j < 4 → new (t + j) ≡ buf (s + j))
    → word_at new t ≡ word_at buf s
word_at-move buf new s t h =
    let e : s + 0 ≡ s = omega arith in
    let f : t + 0 ≡ t = omega arith in
    omega (
      arith,
      ap new f,
      ap buf e,
      h 0 (omega arith),
      h 1 (omega arith),
      h 2 (omega arith),
      h 3 (omega arith),
    )

Lists-down :
    (buf new : ℕ → ℕ) (i : ℕ) (es : Directory)
    → Lists buf (i + 1) es
    → ((k : ℕ) → 32 * i ≤ k → k < 32 * (i + length es) → new k ≡ buf (k + 32))
    → Lists new i es
Lists-down buf new i [] l same = tt
Lists-down buf new i (e ∷ es) (s, short, at, low, l) same = (
  IsString-move buf new (name_at (i + 1)) (name_at i) e.0 s
      (λ j le. same (name_at i + j) (omega arith) (omega arith) ∙ ap buf (omega arith)),
  short,
  word_at-move buf new (32 * (i + 1) + 4) (32 * i + 4)
        (λ j lt. same (32 * i + 4 + j) (omega arith) (omega arith) ∙ ap buf (omega arith))
      ∙ at,
  low,
  Lists-down buf new (i + 1) es l (λ k le lt. same k (omega arith) (omega arith)),
)

pub later :
    (d : List ℕ × ℕ) (ds : Directory) (c : List ℕ) (i th : ℕ)
    → same_list c d.0 ≡ false
    → position (d ∷ ds) c i ≡ some th
    → position ds c (i + 1) ≡ some th
later d ds c i th other e =
    subst (λ b. (if b then some i else position ds c (i + 1)) ≡ some th) other e

pub found_after :
    (es : Directory) (c : List ℕ) (i th : ℕ)
    → position es c i ≡ some th
    → (i ≤ th) × (th < i + length es)
found_after [] c i th e = absurd cc
found_after (d ∷ ds) c i th e = elim (Bool-cases (same_list c d.0)) [
  | inl same ↦ ground (arith, same)
  | inr other ↦
      let r = found_after ds c (i + 1) th (later d ds c i th other e) in (omega arith, omega arith)
]

-- Moving the entries after the first of that name leaves the directory without it.
pub Lists-delete :
    (buf new : ℕ → ℕ) (i th : ℕ) (c : List ℕ) (es : Directory)
    → Lists buf i es
    → position es c i ≡ some th
    → Shifted th (i + length es - 1) buf new
    → Lists new i (delete c es) × (suc (length (delete c es)) ≡ length es)
Lists-delete buf new i th c [] l e sh = absurd cc
Lists-delete buf new i th c (d ∷ ds) (s, short, at, low, l) e sh =
    elim (Bool-cases (same_list c d.0)) [
      | inl same ↦
          let here : i ≡ th = ground (arith, same) in
          rw same (Lists-down buf new i ds l (λ k le lt. sh k ∙ ground (arith, here)), refl)
      | inr other ↦
          let after = later d ds c i th other e in
          let bounds = found_after ds c (i + 1) th after in
          let last : i + suc (length ds) - 1 ≡ i + 1 + length ds - 1 = omega arith in
          let rest =
            Lists-delete buf new (i + 1) th c ds l after
              (subst (λ m. Shifted th m buf new) last sh) in
          let kept : (k : ℕ) → k < 32 * th → new k ≡ buf k = λ k lt. sh k ∙ ground arith in
          rw other (
            (
              IsString-frame buf new (name_at i) d.0 s
                  (λ a le most. kept a (omega (arith, bounds.0))),
              short,
              word_at-move buf new (32 * i + 4) (32 * i + 4)
                    (λ j lt. kept (32 * i + 4 + j) (omega (arith, bounds.0)))
                  ∙ at,
              low,
              rest.0,
            ),
            omega (arith, rest.1),
          )
    ]
