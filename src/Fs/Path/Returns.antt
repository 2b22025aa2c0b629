-- ===== src/Fs/Path/Returns.antt =====
-- That `name_parse` of kernel/fs/fs.c returns, whatever the path and whatever the card holds.
use mips_os.Common.{ℕ, zero, suc, ◌+◌, ◌≤◌, ◌<◌, ◌≡◌, refl, ap, ◌∙◌}
use mips_os.Common.{◌≢◌, inl, inr, Bool, true, false, not, ◌&&◌, Option, none, some}
use mips_os.Common.{arith, ltb, ◌==◌, if◌then◌else◌, update}
use mips_os.Common.{ltb→lt, lt→ltb, le→ltb, update_self, update_other, Bool-cases}
use mips_os.Common.{Outcome, ok, fault, hang, ◌>>=◌}
use mips_os.Fs.{Inode, Fs}
use mips_os.Fs.Card.{Card}
use mips_os.Fs.Remove.{entry_inode}
use mips_os.Fs.Path.{
  name_at, same_name, copy_name, component_end, search_entries, check_inode, step_into, enter_found,
  follow_link, read_block, parse_components, parse_path, name_parse,
}

-- What holds of the result of a run, when there is one; the run does not go on for ever.
abbrev pub Stops {ℓ} : {A : Type ℓ} → (A → Type 0) → Outcome A → Type 0
Stops P (ok a) = P a
Stops P fault = Unit
Stops P hang = ⊥

pub Stops-bind {ℓ κ} :
    {A : Type ℓ} {B : Type κ} (P : A → Type 0) (Q : B → Type 0) (r : Outcome A) (f : A → Outcome B)
    → Stops P r
    → ((a : A) → P a → Stops Q (f a))
    → Stops Q (r >>= f)
Stops-bind P Q (ok a) f p h = h a p
Stops-bind P Q fault f p h = tt
Stops-bind P Q hang f p h = absurd p

pub Stops-returns {ℓ} : {A : Type ℓ} (P : A → Type 0) (r : Outcome A) → Stops P r → r ≢ hang
Stops-returns P (ok a) p = λ e. cc
Stops-returns P fault p = λ e. cc
Stops-returns P hang p = absurd p

pub Stops-map {ℓ} :
    {A : Type ℓ} (P Q : A → Type 0) (r : Outcome A) → Stops P r → ((a : A) → P a → Q a) → Stops Q r
Stops-map P Q (ok a) p h = h a p
Stops-map P Q fault p h = tt
Stops-map P Q hang p h = absurd p

abbrev Any {ℓ} : {A : Type ℓ} → A → Type 0
Any a = Unit

same_name-Stops :
    (fuel : ℕ) (a : ℕ → ℕ) (i : ℕ) (b : ℕ → ℕ) (j : ℕ)
    → 4096 < j + suc fuel
    → Stops Any (same_name (suc fuel) a i b j)
unfolding same_name
same_name-Stops zero a i b j h = rw (le→ltb j 4096 (omega arith), same_name) tt
same_name-Stops (suc fuel) a i b j h = elim (Bool-cases (ltb j 4096)) [
  | inr far ↦ rw (far, same_name) tt
  | inl near ↦ elim (Bool-cases (not (a i == 0) && not (b j == 0) && (a i == b j))) [
    | inl on ↦ rw (near, on, same_name) (same_name-Stops fuel a (i + 1) b (j + 1) (omega arith))
    | inr off ↦ rw (near, off, same_name) tt
  ]
]

search_entries-Stops :
    (left : ℕ) (name : ℕ → ℕ) (pos : ℕ) (buf : ℕ → ℕ) (i : ℕ)
    → Stops Any (search_entries left name pos buf i)
unfolding search_entries
search_entries-Stops zero name pos buf i = tt
search_entries-Stops (suc left) name pos buf i =
    Stops-bind Any Any (same_name 4097 name pos buf (name_at i)) _
      (same_name-Stops 4096 name pos buf (name_at i) (omega arith))
      λ same _. elim (Bool-cases same) [
        | inl e ↦ rw e tt
        | inr e ↦ rw e (search_entries-Stops left name pos buf (i + 1))
      ]

-- The array has a NUL at `stop`, and its size is 240.
abbrev IsEnded : (ℕ → ℕ) → ℕ → Type 0
IsEnded name stop = (stop < 240) × (name stop ≡ 0)

copy_name-Stops :
    (fuel : ℕ) (dest : ℕ → ℕ) (d : ℕ) (src : ℕ → ℕ) (s : ℕ)
    → 240 < d + suc fuel
    → Stops (λ new. (stop : ℕ) × IsEnded new stop) (copy_name (suc fuel) 240 dest d src s)
unfolding copy_name
copy_name-Stops zero dest d src s h = rw (le→ltb d 240 (omega arith), copy_name) tt
copy_name-Stops (suc fuel) dest d src s h = elim (Bool-cases (ltb d 240)) [
  | inr far ↦ rw (far, copy_name) tt
  | inl near ↦ elim (Bool-cases (src s == 0)) [
    | inl e ↦ rw (near, e, copy_name) (d, (ltb→lt d 240 near, update_self dest d 0))
    | inr e ↦
        rw (near, e, copy_name)
          (copy_name-Stops fuel (update dest d (src s)) (d + 1) src (s + 1) (omega arith))
  ]
]

-- A component that ends before the end of the string, by a slash, or at it.
abbrev IsWithin : ℕ → ℕ → ℕ × Bool → Type 0
IsWithin pos stop (k, last) = (pos ≤ k) × (k ≤ stop) × (last ≡ false → k < stop)

component_end-IsWithin :
    (fuel : ℕ) (name : ℕ → ℕ) (pos stop : ℕ)
    → IsEnded name stop
    → pos ≤ stop
    → stop < pos + fuel
    → Stops (IsWithin pos stop) (component_end fuel name pos)
unfolding component_end
component_end-IsWithin zero name pos stop (small, z) le h = absurd (omega arith)
component_end-IsWithin (suc fuel) name pos stop (small, z) le h =
    elim (Bool-cases (name pos == 0)) [
      | inl e ↦ rw (lt→ltb pos 240 (omega arith), e, component_end) (omega arith, le, λ c. cc)
      | inr e ↦
          let ne : pos ≢ stop = λ same. absurd (ground (arith, ap name same)) in
          elim (Bool-cases (name pos == 47)) [
            | inl f ↦
                rw (lt→ltb pos 240 (omega arith), e, f, component_end)
                  (omega arith, le, λ _. ground arith)
            | inr f ↦
                rw (lt→ltb pos 240 (omega arith), e, f, component_end)
                  (Stops-map (IsWithin (pos + 1) stop) (IsWithin pos stop)
                    (component_end fuel name (pos + 1))
                    (component_end-IsWithin fuel name (pos + 1) stop (small, z) (ground arith)
                      (omega arith))
                    λ (k, last) (a, b, c). (omega arith, b, c))
          ]
    ]

enter_found-Stops :
    (rec : ℕ → Outcome (Option ℕ)) (last : Bool) (buf : ℕ → ℕ) (found : Option ℕ)
    → (last ≡ false → (n : ℕ) → Stops Any (rec n))
    → Stops Any (enter_found rec last buf found)
unfolding enter_found check_inode step_into
enter_found-Stops rec last buf none h = tt
enter_found-Stops rec last buf (some i) h = elim (Bool-cases (ltb (entry_inode buf i) 8192)) [
  | inr far ↦ rw far tt
  | inl near ↦ rw near (go last h)
]
  where
    go :
        (last : Bool)
        → (last ≡ false → (n : ℕ) → Stops Any (rec n))
        → Stops Any (step_into rec last (entry_inode buf i))
    go true h = tt
    go false h = h refl (entry_inode buf i)

follow_link-Stops : (nodes : ℕ → Inode) (o : Option ℕ) → Stops Any (follow_link nodes o)
unfolding follow_link
follow_link-Stops nodes none = tt
follow_link-Stops nodes (some n) = ground arith

module _ (card : Card) (stack : ℕ → ℕ) where
  parse_components-Stops :
      (fuel : ℕ) (fs : Fs card.Disk) (name : ℕ → ℕ) (pos target stop : ℕ)
      → IsEnded name stop
      → pos ≤ stop
      → stop < pos + fuel
      → Stops Any (parse_components card stack fuel fs name pos target)
  unfolding parse_components
  parse_components-Stops zero fs name pos target stop ended le h = absurd (omega arith)
  parse_components-Stops (suc fuel) fs name pos target stop ended le h =
      Stops-bind (IsWithin pos stop) Any (component_end 241 name pos) _
        (component_end-IsWithin 241 name pos stop ended le (omega (arith, ended.0)))
        λ (k, last) w.
          Stops-bind Any Any
            (search_entries (fs.nodes target).entry_num (if last then name else update name k 0) pos
              (read_block card stack fs target) 0)
            _ (search_entries-Stops (fs.nodes target).entry_num _ pos _ 0)
            λ found _. enter_found-Stops _ last (read_block card stack fs target) found λ more n.
              rw more (
                parse_components-Stops fuel fs (update name k 0) (k + 1) n stop
                  (ended.0, update_other name k 0 stop (ground (arith, w.2 more)) ∙ ended.1)
                  (omega (arith, w.2 more)) (omega arith))

  parse_path-Stops :
      (fs : Fs card.Disk) (cwd : ℕ) (name : ℕ → ℕ) (stop : ℕ)
      → IsEnded name stop
      → Stops Any (parse_path card stack fs cwd name)
  unfolding parse_path
  parse_path-Stops fs cwd name stop (small, z) = elim (Bool-cases (name 0 == 47)) [
    | inl e ↦
        let ne : 0 ≢ stop = λ same. absurd (ground (arith, ap name same)) in
        rw e (parse_components-Stops 241 fs name 1 0 stop (small, z) (ground arith) (omega arith))
    | inr e ↦
        rw e (parse_components-Stops 241 fs name 0 cwd stop (small, z) (omega arith) (omega arith))
  ]

  -- Reading a path always comes to an end: it gives an inode, or NULL, or makes an access beyond an
  -- array, whatever the path, the directories on the card and the inode table.
  pub name_parse_returns :
      (fs : Fs card.Disk) (cwd : ℕ) (name : Option (ℕ → ℕ))
      → name_parse card stack fs cwd name ≢ hang
  unfolding name_parse
  name_parse_returns fs cwd none =
      Stops-returns Any (follow_link fs.nodes (some cwd)) (follow_link-Stops fs.nodes (some cwd))
  name_parse_returns fs cwd (some path) = Stops-returns Any _ (
      Stops-bind (λ new. (stop : ℕ) × IsEnded new stop) Any (copy_name 241 240 stack 0 path 0) _
        (copy_name-Stops 240 stack 0 path 0 (omega arith))
        λ name (stop, ended).
          Stops-bind Any Any (parse_path card stack fs cwd name) _
            (parse_path-Stops fs cwd name stop ended) λ o _. follow_link-Stops fs.nodes o)
