-- ===== src/Fs/Directory/Entry.antt =====
-- What a new entry does to a directory's block: the list of its entries with one more at the end.
use mips_os.Common.{ℕ, ◌+◌, ◌-◌, ◌*◌, ◌^◌, ◌≤◌, ◌<◌, ◌≡◌, ap, ◌∙◌, subst}
use mips_os.Common.{◌⊎◌, inl}
use mips_os.Common.{List, [], ◌∷◌, ◌++◌, arith}
use mips_os.Common.{lt→ltb}
use mips_os.Common.{Ends, length}
use mips_os.Common.{Ends, Ends-map}
use mips_os.Text.Walk.{IsString, IsString-frame}
use mips_os.Fs.Inodes.{word_byte}
use mips_os.Fs.Remove.{word_at, entry_inode}
use mips_os.Fs.Path.{name_at, copy_name}
use mips_os.Fs.Path.Names.{copy_name-IsString}
use mips_os.Fs.Path.Resolve.{Directory, Lists}
use mips_os.Fs.Directory.{put_word, write_entry}

pub word_at-bytes :
    (buf : ℕ → ℕ) (a w : ℕ)
    → w < 2 ^ 32
    → ((j : ℕ) → j < 4 → buf (a + j) ≡ word_byte w j)
    → word_at buf a ≡ w
word_at-bytes buf a w small h =
    let e : a + 0 ≡ a = omega arith in
    omega
      (arith, ap buf e, h 0 (omega arith), h 1 (omega arith), h 2 (omega arith), h 3 (omega arith))

pub put_word-inside : (buf : ℕ → ℕ) (a w j : ℕ) → j < 4 → put_word buf a w (a + j) ≡ word_byte w j
put_word-inside buf a w j h =
    let e : a + j - a ≡ j = omega arith in ground (arith, ap (word_byte w) e)

put_word-outside : (buf : ℕ → ℕ) (a w k : ℕ) → (k < a) ⊎ (a + 4 ≤ k) → put_word buf a w k ≡ buf k
put_word-outside buf a w k h = ground arith

-- Entry `i` of the block `new` has the name, the inode and the type; the rest is as in `buf`.
pub record HasEntry (buf : ℕ → ℕ) (i type n : ℕ) (xs : List ℕ) (new : ℕ → ℕ) : Type 0 where
  pub name_is : IsString new (name_at i) xs
  pub inode_is : entry_inode new i ≡ n
  pub type_is : word_at new (32 * i) ≡ type
  pub rest_same : (a : ℕ) → (a < 32 * i) ⊎ (32 * i + 32 ≤ a) → new a ≡ buf a

pub write_entry-HasEntry :
    (fuel : ℕ) (buf : ℕ → ℕ) (i type n : ℕ) (name : ℕ → ℕ) (xs : List ℕ)
    → i < 128
    → type < 2 ^ 32
    → n < 2 ^ 32
    → IsString name 0 xs
    → length xs < 24
    → length xs < fuel
    → Ends (HasEntry buf i type n xs) (write_entry fuel buf i type n name)
unfolding write_entry
write_entry-HasEntry fuel buf i type n name xs inside t_small n_small h short enough =
    rw (lt→ltb i 128 inside) (
      Ends-map _ _ (copy_name fuel 4096 words (name_at i) name 0)
        (copy_name-IsString fuel 4096 words (name_at i) name 0 xs h (omega arith) enough)
        λ new (copied, same). record {
          name_is = copied;
          inode_is = word_at-bytes new (32 * i + 4) n n_small (λ j lt.
              same (32 * i + 4 + j) (inl (omega arith))
              ∙ put_word-inside (put_word buf (32 * i) type) (32 * i + 4) n j lt);
          type_is = word_at-bytes new (32 * i) type t_small (λ j lt.
              same (32 * i + j) (inl (omega arith))
              ∙ put_word-outside (put_word buf (32 * i) type) (32 * i + 4) n (32 * i + j)
                  (inl (omega arith))
              ∙ put_word-inside buf (32 * i) type j lt);
          rest_same = λ a out.
              same a (ground arith)
              ∙ put_word-outside (put_word buf (32 * i) type) (32 * i + 4) n a (ground arith)
              ∙ put_word-outside buf (32 * i) type a (ground arith);
        })
  where
    words : ℕ → ℕ
    words = put_word (put_word buf (32 * i) type) (32 * i + 4) n

pub Lists-frame :
    (buf new : ℕ → ℕ) (i : ℕ) (es : Directory)
    → Lists buf i es
    → ((a : ℕ) → a < 32 * (i + length es) → new a ≡ buf a)
    → Lists new i es
Lists-frame buf new i [] l same = tt
Lists-frame buf new i (e ∷ es) (s, short, at, low, l) same = (
  IsString-frame buf new (name_at i) e.0 s (λ a le most. same a (omega arith)),
  short,
  omega (
    arith,
    at,
    same (32 * i + 4) (omega arith),
    same (32 * i + 4 + 1) (omega arith),
    same (32 * i + 4 + 2) (omega arith),
    same (32 * i + 4 + 3) (omega arith),
  ),
  low,
  Lists-frame buf new (i + 1) es l (λ a lt. same a (omega arith)),
)

pub Lists-append :
    (buf : ℕ → ℕ) (i : ℕ) (es : Directory) (xs : List ℕ) (n : ℕ)
    → Lists buf i es
    → Lists buf (i + length es) ((xs, n) ∷ [])
    → Lists buf i (es ++ (xs, n) ∷ [])
Lists-append buf i [] xs n l one = subst (λ k. Lists buf k ((xs, n) ∷ [])) (omega arith) one
Lists-append buf i (e ∷ es) xs n (s, short, at, low, l) one = (
  s,
  short,
  at,
  low,
  Lists-append buf (i + 1) es xs n l (subst (λ k. Lists buf k ((xs, n) ∷ [])) (omega arith) one),
)

-- The block with the new entry lists the old entries and the new one.
pub HasEntry-Lists :
    (buf new : ℕ → ℕ) (type n : ℕ) (xs : List ℕ) (es : Directory)
    → HasEntry buf (length es) type n xs new
    → length xs < 24
    → n < 8192
    → Lists buf 0 es
    → Lists new 0 (es ++ (xs, n) ∷ [])
HasEntry-Lists buf new type n xs es h short small l =
    Lists-append new 0 es xs n
      (Lists-frame buf new 0 es l (λ a lt. h.rest_same a (inl (omega arith))))
      (subst (λ k. Lists new k ((xs, n) ∷ [])) (omega arith)
        (h.name_is, short, h.inode_is, small, tt))
