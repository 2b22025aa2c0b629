-- ===== src/Text.antt =====
-- libs/string.c. A `char *` is an index into a memory of bytes, and a `char` is its byte, read as a
-- signed number where the source computes with it. A walk to the end of a string takes fuel: a string
-- without an end is walked for ever.
pub mod Walk
pub mod Examples
use mips_os.Common.{
  ℕ, zero, suc, ◌+◌, ◌-◌, ◌*◌, ◌/◌, ◌%◌, ◌^◌, ◌≤◌, ◌<◌, ◌≡◌, refl, sym, ap, ◌∙◌, subst, fun_ext,
}
use mips_os.Common.{◌≢◌, ◌↔◌, ◌⊎◌, inl, inr, Bool, true, false, not, ◌&&◌, ◌||◌, Option, none, some}
use mips_os.Common.{
  List, [], ◌∷◌, ◌++◌, map, arith, ltb, leb, ◌==◌, if◌then◌else◌, update, points_to,
}
use mips_os.Common.{
  ltb→lt, ltb→le, lt→ltb, le→ltb, ==_iff, ==_self, update_self, update_other, Bool-cases,
  Option-cases,
}
use mips_os.Common.{
  Outcome, ok, fault, hang, ◌>>=◌, >>=-fault, >>=-returns, Ends, Ends-bind, length, get_elem?, set,
  first, last_from, length-append, has, Distinct, has-append,
}

unfoldable pub strlen_from : ℕ → (ℕ → ℕ) → (src i : ℕ) → Outcome ℕ
strlen_from zero mem src i = hang
strlen_from (suc fuel) mem src i =
    let rest = strlen_from fuel mem src (i + 1) in if mem (src + i) == 0 then ok i else rest

unfoldable pub strlen : ℕ → (ℕ → ℕ) → ℕ → Outcome ℕ
strlen fuel mem src = strlen_from fuel mem src 0

-- The loop of `memcpy` at index `i`, with `left` bytes to go: what is written is read later on where
-- the ranges overlap.
unfoldable pub memcpy_from : ℕ → (dest src i : ℕ) → (ℕ → ℕ) → ℕ → ℕ
memcpy_from zero dest src i mem = mem
memcpy_from (suc left) dest src i mem =
    memcpy_from left dest src (i + 1) (update mem (dest + i) (mem (src + i)))

unfoldable pub memcpy : (dest src len : ℕ) → (ℕ → ℕ) → ℕ → ℕ
memcpy dest src len mem = memcpy_from len dest src 0 mem

unfoldable pub memset_from : ℕ → (dest val i : ℕ) → (ℕ → ℕ) → ℕ → ℕ
memset_from zero dest val i mem = mem
memset_from (suc left) dest val i mem =
    memset_from left dest val (i + 1) (update mem (dest + i) val)

unfoldable pub memset : (dest val len : ℕ) → (ℕ → ℕ) → ℕ → ℕ
memset dest val len mem = memset_from len dest (val % 256) 0 mem

unfoldable pub bzero : (dest len : ℕ) → (ℕ → ℕ) → ℕ → ℕ
bzero dest len mem = memset dest 0 len mem

-- The 32-bit word of a `char`.
abbrev pub extend : ℕ → ℕ
extend c = if ltb c 128 then c else c + 4294967040

-- The result is a 32-bit word.
unfoldable pub strcmp : ℕ → (ℕ → ℕ) → (str1 str2 : ℕ) → Outcome ℕ
strcmp zero mem str1 str2 = hang
strcmp (suc fuel) mem str1 str2 =
    let rest = strcmp fuel mem (str1 + 1) (str2 + 1) in
    let go_on = not (mem str1 == 0) && not (mem str2 == 0) && (mem str1 == mem str2) in
    if go_on then rest else ok ((extend (mem str1) + 2 ^ 32 - extend (mem str2)) % 2 ^ 32)

unfoldable pub strcpy : ℕ → (dest src : ℕ) → (ℕ → ℕ) → Outcome (ℕ → ℕ)
strcpy zero dest src mem = hang
strcpy (suc fuel) dest src mem =
    let rest = strcpy fuel (dest + 1) (src + 1) (update mem dest (mem src)) in
    if mem src == 0 then ok (update mem dest 0) else rest

unfoldable pub skip_spaces : ℕ → (ℕ → ℕ) → ℕ → Outcome ℕ
skip_spaces zero mem s = hang
skip_spaces (suc fuel) mem s =
    let rest = skip_spaces fuel mem (s + 1) in if mem s == 32 then rest else ok s

-- The digits from `s`, in 32-bit words.
unfoldable pub digits_from : ℕ → (ℕ → ℕ) → (base s abs : ℕ) → Outcome ℕ
digits_from zero mem base s abs = hang
digits_from (suc fuel) mem base s abs =
    let skip = digits_from fuel mem base (s + 1) abs in
    let next =
      digits_from fuel mem base (s + 1) ((abs * base + extend (mem s) + 2 ^ 32 - 48) % 2 ^ 32) in
    if mem s == 0 then ok abs else if mem s == 32 then skip else next

-- The base of the number at `s` and how far its prefix reaches.
unfoldable pub prefix_of : (ℕ → ℕ) → ℕ → ℕ × ℕ
prefix_of mem s =
    if (mem s == 48) && (mem (s + 1) == 120)
    then (16, s + 2)
    else if (mem s == 48) && (mem (s + 1) == 98)
    then (2, s + 2)
    else (10, s)

unfoldable pub atoi : ℕ → (ℕ → ℕ) → ℕ → Outcome ℕ
atoi fuel mem s = do
  s ← skip_spaces fuel mem s
  let minus = mem s == 45
  let p = prefix_of mem (if minus then s + 1 else s)
  abs ← digits_from fuel mem p.0 p.1 0
  ok (if minus then (2 ^ 32 - abs) % 2 ^ 32 else abs)
