-- ===== src/Fs/Bitmap.antt =====
-- The bit maps of kernel/fs/fs.c: `find_first_zero_bit`, `clear_bit`, the two allocators' updates,
-- and the numbering of blocks and inodes.
use mips_os.Common.{ℕ, zero, suc, ◌+◌, ◌*◌, ◌/◌, ◌%◌, ◌^◌, ◌≤◌, ◌<◌, ◌≡◌, refl, subst}
use mips_os.Common.{◌≢◌, inl, inr, Bool, true, false}
use mips_os.Common.{arith, ltb, ◌==◌, if◌then◌else◌, update}
use mips_os.Common.{lt→ltb, ==_iff, Bool-cases}
use mips_os.Common.{Outcome, ok, fault, hang, Ends}
use mips_os.Common.Bits.{
  test_bit, raise_bit, drop_bit, test_bit-raise_bit, test_bit-drop_bit, raise_bit-lt, drop_bit-lt,
}
use mips_os.Fs.{
  mkfs_super_block, get_data_block_offset, get_data_block_number, inode_addr, get_inode_number,
}

-- `buf[k >> 3] & (1 << (k & 0b111))`.
unfoldable pub is_set : (ℕ → ℕ) → ℕ → Bool
is_set buf k = test_bit (buf (k / 8)) (k % 8)

-- The loop of `find_first_zero_bit` at index `i`. Past the end the function returns no value.
find_loop : ℕ → (ℕ → ℕ) → ℕ → Outcome ℕ
find_loop zero buf i = fault
find_loop (suc left) buf i = elim (is_set buf i) [
  | true ↦ find_loop left buf (i + 1)
  | false ↦ ok i
]

unfoldable pub find_first_zero_bit : (ℕ → ℕ) → ℕ → Outcome ℕ
unfolding find_loop is_set
find_first_zero_bit buf byte_sz = find_loop (8 * byte_sz) buf 0

-- `buf[k >> 3] |= 1 << (k & 0b111)`.
unfoldable pub mark_bit : (ℕ → ℕ) → ℕ → ℕ → ℕ
mark_bit buf k = update buf (k / 8) (raise_bit (buf (k / 8)) (k % 8))

-- `size` is that of the array, and a write beyond it is a fault.
unfoldable pub clear_bit : ℕ → (ℕ → ℕ) → ℕ → Outcome (ℕ → ℕ)
clear_bit size buf k =
    if ltb (k / 8) size then ok (update buf (k / 8) (drop_bit (buf (k / 8)) (k % 8))) else fault

-- Each element is a byte.
abbrev pub IsBytes : (ℕ → ℕ) → Type 0
IsBytes buf = (i : ℕ) → buf i < 256

-- The least index from `i` below `n` whose bit is clear, or a run off the end that all bits are set.
abbrev pub FirstZero : (ℕ → ℕ) → ℕ → ℕ → Outcome ℕ → Type 0
FirstZero buf i n (ok k) =
    (k < n) × (is_set buf k ≡ false) × ((j : ℕ) → i ≤ j → j < k → is_set buf j ≡ true)
FirstZero buf i n fault = (j : ℕ) → i ≤ j → j < n → is_set buf j ≡ true
FirstZero buf i n hang = ⊥

FirstZero-step :
    (buf : ℕ → ℕ) (i n : ℕ) (r : Outcome ℕ)
    → is_set buf i ≡ true
    → FirstZero buf (i + 1) n r
    → FirstZero buf i n r
FirstZero-step buf i n (ok k) s (a, b, c) = (
  a,
  b,
  λ j le lt. elim (Bool-cases (i == j)) [
    | inl same ↦ subst (λ m. is_set buf m ≡ true) ((==_iff i j).0 same) s
    | inr other ↦ c j (ground arith) lt
  ],
)
FirstZero-step buf i n fault s c = λ j le lt. elim (Bool-cases (i == j)) [
  | inl same ↦ subst (λ m. is_set buf m ≡ true) ((==_iff i j).0 same) s
  | inr other ↦ c j (ground arith) lt
]
FirstZero-step buf i n hang s c = c

find_loop-FirstZero :
    (left : ℕ) (buf : ℕ → ℕ) (i n : ℕ) → i + left ≡ n → FirstZero buf i n (find_loop left buf i)
unfolding find_loop
find_loop-FirstZero zero buf i n e = λ j le lt. absurd (omega arith)
find_loop-FirstZero (suc left) buf i n e = elim (Bool-cases (is_set buf i)) [
  | inl s ↦
      rw (s, find_loop)
        (FirstZero-step buf i n (find_loop left buf (i + 1)) s
          (find_loop-FirstZero left buf (i + 1) n (omega arith)))
  | inr s ↦ rw (s, find_loop) (omega arith, s, λ j le lt. absurd (omega arith))
]

-- The search gives the least clear bit of the map, and runs off its end exactly when every bit is
-- set.
pub find_first_zero_bit-FirstZero :
    (buf : ℕ → ℕ) (byte_sz : ℕ) → FirstZero buf 0 (8 * byte_sz) (find_first_zero_bit buf byte_sz)
unfolding find_first_zero_bit
find_first_zero_bit-FirstZero buf byte_sz =
    find_loop-FirstZero (8 * byte_sz) buf 0 (8 * byte_sz) (omega arith)

same_bit : (j k : ℕ) → j / 8 ≡ k / 8 → (j % 8 == k % 8) ≡ (j == k)
same_bit j k e = ground arith

other_byte : (j k : ℕ) → (j / 8 == k / 8) ≡ false → (j == k) ≡ false
other_byte j k e = ground arith

-- Marking a bit of a byte map sets that bit and no other.
pub is_set-mark_bit :
    (buf : ℕ → ℕ) (k j : ℕ)
    → IsBytes buf
    → is_set (mark_bit buf k) j ≡ (if j == k then true else is_set buf j)
unfolding is_set mark_bit
is_set-mark_bit buf k j b = elim (Bool-cases (j / 8 == k / 8)) [
  | inl same ↦
      let e = (==_iff (j / 8) (k / 8)).0 same in
      rw
        (
          same,
          test_bit-raise_bit (buf (k / 8)) (k % 8) (j % 8) (b (k / 8)) (omega arith) (omega arith),
          same_bit j k e,
          e,
        )
        refl
  | inr other ↦ rw (other, other_byte j k other) refl
]

pub mark_bit-IsBytes : (buf : ℕ → ℕ) (k : ℕ) → IsBytes buf → IsBytes (mark_bit buf k)
unfolding mark_bit
mark_bit-IsBytes buf k b i = elim (Bool-cases (i == k / 8)) [
  | inl same ↦ rw same (raise_bit-lt (buf (k / 8)) (k % 8) (b (k / 8)) (omega arith))
  | inr other ↦ rw other (b i)
]

-- A map of bytes that has the bit of `k` clear and the others as before.
abbrev pub Cleared : (ℕ → ℕ) → ℕ → (ℕ → ℕ) → Type 0
Cleared buf k new =
    IsBytes new × ((j : ℕ) → is_set new j ≡ (if j == k then false else is_set buf j))

pub clear_bit_returns : (size : ℕ) (buf : ℕ → ℕ) (k : ℕ) → clear_bit size buf k ≢ hang
unfolding clear_bit
clear_bit_returns size buf k = elim (Bool-cases (ltb (k / 8) size)) [
  | inl e ↦ rw e (λ e. cc)
  | inr e ↦ rw e (λ e. cc)
]

-- Clearing a bit inside a byte map ends well and clears that bit and no other.
pub clear_bit-Cleared :
    (size : ℕ) (buf : ℕ → ℕ) (k : ℕ)
    → IsBytes buf
    → k < 8 * size
    → Ends (Cleared buf k) (clear_bit size buf k)
unfolding clear_bit is_set
clear_bit-Cleared size buf k b small = rw (lt→ltb (k / 8) size (omega arith)) (bytes, bits)
  where
    new : ℕ → ℕ
    new = update buf (k / 8) (drop_bit (buf (k / 8)) (k % 8))

    bytes : IsBytes new
    bytes i = elim (Bool-cases (i == k / 8)) [
      | inl same ↦ rw same (drop_bit-lt (buf (k / 8)) (k % 8) (b (k / 8)) (omega arith))
      | inr other ↦ rw other (b i)
    ]

    bits : (j : ℕ) → is_set new j ≡ (if j == k then false else is_set buf j)
    bits j = elim (Bool-cases (j / 8 == k / 8)) [
      | inl same ↦
          let e = (==_iff (j / 8) (k / 8)).0 same in
          rw
            (
              same,
              test_bit-drop_bit (buf (k / 8)) (k % 8) (j % 8) (b (k / 8)) (omega arith)
                  (omega arith),
              same_bit j k e,
              e,
            )
            refl
      | inr other ↦ rw (other, other_byte j k other) refl
    ]

-- On a volume that `do_mkfs` made, the offset of a data block lies on the card's data area without
-- wrapping, and the block number is read back from it.
pub get_data_block_number-offset :
    (n : ℕ)
    → n < 262144
    → (get_data_block_offset mkfs_super_block n ≡ mkfs_super_block.data_start + n * 4096)
      × (get_data_block_number mkfs_super_block (get_data_block_offset mkfs_super_block n) ≡ n)
unfolding get_data_block_number get_data_block_offset mkfs_super_block
get_data_block_number-offset n h = (omega arith, omega arith)

-- The number of an inode is read back from its address, wherever the table lies.
pub get_inode_number-inode_addr :
    (nodes_addr n : ℕ)
    → nodes_addr < 2 ^ 32
    → n < 8192
    → get_inode_number nodes_addr (inode_addr nodes_addr n) ≡ n
unfolding get_inode_number
get_inode_number-inode_addr nodes_addr n a h = omega arith
