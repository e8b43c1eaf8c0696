-- ===== src/Bitmap.antt =====
-- lib/kernel/bitmap.c: arrays of bits in words of 32 (`unsigned long` of the i386 target). A `none`
-- is a failed ASSERT. A `size_t` sum wraps at 2 ^ 32. The reads and
-- writes of a bitmap file are in BitmapFile.
pub mod Bits
pub mod Ranges
pub mod Scan
pub mod Create
mod Tests
use Prim.Native.Nat.{bit_and, bit_or, bit_xor}
use cs162proj.Prelude.{
  ℕ, zero, suc, ◌+◌, ◌-◌, ◌*◌, ◌/◌, ◌%◌, ◌^◌, List, [], Option, none, some, Bool, true, false, not,
  ◌==◌, leb, ltb, if◌then◌else◌, ◌>>=◌, ◌>>◌, assert, get_or, set, length,
}

abbrev pub elem_bits : ℕ
elem_bits = 32

-- SIZE_MAX
abbrev pub bitmap_error : ℕ
bitmap_error = 2 ^ 32 - 1

-- `size_t` addition
abbrev pub add_size : ℕ → ℕ → ℕ
add_size a b = (a + b) % 2 ^ 32

pub record Bitmap : Type 0 where
  pub bit_cnt : ℕ
  pub bits : List ℕ

abbrev pub elem_idx : ℕ → ℕ
elem_idx i = i / elem_bits

abbrev pub bit_mask : ℕ → ℕ
bit_mask i = 2 ^ (i % elem_bits)

-- `~mask`
abbrev pub complement : ℕ → ℕ
complement mask = 2 ^ elem_bits - 1 - mask

-- `DIV_ROUND_UP (bit_cnt, ELEM_BITS)`
abbrev pub elem_cnt : ℕ → ℕ
elem_cnt bit_cnt = add_size bit_cnt (elem_bits - 1) / elem_bits

abbrev pub byte_cnt : ℕ → ℕ
byte_cnt bit_cnt = 4 * elem_cnt bit_cnt

-- `sizeof (struct bitmap)` is 8.
abbrev pub bitmap_buf_size : ℕ → ℕ
bitmap_buf_size bit_cnt = add_size 8 (byte_cnt bit_cnt)

abbrev pub last_mask : Bitmap → ℕ
last_mask b =
    let last_bits = b.bit_cnt % elem_bits in
    if last_bits == 0 then 2 ^ elem_bits - 1 else 2 ^ last_bits - 1

abbrev pub bitmap_size : Bitmap → ℕ
bitmap_size b = b.bit_cnt

-- An instruction on the word that holds the bit.
abbrev pub update_word : (ℕ → ℕ) → Bitmap → ℕ → Bitmap
update_word f b i = record b { bits = set b.bits (elem_idx i) (f (get_or b.bits (elem_idx i) 0)) }

-- `orl`
unfoldable pub bitmap_mark : Bitmap → ℕ → Bitmap
bitmap_mark b i = update_word (λ w. bit_or w (bit_mask i)) b i

-- `andl`
unfoldable pub bitmap_reset : Bitmap → ℕ → Bitmap
bitmap_reset b i = update_word (λ w. bit_and w (complement (bit_mask i))) b i

-- `xorl`
unfoldable pub bitmap_flip : Bitmap → ℕ → Bitmap
bitmap_flip b i = update_word (λ w. bit_xor w (bit_mask i)) b i

unfoldable pub bitmap_set : Bitmap → ℕ → Bool → Option Bitmap
bitmap_set b i value = do
  assert (ltb i b.bit_cnt)
  some (if value then bitmap_mark b i else bitmap_reset b i)

-- The expression that `bitmap_test` returns.
unfoldable pub test_bit : Bitmap → ℕ → Bool
test_bit b i = not (bit_and (get_or b.bits (elem_idx i) 0) (bit_mask i) == 0)

unfoldable pub bitmap_test : Bitmap → ℕ → Option Bool
bitmap_test b i = do assert (ltb i b.bit_cnt); some (test_bit b i)

-- The two assertions on a range.
abbrev pub check_range : Bitmap → ℕ → ℕ → Option (Unit {0})
check_range b start cnt = do
  assert (leb start b.bit_cnt)
  assert (leb (add_size start cnt) b.bit_cnt)

-- The loops run over `i` from `cnt - n` on, for `n` more rounds; `at` is `start + i`.
unfoldable pub set_loop : Bitmap → ℕ → ℕ → Bool → Option Bitmap
set_loop b at zero value = some b
set_loop b at (suc n) value = do b' ← bitmap_set b at value; set_loop b' (add_size at 1) n value

unfoldable pub bitmap_set_multiple : Bitmap → ℕ → ℕ → Bool → Option Bitmap
unfolding set_loop
bitmap_set_multiple b start cnt value = do check_range b start cnt; set_loop b start cnt value

unfoldable pub bitmap_set_all : Bitmap → Bool → Option Bitmap
bitmap_set_all b value = bitmap_set_multiple b 0 (bitmap_size b) value

abbrev pub bool_eq : Bool → Bool → Bool
bool_eq true b = b
bool_eq false b = not b

unfoldable pub count_loop : Bitmap → ℕ → ℕ → Bool → ℕ → Option ℕ
count_loop b at zero value value_cnt = some value_cnt
count_loop b at (suc n) value value_cnt = do
  t ← bitmap_test b at
  count_loop b (add_size at 1) n value (if bool_eq t value then value_cnt + 1 else value_cnt)

unfoldable pub bitmap_count : Bitmap → ℕ → ℕ → Bool → Option ℕ
unfolding count_loop
bitmap_count b start cnt value = do check_range b start cnt; count_loop b start cnt value 0

unfoldable pub contains_loop : Bitmap → ℕ → ℕ → Bool → Option Bool
contains_loop b at zero value = some false
contains_loop b at (suc n) value = do
  t ← bitmap_test b at
  let rest = contains_loop b (add_size at 1) n value
  if bool_eq t value then some true else rest

unfoldable pub bitmap_contains : Bitmap → ℕ → ℕ → Bool → Option Bool
unfolding contains_loop
bitmap_contains b start cnt value = do check_range b start cnt; contains_loop b start cnt value

unfoldable pub bitmap_any : Bitmap → ℕ → ℕ → Option Bool
bitmap_any b start cnt = bitmap_contains b start cnt true

unfoldable pub bitmap_none : Bitmap → ℕ → ℕ → Option Bool
bitmap_none b start cnt = do c ← bitmap_contains b start cnt true; some (not c)

unfoldable pub bitmap_all : Bitmap → ℕ → ℕ → Option Bool
bitmap_all b start cnt = do c ← bitmap_contains b start cnt false; some (not c)

-- `for (i = start; i <= last; i++)` has `last + 1 - start` rounds, if `start <= last`.
unfoldable pub scan_loop : Bitmap → ℕ → ℕ → ℕ → Bool → Option ℕ
scan_loop b i zero cnt value = some bitmap_error
scan_loop b i (suc n) cnt value = do
  c ← bitmap_contains b i cnt (not value)
  let rest = scan_loop b (i + 1) n cnt value
  if c then rest else some i

unfoldable pub bitmap_scan : Bitmap → ℕ → ℕ → Bool → Option ℕ
unfolding scan_loop
bitmap_scan b start cnt value = do
  assert (leb start b.bit_cnt)
  let found = scan_loop b start (b.bit_cnt - cnt + 1 - start) cnt value
  if leb cnt b.bit_cnt then found else some bitmap_error

unfoldable pub bitmap_scan_and_flip : Bitmap → ℕ → ℕ → Bool → Option (Bitmap × ℕ)
bitmap_scan_and_flip b start cnt value = do
  idx ← bitmap_scan b start cnt value
  if idx == bitmap_error
      then some (b, idx)
      else do b' ← bitmap_set_multiple b idx cnt (not value); some (b', idx)

-- The `if` of `bitmap_create`. The words of a fresh block hold anything; `none` is a null pointer.
unfoldable pub create_bits : ℕ → Option (List ℕ) → Option (Option Bitmap)
create_bits bit_cnt (some words) = do
  b ← bitmap_set_all (record { bit_cnt = bit_cnt; bits = words }) false
  some (some b)
create_bits bit_cnt none =
    if bit_cnt == 0 then some (some (record { bit_cnt = bit_cnt; bits = [] })) else some none

-- `got` tells whether the first `malloc` finds memory.
unfoldable pub bitmap_create : ℕ → Bool → Option (List ℕ) → Option (Option Bitmap)
unfolding create_bits
bitmap_create bit_cnt got words = if got then create_bits bit_cnt words else some none

-- The words of the storage that lies behind the `struct bitmap` at `block`.
unfoldable pub bitmap_create_in_buf : ℕ → List ℕ → ℕ → Option Bitmap
bitmap_create_in_buf bit_cnt block block_size = do
  assert (leb (bitmap_buf_size bit_cnt) block_size)
  bitmap_set_all (record { bit_cnt = bit_cnt; bits = block }) false
