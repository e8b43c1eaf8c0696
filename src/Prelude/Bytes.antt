-- ===== src/Prelude/Bytes.antt =====
-- Byte blocks as lists: `memcpy` into a block, and the bytes that a read copies out of it.
use Prim.Native.Nat.{ℕ, zero, suc, ◌+◌, ◌-◌, ◌≤◌, ◌<◌}
use mathlib.Core.Path.{◌≡◌, refl, ap}
use mathlib.Core.Bool.{◌&&◌}
use mathlib.Core.List.{List, [], ◌∷◌, ◌++◌}
use native.Mathlib.Omega.{arith}
use cs162proj.Prelude.Tests.{ltb, leb, if◌then◌else◌}
use cs162proj.Prelude.Lists.{length, get_or, set, take, drop}

-- `while (size-- > 0) *dst++ = *src++`; the callers keep both blocks at least `size` long.
pub memcpy : List ℕ → List ℕ → ℕ → List ℕ
memcpy dst src zero = dst
memcpy [] src (suc n) = []
memcpy (d ∷ dst) [] (suc n) = d ∷ dst
memcpy (d ∷ dst) (s ∷ src) (suc n) = s ∷ memcpy dst src n

-- `memcpy (dst + offset, src, size)`
pub memcpy_at : List ℕ → ℕ → List ℕ → ℕ → List ℕ
memcpy_at dst zero src n = memcpy dst src n
memcpy_at [] (suc o) src n = []
memcpy_at (d ∷ dst) (suc o) src n = d ∷ memcpy_at dst o src n

-- The bytes that `memcpy (buffer, block + offset, size)` puts into the buffer.
abbrev pub bytes_at : List ℕ → ℕ → ℕ → List ℕ
bytes_at block offset size = take size (drop offset block)

length-memcpy : (dst src : List ℕ) (n : ℕ) → length (memcpy dst src n) ≡ length dst
unfolding memcpy
length-memcpy dst src zero = refl
length-memcpy [] src (suc n) = refl
length-memcpy (d ∷ dst) [] (suc n) = refl
length-memcpy (d ∷ dst) (s ∷ src) (suc n) = ap suc (length-memcpy dst src n)

pub length-memcpy_at :
    (dst : List ℕ) (o : ℕ) (src : List ℕ) (n : ℕ) → length (memcpy_at dst o src n) ≡ length dst
unfolding memcpy_at
length-memcpy_at dst zero src n = length-memcpy dst src n
length-memcpy_at [] (suc o) src n = refl
length-memcpy_at (d ∷ dst) (suc o) src n = ap suc (length-memcpy_at dst o src n)

take-memcpy :
    (dst src : List ℕ) (n : ℕ)
    → n ≤ length dst
    → n ≤ length src
    → take n (memcpy dst src n) ≡ take n src
unfolding memcpy
take-memcpy dst src zero h k = refl
take-memcpy [] src (suc n) h k = absurd (omega arith)
take-memcpy (d ∷ dst) [] (suc n) h k = absurd (omega arith)
take-memcpy (d ∷ dst) (s ∷ src) (suc n) h k =
    ap (λ l. s ∷ l) (take-memcpy dst src n (omega arith) (omega arith))

-- What was copied in is what a read at the same place copies out.
pub bytes_at-memcpy_at :
    (dst : List ℕ) (o : ℕ) (src : List ℕ) (n : ℕ)
    → o + n ≤ length dst
    → n ≤ length src
    → bytes_at (memcpy_at dst o src n) o n ≡ take n src
unfolding memcpy_at
bytes_at-memcpy_at dst zero src n h k = take-memcpy dst src n (omega arith) k
bytes_at-memcpy_at [] (suc o) src n h k = absurd (omega arith)
bytes_at-memcpy_at (d ∷ dst) (suc o) src n h k = bytes_at-memcpy_at dst o src n (omega arith) k

get_or-memcpy :
    (dst src : List ℕ) (n i : ℕ)
    → n ≤ length dst
    → n ≤ length src
    → get_or (memcpy dst src n) i 0 ≡ (if ltb i n then get_or src i 0 else get_or dst i 0)
unfolding memcpy
get_or-memcpy dst src zero i h k = ground arith
get_or-memcpy [] src (suc n) i h k = absurd (omega arith)
get_or-memcpy (d ∷ dst) [] (suc n) i h k = absurd (omega arith)
get_or-memcpy (d ∷ dst) (s ∷ src) (suc n) zero h k = ground arith
get_or-memcpy (d ∷ dst) (s ∷ src) (suc n) (suc i) h k =
    ground (arith, get_or-memcpy dst src n i (omega arith) (omega arith))

-- Byte by byte: the copied range is replaced, every other byte is kept.
pub get_or-memcpy_at :
    (dst : List ℕ) (o : ℕ) (src : List ℕ) (n i : ℕ)
    → o + n ≤ length dst
    → n ≤ length src
    → get_or (memcpy_at dst o src n) i 0
      ≡ (if leb o i && ltb i (o + n) then get_or src (i - o) 0 else get_or dst i 0)
unfolding memcpy_at
get_or-memcpy_at dst zero src n i h k = ground (arith, get_or-memcpy dst src n i (omega arith) k)
get_or-memcpy_at [] (suc o) src n i h k = absurd (omega arith)
get_or-memcpy_at (d ∷ dst) (suc o) src n zero h k = ground arith
get_or-memcpy_at (d ∷ dst) (suc o) src n (suc i) h k =
    ground (arith, get_or-memcpy_at dst o src n i (omega arith) k)

-- A copy of a whole block replaces it.
pub memcpy_at_whole :
    (dst src : List ℕ) (n : ℕ)
    → length dst ≡ n
    → n ≤ length src
    → memcpy_at dst 0 src n ≡ take n src
unfolding memcpy_at memcpy
memcpy_at_whole [] src zero h k = refl
memcpy_at_whole (d ∷ dst) src zero h k = absurd (omega arith)
memcpy_at_whole [] src (suc n) h k = absurd (omega arith)
memcpy_at_whole (d ∷ dst) [] (suc n) h k = absurd (omega arith)
memcpy_at_whole (d ∷ dst) (s ∷ src) (suc n) h k =
    ap (λ l. s ∷ l) (memcpy_at_whole dst src n (omega arith) (omega arith))

-- A block after a copy to its start and one more byte behind it.
pub set-memcpy_at :
    (dst src : List ℕ) (n v : ℕ)
    → n ≤ length src
    → n < length dst
    → set (memcpy_at dst 0 src n) n v ≡ take n src ++ (v ∷ drop (suc n) dst)
unfolding memcpy_at memcpy
set-memcpy_at [] src n v l h = absurd (omega arith)
set-memcpy_at (d ∷ dst) src zero v l h = refl
set-memcpy_at (d ∷ dst) [] (suc n) v l h = absurd (omega arith)
set-memcpy_at (d ∷ dst) (s ∷ src) (suc n) v l h =
    ap (λ t. s ∷ t) (set-memcpy_at dst src n v (omega arith) (omega arith))
