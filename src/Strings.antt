-- ===== src/Strings.antt =====
-- lib/string.c. A C string is the list of its bytes without the terminator, and a pointer into it the
-- number of bytes before it; `none` is a null pointer. An array that is written is the list of all
-- its bytes. Characters are bytes.
pub mod Tokens
pub mod Copies
pub mod Searches
mod Tests
use cs162proj.Prelude.{
  ℕ, zero, suc, ◌+◌, ◌-◌, List, [], ◌∷◌, ◌++◌, Option, none, some, Bool, true, false, ◌==◌, ltb,
  leb, not, ◌&&◌, if◌then◌else◌, ◌>>=◌, get_or, set, drop, length, memcpy_at,
}

unfoldable pub strlen : List ℕ → ℕ
strlen [] = 0
strlen (c ∷ s) = strlen s + 1

-- The length is counted up to `maxlen`.
unfoldable pub strnlen : List ℕ → ℕ → ℕ
strnlen [] maxlen = 0
strnlen (c ∷ s) zero = 0
strnlen (c ∷ s) (suc maxlen) = strnlen s maxlen + 1

abbrev later : Option ℕ → Option ℕ
later none = none
later (some n) = some (n + 1)

-- The terminator is found as well.
unfoldable pub strchr : List ℕ → ℕ → Option ℕ
strchr [] c = if 0 == c then some 0 else none
strchr (x ∷ s) c = let rest = later (strchr s c) in if x == c then some 0 else rest

abbrev pub is_found : Option ℕ → Bool
is_found none = false
is_found (some n) = true

unfoldable pub strcspn : List ℕ → List ℕ → ℕ
strcspn [] stop = 0
strcspn (c ∷ s) stop = let rest = strcspn s stop + 1 in if is_found (strchr stop c) then 0 else rest

unfoldable pub strspn : List ℕ → List ℕ → ℕ
strspn [] skip = 0
strspn (c ∷ s) skip = let rest = strspn s skip + 1 in if is_found (strchr skip c) then rest else 0

unfoldable pub strpbrk : List ℕ → List ℕ → Option ℕ
strpbrk [] stop = none
strpbrk (c ∷ s) stop =
    let rest = later (strpbrk s stop) in if is_found (strchr stop c) then some 0 else rest

-- `at` counts the bytes passed, `p` is the last place found.
unfoldable pub strrchr_loop : List ℕ → ℕ → ℕ → Option ℕ → Option ℕ
strrchr_loop [] c at p = p
strrchr_loop (x ∷ s) c at p = strrchr_loop s c (at + 1) (if x == c then some at else p)

unfoldable pub strrchr : List ℕ → ℕ → Option ℕ
strrchr s c = strrchr_loop s c 0 none

-- The sign of the result.
pub data Sign : Type 0 where
  below : Sign
  equal : Sign
  above : Sign

abbrev pub sign : ℕ → ℕ → Sign
sign a b = if ltb a b then Sign.below else if ltb b a then Sign.above else Sign.equal

-- The outer `none` is a read behind the end of a block.
unfoldable pub memcmp : List ℕ → List ℕ → ℕ → Option Sign
memcmp a b zero = some Sign.equal
memcmp [] b (suc size) = none
memcmp (x ∷ a) [] (suc size) = none
memcmp (x ∷ a) (y ∷ b) (suc size) =
    let rest = memcmp a b size in
    if x == y then rest else some (if ltb y x then Sign.above else Sign.below)

-- The terminator is below every other byte.
unfoldable pub strcmp : List ℕ → List ℕ → Sign
strcmp [] [] = Sign.equal
strcmp [] (y ∷ b) = sign 0 y
strcmp (x ∷ a) [] = sign x 0
strcmp (x ∷ a) (y ∷ b) = let rest = strcmp a b in if x == y then rest else sign x y

unfoldable pub memchr : List ℕ → ℕ → ℕ → Option ℕ
memchr block ch zero = none
memchr [] ch (suc size) = none
memchr (x ∷ block) ch (suc size) =
    let rest = later (memchr block ch size) in if x == ch then some 0 else rest

-- The loop of `strstr` has `n` rounds left, from the place `i` on.
unfoldable pub strstr_loop : List ℕ → List ℕ → ℕ → ℕ → Option ℕ
strstr_loop haystack needle i zero = none
strstr_loop haystack needle i (suc n) =
    let rest = strstr_loop haystack needle (i + 1) n in
    elim (memcmp (drop i haystack) needle (strlen needle)) [
      | none ↦ none
      | some order ↦ elim order [ below ↦ rest | equal ↦ some i | above ↦ rest ]
    ]

unfoldable pub strstr : List ℕ → List ℕ → Option ℕ
strstr haystack needle =
    let haystack_len = strlen haystack in
    let needle_len = strlen needle in
    if leb needle_len haystack_len
    then strstr_loop haystack needle 0 (haystack_len - needle_len + 1)
    else none

-- The two loops of `strtok_r`: the delimiters at the front are passed, then the token is taken up to
-- the next one.
unfoldable pub skip_delimiters : List ℕ → List ℕ → List ℕ
skip_delimiters [] delimiters = []
skip_delimiters (c ∷ s) delimiters =
    let rest = skip_delimiters s delimiters in
    if is_found (strchr delimiters c) then rest else c ∷ s

-- The token and what `*save_ptr` points to. The delimiter behind the token becomes its terminator.
unfoldable pub take_token : List ℕ → List ℕ → List ℕ × List ℕ
take_token [] delimiters = ([], [])
take_token (c ∷ s) delimiters =
    let (token, saved) = take_token s delimiters in
    if is_found (strchr delimiters c) then ([], s) else (c ∷ token, saved)

-- One call, from the string that the call goes on with.
unfoldable pub strtok_r : List ℕ → List ℕ → Option (List ℕ) × List ℕ
strtok_r s delimiters = elim (skip_delimiters s delimiters) [
  | [] ↦ (none, [])
  | c ∷ rest ↦ let (token, saved) = take_token (c ∷ rest) delimiters in (some token, saved)
]

-- The loops of `memmove` on the memory that holds both blocks.
unfoldable pub move_up : List ℕ → ℕ → ℕ → ℕ → List ℕ
move_up mem dst src zero = mem
move_up mem dst src (suc size) = move_up (set mem dst (get_or mem src 0)) (dst + 1) (src + 1) size

unfoldable pub move_down : List ℕ → ℕ → ℕ → ℕ → List ℕ
move_down mem dst src zero = mem
move_down mem dst src (suc size) =
    move_down (set mem (dst + size) (get_or mem (src + size) 0)) dst src size

-- The memory and the pointer that is returned: the loop upwards moves `dst`.
unfoldable pub memmove : List ℕ → ℕ → ℕ → ℕ → List ℕ × ℕ
memmove mem dst src size =
    if ltb dst src
    then (move_up mem dst src size, dst + size)
    else (move_down mem dst src size, dst)

unfoldable pub memset : List ℕ → ℕ → ℕ → ℕ → List ℕ
memset mem dst value zero = mem
memset mem dst value (suc size) = memset (set mem dst value) (dst + 1) value size

-- The array and the length of `src`.
unfoldable pub strlcpy : List ℕ → List ℕ → ℕ → List ℕ × ℕ
strlcpy dst src size =
    let src_len = strlen src in
    let dst_len = if ltb src_len (size - 1) then src_len else size - 1 in
    if ltb 0 size then (set (memcpy_at dst 0 src dst_len) dst_len 0, src_len) else (dst, src_len)

-- `strlen` of a string in an array.
abbrev pub terminator : List ℕ → ℕ
terminator [] = 0
terminator (c ∷ dst) = if c == 0 then 0 else terminator dst + 1

unfoldable pub strlcat : List ℕ → List ℕ → ℕ → List ℕ × ℕ
strlcat dst src size =
    let src_len = strlen src in
    let dst_len = terminator dst in
    let room = size - dst_len - 1 in
    let copy_cnt = if ltb src_len room then src_len else room in
    if ltb 0 size && ltb dst_len size
    then (set (memcpy_at dst dst_len src copy_cnt) (dst_len + copy_cnt) 0, src_len + dst_len)
    else (dst, src_len + dst_len)
