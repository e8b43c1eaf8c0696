-- ===== src/Strings/Copies.antt =====
-- `memmove` and `strlcpy` of lib/string.c: what is where after the copy.
use cs162proj.Prelude.{
  ℕ, zero, suc, ◌+◌, ◌-◌, ◌≤◌, ◌<◌, ◌≡◌, ◌≢◌, refl, sym, ap, ◌∙◌, List, [], ◌∷◌, some, true, false,
  ltb, if◌then◌else◌, arith, length, get_or, set, take, drop, memcpy_at, set-memcpy_at,
  length-memcpy_at, ◌++◌, subst, All, ◌⊎◌, inl, inr, ◌>>=◌, length-set, get_or-set_self,
  get_or-set_ne, Bool-cases, ltb→lt, ltb→le, lt→ltb, ==_ne,
}
use cs162proj.Strings.{move_up, move_down, memmove, strlen, strlcpy}
use cs162proj.Path.{c_string}

pub move_up_outside :
    (n dst src i : ℕ) (mem : List ℕ)
    → (i < dst) ⊎ (dst + n ≤ i)
    → get_or (move_up mem dst src n) i 0 ≡ get_or mem i 0
unfolding move_up
move_up_outside zero dst src i mem o = refl
move_up_outside (suc n) dst src i mem o =
    move_up_outside n (dst + 1) (src + 1) i (set mem dst (get_or mem src 0))
      (elim o [ inl h ↦ inl (omega arith) | inr h ↦ inr (omega arith) ])
    ∙ get_or-set_ne mem dst i (get_or mem src 0) 0
        (λ e. elim o [ inl h ↦ omega arith | inr h ↦ omega arith ])

-- Upwards every byte is read before the place is written, when the source lies above.
pub move_up_inside :
    (n dst src k : ℕ) (mem : List ℕ)
    → dst < src
    → k < n
    → dst + n ≤ length mem
    → get_or (move_up mem dst src n) (dst + k) 0 ≡ get_or mem (src + k) 0
unfolding move_up
move_up_inside zero dst src k mem s h b = absurd (omega arith)
move_up_inside (suc n) dst src zero mem s h b =
    let start : dst + 0 ≡ dst = omega arith in
    let start' : src + 0 ≡ src = omega arith in
    move_up_outside n (dst + 1) (src + 1) (dst + 0) (set mem dst (get_or mem src 0))
      (inl (omega arith))
    ∙ ap (λ i. get_or (set mem dst (get_or mem src 0)) i 0) start
    ∙ get_or-set_self mem dst (get_or mem src 0) 0 (omega arith)
    ∙ ap (λ i. get_or mem i 0) (sym start')
move_up_inside (suc n) dst src (suc k) mem s h b =
    let mem' = set mem dst (get_or mem src 0) in
    let d : dst + suc k ≡ dst + 1 + k = omega arith in
    let u : src + 1 + k ≡ src + suc k = omega arith in
    ap (λ i. get_or (move_up mem' (dst + 1) (src + 1) n) i 0) d
    ∙ move_up_inside n (dst + 1) (src + 1) k mem' (omega arith) (omega arith)
        (omega (arith, length-set mem dst (get_or mem src 0)))
    ∙ ap (λ i. get_or mem' i 0) u
    ∙ get_or-set_ne mem dst (src + suc k) (get_or mem src 0) 0 (λ e. omega arith)

pub move_down_outside :
    (n dst src i : ℕ) (mem : List ℕ)
    → (i < dst) ⊎ (dst + n ≤ i)
    → get_or (move_down mem dst src n) i 0 ≡ get_or mem i 0
unfolding move_down
move_down_outside zero dst src i mem o = refl
move_down_outside (suc n) dst src i mem o =
    move_down_outside n dst src i (set mem (dst + n) (get_or mem (src + n) 0))
      (elim o [ inl h ↦ inl h | inr h ↦ inr (omega arith) ])
    ∙ get_or-set_ne mem (dst + n) i (get_or mem (src + n) 0) 0
        (λ e. elim o [ inl h ↦ omega arith | inr h ↦ omega arith ])

pub move_down_inside :
    (n dst src k : ℕ) (mem : List ℕ)
    → src ≤ dst
    → k < n
    → dst + n ≤ length mem
    → get_or (move_down mem dst src n) (dst + k) 0 ≡ get_or mem (src + k) 0
unfolding move_down
move_down_inside zero dst src k mem s h b = absurd (omega arith)
move_down_inside (suc n) dst src k mem s h b =
    let mem' = set mem (dst + n) (get_or mem (src + n) 0) in
    elim (Bool-cases (ltb k n)) [
      | inl e ↦
          let lt : k < n = ltb→lt k n e in
          move_down_inside n dst src k mem' s lt
            (omega (arith, length-set mem (dst + n) (get_or mem (src + n) 0)))
          ∙ get_or-set_ne mem (dst + n) (src + k) (get_or mem (src + n) 0) 0 (λ e'. omega arith)
      | inr e ↦
          let same : k ≡ n = omega (arith, ltb→le k n e) in
          ap (λ j. get_or (move_down mem' dst src n) (dst + j) 0) same
          ∙ move_down_outside n dst src (dst + n) mem' (inr (omega arith))
          ∙ get_or-set_self mem (dst + n) (get_or mem (src + n) 0) 0 (omega arith)
          ∙ ap (λ j. get_or mem (src + j) 0) (sym same)
    ]

-- After the call the byte at any place is the byte that stood at the matching place of the source
-- before the call, if the place lies in the destination, and otherwise the byte that stood there.
-- The blocks may overlap in either direction; the destination lies in the memory.
pub memmove_lem :
    (mem : List ℕ) (dst src n i : ℕ)
    → dst + n ≤ length mem
    → get_or (memmove mem dst src n).0 i 0 ≡ (
        if ltb i dst
        then get_or mem i 0
        else if ltb i (dst + n)
        then get_or mem (src + (i - dst)) 0
        else get_or mem i 0)
unfolding memmove
memmove_lem mem dst src n i b = elim (Bool-cases (ltb dst src)) [
  | inl u ↦ elim (Bool-cases (ltb i dst)) [
    | inl e ↦ rw (u, e) (move_up_outside n dst src i mem (inl (ltb→lt i dst e)))
    | inr e ↦ elim (Bool-cases (ltb i (dst + n))) [
      | inl z ↦
          rw (u, e, z)
            (ap (λ j. get_or (move_up mem dst src n) j 0) (at e)
              ∙ move_up_inside n dst src (i - dst) mem (ltb→lt dst src u) (within e z) b)
      | inr z ↦ rw (u, e, z) (move_up_outside n dst src i mem (inr (ltb→le i (dst + n) z)))
    ]
  ]
  | inr u ↦ elim (Bool-cases (ltb i dst)) [
    | inl e ↦ rw (u, e) (move_down_outside n dst src i mem (inl (ltb→lt i dst e)))
    | inr e ↦ elim (Bool-cases (ltb i (dst + n))) [
      | inl z ↦
          rw (u, e, z)
            (ap (λ j. get_or (move_down mem dst src n) j 0) (at e)
              ∙ move_down_inside n dst src (i - dst) mem (ltb→le dst src u) (within e z) b)
      | inr z ↦ rw (u, e, z) (move_down_outside n dst src i mem (inr (ltb→le i (dst + n) z)))
    ]
  ]
]
  where
    at : ltb i dst ≡ false → i ≡ dst + (i - dst)
    at e = omega (arith, ltb→le i dst e)

    within : ltb i dst ≡ false → ltb i (dst + n) ≡ true → i - dst < n
    within e z = omega (arith, ltb→lt i (dst + n) z, ltb→le i dst e)

-- A string that is cut, with its terminator.
c_string-take :
    (src rest : List ℕ) (n : ℕ)
    → All (λ c. c ≢ 0) src
    → c_string (take n src ++ (0 ∷ rest)) ≡ some (take n src)
c_string-take src rest zero nz = refl
c_string-take [] rest (suc n) nz = refl
c_string-take (c ∷ src) rest (suc n) nz =
    rw (==_ne c 0 nz.0) (ap (λ o. o >>= λ s. some (c ∷ s)) (c_string-take src rest n nz.1))

-- Places behind the terminator keep their bytes.
drop-copied :
    (dst src : List ℕ) (n k : ℕ)
    → n ≤ length src
    → n < length dst
    → drop (suc (n + k)) (take n src ++ (0 ∷ drop (suc n) dst)) ≡ drop (suc (n + k)) dst
drop-copied [] src n k l h = absurd (omega arith)
drop-copied (d ∷ dst) src zero k l h = refl
drop-copied (d ∷ dst) [] (suc n) k l h = absurd (omega arith)
drop-copied (d ∷ dst) (c ∷ src) (suc n) k l h =
    let e : suc n + k ≡ suc (n + k) = omega arith in
    rw e (drop-copied dst src n k (omega arith) (omega arith))

pub strlen_lem : (s : List ℕ) → strlen s ≡ length s
unfolding strlen
strlen_lem [] = refl
strlen_lem (c ∷ s) = omega (arith, strlen_lem s)

pub take_all : (n : ℕ) (s : List ℕ) → length s ≤ n → take n s ≡ s
take_all zero [] h = refl
take_all zero (c ∷ s) h = absurd (omega arith)
take_all (suc n) [] h = refl
take_all (suc n) (c ∷ s) h = ap (λ t. c ∷ t) (take_all n s (omega arith))

-- What is copied is the string up to the room that the terminator leaves.
copied_length :
    (src : List ℕ) (size : ℕ)
    → (n : ℕ) × ((if ltb (strlen src) (size - 1) then strlen src else size - 1) ≡ n)
      × (n ≤ length src)
      × (n ≤ size - 1)
      × (take n src ≡ take (size - 1) src)
copied_length src size = elim (Bool-cases (ltb (length src) (size - 1))) [
  | inl e ↦ (
    length src,
    rw (strlen_lem src, e) refl,
    omega arith,
    omega (arith, ltb→lt (length src) (size - 1) e),
    take_all (length src) src (omega arith)
        ∙ sym (take_all (size - 1) src (omega (arith, ltb→lt (length src) (size - 1) e))),
  )
  | inr e ↦
      (size - 1, rw (strlen_lem src, e) refl, ltb→le (length src) (size - 1) e, omega arith, refl)
]

-- For a size above 0 that the array has room for, and a string without zero bytes inside, the array
-- afterwards holds a string, which is the source cut to `size - 1` bytes; the bytes from `size` on
-- are those before; and the result is the length of the whole source.
pub strlcpy_lem :
    (dst src : List ℕ) (size : ℕ)
    → All (λ c. c ≢ 0) src
    → 0 < size
    → size ≤ length dst
    → (c_string (strlcpy dst src size).0 ≡ some (take (size - 1) src))
      × (drop size (strlcpy dst src size).0 ≡ drop size dst)
      × ((strlcpy dst src size).1 ≡ length src)
unfolding strlcpy
strlcpy_lem dst src size nz p h =
    let (n, e, l, b, t) = copied_length src size in
    let s : set (memcpy_at dst 0 src n) n 0 ≡ take n src ++ (0 ∷ drop (suc n) dst) =
      set-memcpy_at dst src n 0 l (omega arith) in
    let k : size ≡ suc (n + (size - 1 - n)) = omega arith in
    rw (lt→ltb 0 size p) (
      ap (λ m. c_string (set (memcpy_at dst 0 src m) m 0)) e
          ∙ ap c_string s
          ∙ c_string-take src (drop (suc n) dst) n nz
          ∙ ap some t,
      ap (λ m. drop size (set (memcpy_at dst 0 src m) m 0)) e
          ∙ ap (drop size) s
          ∙ subst (λ i. drop i (take n src ++ (0 ∷ drop (suc n) dst)) ≡ drop i dst) (sym k)
              (drop-copied dst src n (size - 1 - n) l (omega arith)),
      strlen_lem src,
    )

-- strlcpy keeps the size of the array.
pub length-strlcpy : (dst src : List ℕ) (size : ℕ) → length (strlcpy dst src size).0 ≡ length dst
unfolding strlcpy
length-strlcpy dst src size = elim (Bool-cases (ltb 0 size)) [
  | inl some_room ↦
      let n = if ltb (strlen src) (size - 1) then strlen src else size - 1 in
      rw some_room (length-set (memcpy_at dst 0 src n) n 0 ∙ length-memcpy_at dst 0 src n)
  | inr no_room ↦ rw no_room
]
