-- ===== src/Strings/Searches.antt =====
-- `strstr` of lib/string.c against the search that tries every suffix in turn.
use cs162proj.Prelude.{
  ℕ, zero, suc, ◌+◌, ◌-◌, ◌≤◌, ◌<◌, ◌≡◌, refl, sym, ap, ap₂, subst, ◌∙◌, List, [], ◌∷◌, Option,
  none, some, Bool, true, false, ◌==◌, ltb, leb, if◌then◌else◌, arith, length, drop, inl, inr, ◌&&◌,
  length-drop, Bool-cases, le→leb,
}
use cs162proj.Strings.{Sign, memcmp, later, strlen, strstr_loop, strstr}
use cs162proj.Strings.Copies.{strlen_lem}

abbrev pub is_prefix : List ℕ → List ℕ → Bool
is_prefix [] s = true
is_prefix (c ∷ needle) [] = false
is_prefix (c ∷ needle) (x ∷ s) = (x == c) && is_prefix needle s

-- The first place where the needle stands.
abbrev pub first_match : List ℕ → List ℕ → Option ℕ
first_match [] needle = if is_prefix needle [] then some 0 else none
first_match (x ∷ s) needle =
    let rest = later (first_match s needle) in if is_prefix needle (x ∷ s) then some 0 else rest

abbrev shift : ℕ → Option ℕ → Option ℕ
shift i none = none
shift i (some k) = some (i + k)

shift-later : (i : ℕ) (o : Option ℕ) → shift i (later o) ≡ shift (i + 1) o
shift-later i none = refl
shift-later i (some k) = ap some (omega arith)

shift_zero : (o : Option ℕ) → shift 0 o ≡ o
shift_zero none = refl
shift_zero (some k) = ap some (omega arith)

-- The test of the loop, where the rest of the haystack is long enough.
abbrev compared : Option Sign → Bool
compared none = false
compared (some Sign.below) = false
compared (some Sign.equal) = true
compared (some Sign.above) = false

memcmp-prefix :
    (a needle : List ℕ)
    → length needle ≤ length a
    → (o : Sign) × (memcmp a needle (length needle) ≡ some o)
      × (compared (some o) ≡ is_prefix needle a)
unfolding memcmp
memcmp-prefix a [] h = (Sign.equal, refl, refl)
memcmp-prefix [] (c ∷ needle) h = absurd (omega arith)
memcmp-prefix (x ∷ a) (c ∷ needle) h =
    let (o, e, p) = memcmp-prefix a needle (omega arith) in
    elim (Bool-cases (x == c)) [
      | inl t ↦ (o, rw t e, rw t p)
      | inr t ↦ elim (Bool-cases (ltb c x)) [
        | inl z ↦ (Sign.above, rw (t, z) refl, rw t refl)
        | inr z ↦ (Sign.below, rw (t, z) refl, rw t refl)
      ]
    ]

long_prefix : (s needle : List ℕ) → length s < length needle → is_prefix needle s ≡ false
long_prefix s [] h = absurd (omega arith)
long_prefix [] (c ∷ needle) h = refl
long_prefix (x ∷ s) (c ∷ needle) h = elim (Bool-cases (x == c)) [
  | inl t ↦ rw t (long_prefix s needle (omega arith))
  | inr t ↦ rw t refl
]

long_needle : (s needle : List ℕ) → length s < length needle → first_match s needle ≡ none
long_needle s [] h = absurd (omega arith)
long_needle [] (c ∷ needle) h = refl
long_needle (x ∷ s) (c ∷ needle) h =
    rw (long_needle s (c ∷ needle) (omega arith), long_prefix (x ∷ s) (c ∷ needle) h) refl

drop_next : (s : List ℕ) (i : ℕ) → i < length s → (c : ℕ) × (drop i s ≡ c ∷ drop (suc i) s)
drop_next [] i h = absurd (omega arith)
drop_next (x ∷ s) zero h = (x, refl)
drop_next (x ∷ s) (suc i) h = drop_next s i (omega arith)

-- What a round of the loop does with the comparison.
abbrev round : ℕ → Option ℕ → Bool → Option ℕ
round i rest b = if b then some i else rest

round_lem :
    (haystack needle : List ℕ) (i n : ℕ) (o : Sign)
    → memcmp (drop i haystack) needle (strlen needle) ≡ some o
    → strstr_loop haystack needle i (suc n)
      ≡ round i (strstr_loop haystack needle (i + 1) n) (compared (some o))
unfolding strstr_loop
round_lem haystack needle i n Sign.below e = rw (e, strstr_loop) refl
round_lem haystack needle i n Sign.equal e = rw (e, strstr_loop) refl
round_lem haystack needle i n Sign.above e = rw (e, strstr_loop) refl

first_match_lem :
    (s needle : List ℕ) (c : ℕ) (rest : List ℕ) (i : ℕ)
    → s ≡ c ∷ rest
    → shift i (first_match s needle)
      ≡ round i (shift (i + 1) (first_match rest needle)) (is_prefix needle s)
first_match_lem s needle c rest i e =
    subst
      (λ t.
        shift i (first_match t needle)
        ≡ round i (shift (i + 1) (first_match rest needle)) (is_prefix needle t))
      (sym e)
      (elim (Bool-cases (is_prefix needle (c ∷ rest))) [
        | inl p ↦ rw p (ap some (omega arith))
        | inr p ↦ rw p (shift-later i (first_match rest needle))
      ])

-- The rounds that are left search the rest of the haystack.
loop_lem :
    (n i : ℕ) (haystack needle : List ℕ)
    → 0 < length needle
    → i + n + length needle ≡ length haystack + 1
    → strstr_loop haystack needle i n ≡ shift i (first_match (drop i haystack) needle)
unfolding strstr_loop
loop_lem zero i haystack needle p h =
    sym
      (ap (shift i) (long_needle (drop i haystack) needle (omega (arith, length-drop i haystack))))
loop_lem (suc n) i haystack needle p h =
    let (o, e, q) =
      memcmp-prefix (drop i haystack) needle (omega (arith, length-drop i haystack)) in
    let e' : memcmp (drop i haystack) needle (strlen needle) ≡ some o = rw (strlen_lem needle) e in
    let (c, d) = drop_next haystack i (omega arith) in
    round_lem haystack needle i n o e'
    ∙ ap₂ (round i) (loop_lem n (i + 1) haystack needle p (omega arith)) q
    ∙ ap
        (λ j.
          round i (shift (i + 1) (first_match (drop j haystack) needle))
            (is_prefix needle (drop i haystack)))
        (next i)
    ∙ sym (first_match_lem (drop i haystack) needle c (drop (suc i) haystack) i d)
  where
    next : (j : ℕ) → j + 1 ≡ suc j
    next j = omega arith

first_match-empty : (s : List ℕ) → first_match s [] ≡ some 0
first_match-empty [] = refl
first_match-empty (x ∷ s) = refl

-- The call finds the first place where the needle stands in the haystack, and a null pointer if
-- there is none. The empty needle stands at the start.
pub strstr_lem : (haystack needle : List ℕ) → strstr haystack needle ≡ first_match haystack needle
unfolding strstr strstr_loop memcmp strlen
strstr_lem haystack [] =
    rw (le→leb 0 (strlen haystack) (omega arith)) (empty (strlen haystack - 0 + 1) (omega arith))
    ∙ sym (first_match-empty haystack)
  where
    empty : (n : ℕ) → 0 < n → strstr_loop haystack [] 0 n ≡ some 0
    empty zero p = absurd (omega arith)
    empty (suc n) p = refl
strstr_lem haystack (c ∷ needle) =
    rw (strlen_lem haystack, strlen_lem (c ∷ needle))
      (elim (Bool-cases (leb (suc (length needle)) (length haystack))) [
        | inl e ↦ rw e (
            loop_lem (length haystack - suc (length needle) + 1) 0 haystack (c ∷ needle)
              (omega arith) (room e)
            ∙ shift_zero (first_match haystack (c ∷ needle)))
        | inr e ↦ rw e (sym (long_needle haystack (c ∷ needle) (short e)))
      ])
  where
    room :
        leb (suc (length needle)) (length haystack) ≡ true
        → 0 + (length haystack - suc (length needle) + 1) + suc (length needle)
          ≡ length haystack + 1
    room e = ground arith

    short :
        leb (suc (length needle)) (length haystack) ≡ false → length haystack < suc (length needle)
    short e = ground arith
