-- ===== src/Buffer/Entries.antt =====
-- Facts about the list of cache entries in filesys/buffer.c: where the walk ends, what taking an
-- entry out of the list keeps, and which sector contents the list stands for.
use cs162proj.Prelude.{
  ℕ, ◌+◌, ◌≡◌, refl, ap, List, [], ◌∷◌, ◌++◌, Option, none, some, Bool, true, false, ◌&&◌,
  if◌then◌else◌, length, All, arith, Bool-cases, inl, inr,
}
use cs162proj.Buffer.{SectorCache, Walk, hit, stop, finish, past, walk, matches}

-- The content that the valid entries hold for a sector.
abbrev pub find : ℕ → ℕ → List SectorCache → Option (List ℕ)
find b s [] = none
find b s (e ∷ es) = if e.valid && matches b s e then some e.content else find b s es

abbrev pub or_else {ℓ} : {A : Type ℓ} → Option A → A → A
or_else none a = a
or_else (some x) a = x

-- Is the sector in the cache?
abbrev pub is_cached : ℕ → ℕ → List SectorCache → Bool
is_cached b s es = elim (find b s es) [ none ↦ false | some _ ↦ true ]

-- Does a valid entry hold bytes of the sector that the device lacks?
abbrev pub is_dirty : ℕ → ℕ → List SectorCache → Bool
is_dirty b s [] = false
is_dirty b s (e ∷ es) = if e.valid && matches b s e then e.dirty else is_dirty b s es

-- No two valid entries hold one sector.
abbrev pub Distinct : List SectorCache → Type 0
Distinct [] = Unit
Distinct (e ∷ es) = (e.valid ≡ true → find e.block_id e.sector_id es ≡ none) × Distinct es

abbrev pub IsInvalid : SectorCache → Type 0
IsInvalid e = e.valid ≡ false

-- Behind an entry that is not valid none is.
abbrev pub ValidFirst : List SectorCache → Type 0
ValidFirst [] = Unit
ValidFirst (e ∷ es) = (e.valid ≡ false → All IsInvalid es) × ValidFirst es

find_invalid : (b s : ℕ) (es : List SectorCache) → All IsInvalid es → find b s es ≡ none
find_invalid b s [] h = refl
find_invalid b s (e ∷ es) h = ground (arith, find_invalid b s es h.1)

-- What the end of the walk says of the list.
abbrev pub Walked : ℕ → ℕ → List SectorCache → Walk → Type 0
Walked b s es (hit pre e post) =
    (es ≡ pre ++ (e ∷ post)) × (e.valid ≡ true) × (matches b s e ≡ true)
Walked b s es (stop pre e post) =
    (es ≡ pre ++ (e ∷ post)) × (e.valid ≡ false) × (find b s es ≡ none)
Walked b s es finish = find b s es ≡ none

past-Walked :
    (b s : ℕ) (e : SectorCache) (es : List SectorCache) (w : Walk)
    → e.valid ≡ true
    → matches b s e ≡ false
    → Walked b s es w
    → Walked b s (e ∷ es) (past e w)
unfolding past
past-Walked b s e es (hit pre x post) v m h = (ap (λ l. e ∷ l) h.0, h.1, h.2)
past-Walked b s e es (stop pre x post) v m h = (ap (λ l. e ∷ l) h.0, h.1, rw (v, m) h.2)
past-Walked b s e es finish v m h = rw (v, m) h

pub walk-Walked : (b s : ℕ) (es : List SectorCache) → ValidFirst es → Walked b s es (walk b s es)
unfolding walk
walk-Walked b s [] f = refl
walk-Walked b s (e ∷ es) f = elim (Bool-cases e.valid) [
  | inr off ↦ simp off (refl, refl, find_invalid b s es (f.0 off))
  | inl on ↦ elim (Bool-cases (matches b s e)) [
    | inl m ↦ simp (on, m) (refl, refl, refl)
    | inr m ↦ simp (on, m) (past-Walked b s e es (walk b s es) on m (walk-Walked b s es f.1))
  ]
]

module _ (e : SectorCache) (post : List SectorCache) where
  pub length-middle :
      (pre : List SectorCache) → length (pre ++ (e ∷ post)) ≡ length (pre ++ post) + 1
  length-middle [] = omega arith
  length-middle (x ∷ pre) = omega (arith, length-middle pre)

  pub All-middle {ℓ} :
      (P : SectorCache → Type ℓ) (pre : List SectorCache)
      → All P (pre ++ (e ∷ post))
      → P e × All P (pre ++ post)
  All-middle P [] h = h
  All-middle P (x ∷ pre) h = let (he, rest) = All-middle P pre h.1 in (he, (h.0, rest))

  pub ValidFirst-middle :
      (pre : List SectorCache) → ValidFirst (pre ++ (e ∷ post)) → ValidFirst (pre ++ post)
  ValidFirst-middle [] h = h.1
  ValidFirst-middle (x ∷ pre) h =
      ((λ off. (All-middle IsInvalid pre (h.0 off)).1), ValidFirst-middle pre h.1)

  find-none-middle :
      (b s : ℕ) (pre : List SectorCache)
      → find b s (pre ++ (e ∷ post)) ≡ none
      → (find b s (pre ++ post) ≡ none) × ((e.valid && matches b s e) ≡ false)
  find-none-middle b s [] h = ground arith
  find-none-middle b s (x ∷ pre) h = ground (arith, find-none-middle b s pre)

  -- The sector of an entry is held by no other entry.
  pub Distinct-middle :
      (pre : List SectorCache)
      → Distinct (pre ++ (e ∷ post))
      → Distinct (pre ++ post) × (e.valid ≡ true → find e.block_id e.sector_id (pre ++ post) ≡ none)
  Distinct-middle [] h = (h.1, h.0)
  Distinct-middle (x ∷ pre) h =
      let (rest, own) = Distinct-middle pre h.1 in
      (
        ((λ on. (find-none-middle x.block_id x.sector_id pre (h.0 on)).0), rest),
        λ on. ground (arith, own on, find-none-middle x.block_id x.sector_id pre),
      )

  -- Where an entry stands in the list does not matter for what the list holds.
  pub find-middle :
      (b s : ℕ) (pre : List SectorCache)
      → (e.valid ≡ true → find e.block_id e.sector_id (pre ++ post) ≡ none)
      → find b s (pre ++ (e ∷ post))
        ≡ (if e.valid && matches b s e then some e.content else find b s (pre ++ post))
  find-middle b s [] own = refl
  find-middle b s (x ∷ pre) own = ground (arith, find-middle b s pre)
