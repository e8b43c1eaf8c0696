-- ===== src/Path/Walk.antt =====
-- The loop over `get_next_part` in filesys/filesys.c, against the path that it walks.
use cs162proj.Prelude.{
  ℕ, zero, suc, ◌+◌, ◌≤◌, ◌<◌, ◌≡◌, refl, sym, ap, subst, ◌∙◌, List, [], ◌∷◌, ◌++◌, Option, none,
  some, Bool, true, false, arith, length, replicate, All, ◌>>=◌,
}
use cs162proj.Path.{
  name_max, slash, PartStatus, get_next_part, end_status, c_string, walk_path, enter_part,
}
use cs162proj.Path.Parts.{
  IsLetter, IsRest, filled, get_next_part_lem, get_next_part_end, c_string-filled, length-filled,
}

-- One name of a path with the slashes before it. A name has a first byte.
pub record Segment : Type 0 where
  pub slashes : ℕ
  pub first : ℕ
  pub others : List ℕ

abbrev pub name_of : Segment → List ℕ
name_of s = s.first ∷ s.others

abbrev pub segment : Segment → List ℕ → List ℕ
segment s rest = replicate s.slashes slash ++ (s.first ∷ (s.others ++ rest))

-- The path of the segments, with `j` slashes at its end.
abbrev pub text : List Segment → Segment → ℕ → List ℕ
text [] last j = segment last (replicate j slash)
text (s ∷ ss) last j = segment s (text ss last j)

abbrev pub IsName : Segment → Type 0
IsName s = All IsLetter (name_of s) × (length (name_of s) ≤ name_max)

-- Every name is short, and slashes stand between any two.
abbrev pub IsPath : List Segment → Segment → Type 0
IsPath [] last = IsName last
IsPath (s ∷ []) last = IsName s × (0 < last.slashes) × IsName last
IsPath (s ∷ t ∷ ss) last = IsName s × (0 < t.slashes) × IsPath (t ∷ ss) last

-- The names of the directories that the walk has to enter: all but the last, and the last one too
-- if slashes follow it.
abbrev pub entered : List Segment → Segment → ℕ → List (List ℕ)
entered [] last zero = []
entered [] last (suc j) = name_of last ∷ []
entered (s ∷ ss) last j = name_of s ∷ entered ss last j

gap-IsRest : (k c : ℕ) (rest : List ℕ) → 0 < k → IsRest (replicate k slash ++ (c ∷ rest))
gap-IsRest zero c rest h = absurd (omega arith)
gap-IsRest (suc k) c rest h = refl

segment-IsRest : (s : Segment) (rest : List ℕ) → 0 < s.slashes → IsRest (segment s rest)
segment-IsRest s rest h = gap-IsRest s.slashes s.first (s.others ++ rest) h

slashes_found :
    (k c : ℕ) (rest : List ℕ) → end_status (replicate k slash ++ (c ∷ rest)) ≡ PartStatus.found
slashes_found zero c rest = refl
slashes_found (suc k) c rest = refl

segment-found : (s : Segment) (rest : List ℕ) → end_status (segment s rest) ≡ PartStatus.found
segment-found s rest = slashes_found s.slashes s.first (s.others ++ rest)

text-found :
    (ss : List Segment) (last : Segment) (j : ℕ) → end_status (text ss last j) ≡ PartStatus.found
text-found [] last j = segment-found last (replicate j slash)
text-found (s ∷ ss) last j = segment-found s (text ss last j)

IsPath-head : (s : Segment) (ss : List Segment) (last : Segment) → IsPath (s ∷ ss) last → IsName s
IsPath-head s [] last p = p.0
IsPath-head s (t ∷ ss) last p = p.0

IsPath-tail :
    (s : Segment) (ss : List Segment) (last : Segment) → IsPath (s ∷ ss) last → IsPath ss last
IsPath-tail s [] last p = p.2
IsPath-tail s (t ∷ ss) last p = p.2

IsPath-IsRest :
    (s : Segment) (ss : List Segment) (last : Segment) (j : ℕ)
    → IsPath (s ∷ ss) last
    → IsRest (text ss last j)
IsPath-IsRest s [] last j p = segment-IsRest last (replicate j slash) p.1
IsPath-IsRest s (t ∷ ss) last j p = segment-IsRest t (text ss last j) p.1

slashes-IsRest : (j : ℕ) → IsRest (replicate j slash)
slashes-IsRest zero = tt
slashes-IsRest (suc j) = refl

module _ {ℓ} {D : Type ℓ} (enter : D → List ℕ → Option D) where
  -- Entering one directory after the other, up to the first that fails.
  abbrev pub follow : D → List (List ℕ) → Bool × D
  follow dir [] = (true, dir)
  follow dir (n ∷ ns) = elim (enter dir n) [ none ↦ (false, dir) | some dir' ↦ follow dir' ns ]

  -- The loop ends as `outcome` says, and after a success the array holds the last name.
  abbrev pub Walks : List ℕ → Bool × D → Option (Bool × D × List ℕ) → Type ℓ
  Walks name outcome r =
      (part' : List ℕ) × (r ≡ some (outcome.0, outcome.1, part'))
      × (outcome.0 ≡ true → c_string part' ≡ some name)

  walk_end :
      (fuel : ℕ) (dir : D) (part name part' rest : List ℕ)
      → get_next_part part name ≡ (PartStatus.at_end, part', rest)
      → walk_path enter (suc fuel) dir part name ≡ some (true, dir, part')
  unfolding walk_path
  walk_end fuel dir part name part' rest e = ap (enter_part enter (walk_path enter fuel) dir) e

  walk_found :
      (fuel : ℕ) (dir : D) (part name part' rest s : List ℕ)
      → get_next_part part name ≡ (PartStatus.found, part', rest)
      → c_string part' ≡ some s
      → walk_path enter (suc fuel) dir part name ≡ elim (enter dir s) [
        | none ↦ some (false, dir, part')
        | some dir' ↦ walk_path enter fuel dir' part' rest
      ]
  unfolding walk_path
  walk_found fuel dir part name part' rest s e f =
      ap (enter_part enter (walk_path enter fuel) dir) e
      ∙ ap
          (λ o. o >>= λ s. elim (enter dir s) [
            | none ↦ some (false, dir, part')
            | some dir' ↦ walk_path enter fuel dir' part' rest
          ])
          f

  -- One segment before others.
  walk_segment :
      (fuel : ℕ) (dir : D) (part rest : List ℕ) (s : Segment)
      → IsName s
      → length part ≡ name_max + 1
      → IsRest rest
      → end_status rest ≡ PartStatus.found
      → walk_path enter (suc fuel) dir part (segment s rest) ≡ elim (enter dir (name_of s)) [
        | none ↦ some (false, dir, filled (name_of s) part)
        | some dir' ↦ walk_path enter fuel dir' (filled (name_of s) part) rest
      ]
  walk_segment fuel dir part rest s (l, short) full r more =
      walk_found fuel dir part (segment s rest) (filled (name_of s) part) rest (name_of s)
        (get_next_part_lem s.slashes s.first s.others rest part l short full r
          ∙ ap (λ st. (st, filled (name_of s) part, rest)) more)
        (c_string-filled (name_of s) part l)

  enter_either :
      (name part : List ℕ) (ns : List (List ℕ)) (dir : D) (again : D → Option (Bool × D × List ℕ))
      → ((dir' : D) → Walks name (follow dir' ns) (again dir'))
      → (o : Option D)
      → Walks name
          (elim o [ none ↦ (false, dir) | some dir' ↦ follow dir' ns ])
          (elim o [ none ↦ some (false, dir, part) | some dir' ↦ again dir' ])
  enter_either name part ns dir again go none = (part, refl, λ h. ground arith)
  enter_either name part ns dir again go (some dir') = go dir'

  -- One segment, and what is known of the walk after it.
  segment-Walks :
      (fuel : ℕ) (dir : D) (part rest name : List ℕ) (ns : List (List ℕ)) (s : Segment)
      → IsName s
      → length part ≡ name_max + 1
      → IsRest rest
      → end_status rest ≡ PartStatus.found
      → ((dir' : D)
          → Walks name (follow dir' ns) (walk_path enter fuel dir' (filled (name_of s) part) rest))
      → Walks name
          (follow dir (name_of s ∷ ns))
          (walk_path enter (suc fuel) dir part (segment s rest))
  segment-Walks fuel dir part rest name ns s named full r more go =
      subst (Walks name (follow dir (name_of s ∷ ns)))
        (sym (walk_segment fuel dir part rest s named full r more))
        (enter_either name (filled (name_of s) part) ns dir
          (λ dir'. walk_path enter fuel dir' (filled (name_of s) part) rest) go
          (enter dir (name_of s)))

  -- For a path of names of 1 to NAME_MAX bytes with slashes between them, and an array of
  -- NAME_MAX + 1 bytes: the walk of the path enters the directories that it names, in order, and ends at the first that
  -- cannot be entered; `length ss + 2` calls are enough. After a success the array holds the last
  -- name of the path, whether slashes follow it or not.
  pub walk_path_lem :
      (ss : List Segment) (last : Segment) (j fuel : ℕ) (dir : D) (part : List ℕ)
      → IsPath ss last
      → length part ≡ name_max + 1
      → length ss + 2 ≤ fuel
      → Walks
          (name_of last)
          (follow dir (entered ss last j))
          (walk_path enter fuel dir part (text ss last j))
  walk_path_lem [] last j zero dir part p full enough = absurd (omega arith)
  walk_path_lem [] last j (suc zero) dir part p full enough = absurd (omega arith)
  walk_path_lem [] last zero (suc (suc fuel)) dir part (l, short) full enough = (
    filled (name_of last) part,
    walk_end (suc fuel) dir part (segment last []) (filled (name_of last) part) []
        (get_next_part_lem last.slashes last.first last.others [] part l short full tt),
    λ _. c_string-filled (name_of last) part l,
  )
  walk_path_lem [] last (suc j) (suc (suc fuel)) dir part (l, short) full enough =
      segment-Walks (suc fuel) dir part (replicate (suc j) slash) (name_of last) [] last (l, short)
        full refl refl
        (λ dir'. (
          filled (name_of last) part,
          walk_end fuel dir' (filled (name_of last) part) (replicate (suc j) slash)
              (filled (name_of last) part) (replicate (suc j) slash)
              (get_next_part_end (suc j) (filled (name_of last) part)),
          λ _. c_string-filled (name_of last) part l,
        ))
  walk_path_lem (s ∷ ss) last j zero dir part p full enough = absurd (omega arith)
  walk_path_lem (s ∷ ss) last j (suc fuel) dir part p full enough =
      let named = IsPath-head s ss last p in
      let more : length (filled (name_of s) part) ≡ name_max + 1 =
        length-filled (name_of s) part (omega (arith, named.1)) ∙ full in
      segment-Walks fuel dir part (text ss last j) (name_of last) (entered ss last j) s named full
        (IsPath-IsRest s ss last j p) (text-found ss last j)
        (λ dir'.
          walk_path_lem ss last j fuel dir' (filled (name_of s) part) (IsPath-tail s ss last p) more
            (omega arith))
