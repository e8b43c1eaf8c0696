-- ===== src/Path.antt =====
-- The part of filesys/filesys.c that takes a path apart: `get_next_part` and the loop of
-- `filesys_create`, `filesys_open` and the others that enters one directory after the other. A C
-- string is the list of its bytes without the terminator, the array `part` the list of its
-- NAME_MAX + 1 bytes.
pub mod Parts
pub mod Walk
mod Tests
use cs162proj.Prelude.{
  ℕ, zero, suc, List, [], ◌∷◌, Option, none, some, Bool, true, false, ◌==◌, ltb, ◌>>=◌,
  if◌then◌else◌, set,
}

abbrev pub name_max : ℕ
name_max = 14

abbrev pub slash : ℕ
slash = 0x2F

-- The results 1, 0 and -1.
pub data PartStatus : Type 0 where
  found : PartStatus
  at_end : PartStatus
  too_long : PartStatus

unfoldable pub skip_slashes : List ℕ → List ℕ
skip_slashes [] = []
skip_slashes (c ∷ src) = if c == slash then skip_slashes src else c ∷ src

-- Where the copy stops: the array, the next place in it, and the rest of the string. `fits` is
-- false for the early return of -1.
pub record Copied : Type 0 where
  pub part : List ℕ
  pub dst : ℕ
  pub src : List ℕ
  pub fits : Bool

unfoldable pub copy_name : List ℕ → ℕ → List ℕ → Copied
copy_name part dst [] = record { part = part; dst = dst; src = []; fits = true }
copy_name part dst (c ∷ src) =
    let rest = copy_name (set part dst c) (suc dst) src in
    if c == slash
    then record { part = part; dst = dst; src = c ∷ src; fits = true }
    else if ltb dst name_max
    then rest
    else record { part = part; dst = dst; src = c ∷ src; fits = false }

abbrev pub end_status : List ℕ → PartStatus
end_status [] = PartStatus.at_end
end_status (c ∷ src) = PartStatus.found

-- The array and the string pointer are returned as the call leaves them.
unfoldable pub get_next_part : List ℕ → List ℕ → PartStatus × List ℕ × List ℕ
get_next_part part srcp = elim (skip_slashes srcp) [
  | [] ↦ (PartStatus.at_end, part, srcp)
  | c ∷ src ↦
      let copied = copy_name part 0 (c ∷ src) in
      if copied.fits
      then (end_status copied.src, set copied.part copied.dst 0, copied.src)
      else (PartStatus.too_long, copied.part, srcp)
]

-- The string that the array holds, `none` if it has no terminator.
abbrev pub c_string : List ℕ → Option (List ℕ)
c_string [] = none
c_string (c ∷ cs) = if c == 0 then some [] else c_string cs >>= λ s. some (c ∷ s)

-- The directories are of any kind; `enter` looks the name up and opens what it finds.
module _ {ℓ} {D : Type ℓ} (enter : D → List ℕ → Option D) where
  -- What the loop does with the result of `get_next_part`; `again` is the rest of the loop. A `none`
  -- stands for a name that is not terminated, and for fuel that is used up.
  abbrev pub enter_part :
      (D → List ℕ → List ℕ → Option (Bool × D × List ℕ))
      → D
      → PartStatus × List ℕ × List ℕ
      → Option (Bool × D × List ℕ)
  enter_part again dir (PartStatus.at_end, part, rest) = some (true, dir, part)
  enter_part again dir (PartStatus.too_long, part, rest) = some (true, dir, part)
  enter_part again dir (PartStatus.found, part, rest) = c_string part >>= λ s. elim (enter dir s) [
    | none ↦ some (false, dir, part)
    | some dir' ↦ again dir' part rest
  ]

  -- `success`, the directory that is open and the array when the loop ends.
  unfoldable pub walk_path : ℕ → D → List ℕ → List ℕ → Option (Bool × D × List ℕ)
  walk_path zero dir part name = none
  walk_path (suc fuel) dir part name = enter_part (walk_path fuel) dir (get_next_part part name)
