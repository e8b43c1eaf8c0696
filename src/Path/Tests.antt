-- ===== src/Path/Tests.antt =====
-- Runs of the path functions of filesys/filesys.c and their theorems at concrete paths.
use cs162proj.Prelude.{
  ℕ, ◌≡◌, refl, List, [], ◌∷◌, ◌++◌, Option, none, some, ◌==◌, if◌then◌else◌, arith, replicate,
  take, drop,
}
use cs162proj.Path.{
  name_max, slash, PartStatus, skip_slashes, copy_name, get_next_part, c_string, walk_path,
}
use cs162proj.Path.Parts.{filled, get_next_part_lem, get_next_part_too_long}
use cs162proj.Path.Walk.{Segment, name_of, text, follow, entered, Walks, walk_path_lem}

-- An array that is not initialized.
abbrev junk : List ℕ
junk = replicate 15 0xCC

-- "//ab/c": the first call gives "ab".
first_call :
    get_next_part junk (0x2F ∷ 0x2F ∷ 0x61 ∷ 0x62 ∷ 0x2F ∷ 0x63 ∷ [])
    ≡ (PartStatus.found, 0x61 ∷ 0x62 ∷ 0 ∷ replicate 12 0xCC, 0x2F ∷ 0x63 ∷ [])
unfolding get_next_part skip_slashes copy_name
first_call = refl

-- A name of 15 bytes leaves an array that is no string.
no_terminator : c_string (get_next_part junk (replicate 15 0x61)).1 ≡ none
unfolding get_next_part skip_slashes copy_name
no_terminator = refl

get_next_part_example :
    get_next_part junk (replicate 2 slash ++ (0x61 ∷ ((0x62 ∷ []) ++ (0x2F ∷ 0x63 ∷ []))))
    ≡ (PartStatus.found, filled (0x61 ∷ 0x62 ∷ []) junk, 0x2F ∷ 0x63 ∷ [])
get_next_part_example =
    get_next_part_lem 2 0x61 (0x62 ∷ []) (0x2F ∷ 0x63 ∷ []) junk (ground arith) (omega arith) refl
      refl

too_long_example : get_next_part junk (replicate 0 slash ++ (0x61 ∷ (replicate 14 0x61 ++ []))) ≡ (
  PartStatus.too_long,
  take name_max (0x61 ∷ replicate 14 0x61) ++ drop name_max junk,
  replicate 0 slash ++ (0x61 ∷ (replicate 14 0x61 ++ [])),
)
too_long_example =
    get_next_part_too_long 0 0x61 (replicate 14 0x61) [] junk (ground arith) (omega arith) refl

abbrev docs : Segment
docs = record { slashes = 1; first = 0x61; others = 0x62 ∷ [] }

abbrev note : Segment
note = record { slashes = 1; first = 0x63; others = [] }

-- One directory, number 7, called "ab" in the root.
abbrev enter : ℕ → List ℕ → Option ℕ
enter dir (c ∷ name) = if c == 0x61 then some 7 else none
enter dir [] = none

walk_path_example :
    Walks enter
      (name_of note)
      (follow enter 1 (entered (docs ∷ []) note 1))
      (walk_path enter 5 1 junk (text (docs ∷ []) note 1))
walk_path_example =
    walk_path_lem enter (docs ∷ []) note 1 5 1 junk (ground arith) refl (omega arith)
