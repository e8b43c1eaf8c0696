-- ===== src/Path/Parts.antt =====
-- `get_next_part` of filesys/filesys.c: what one call takes from a path.
use cs162proj.Prelude.{
  ℕ, zero, suc, ◌+◌, ◌≤◌, ◌<◌, ◌≡◌, ◌≢◌, refl, sym, ap, ap₂, ◌∙◌, List, [], ◌∷◌, ◌++◌, some, true,
  false, arith, length, set, drop, replicate, All, append_assoc, take,
}
use cs162proj.Path.{
  name_max, slash, PartStatus, skip_slashes, Copied, copy_name, end_status, get_next_part, c_string,
}

-- A byte of a name: neither a slash nor the terminator.
abbrev pub IsLetter : ℕ → Type 0
IsLetter c = (c ≢ slash) × (c ≢ 0)

-- What can follow a name in a path: nothing, or a slash.
abbrev pub IsRest : List ℕ → Type 0
IsRest [] = Unit
IsRest (c ∷ src) = c ≡ slash

-- The array after the name and its terminator were written into it.
abbrev pub filled : List ℕ → List ℕ → List ℕ
filled name part = name ++ 0 ∷ drop (suc (length name)) part

set_middle : (xs : List ℕ) (y v : ℕ) (ys : List ℕ) → set (xs ++ y ∷ ys) (length xs) v ≡ xs ++ v ∷ ys
set_middle [] y v ys = refl
set_middle (x ∷ xs) y v ys = ap (λ l. x ∷ l) (set_middle xs y v ys)

skip_slashes_lem :
    (k c : ℕ) (src : List ℕ) → c ≢ slash → skip_slashes (replicate k slash ++ c ∷ src) ≡ c ∷ src
unfolding skip_slashes
skip_slashes_lem zero c src h = ground arith
skip_slashes_lem (suc k) c src h = skip_slashes_lem k c src h

length_snoc : (xs : List ℕ) (c : ℕ) → length (xs ++ c ∷ []) ≡ suc (length xs)
length_snoc [] c = refl
length_snoc (x ∷ xs) c = ap suc (length_snoc xs c)

copy_step :
    (xs : List ℕ) (y c : ℕ) (ys src : List ℕ)
    → IsLetter c
    → length xs < name_max
    → copy_name (xs ++ y ∷ ys) (length xs) (c ∷ src)
      ≡ copy_name ((xs ++ c ∷ []) ++ ys) (length (xs ++ c ∷ [])) src
unfolding copy_name
copy_step xs y c ys src l h =
    rw (set_middle xs y c ys, append_assoc xs (c ∷ []) ys, length_snoc xs c) (ground (arith, l.0))

-- Copied as far as the string fits.
abbrev stopped : List ℕ → ℕ → List ℕ → Copied
stopped part dst src = record { part = part; dst = dst; src = src; fits = true }

copy_name-fits :
    (name xs ys rest : List ℕ)
    → All IsLetter name
    → IsRest rest
    → length xs + length name ≤ name_max
    → length name < length ys
    → copy_name (xs ++ ys) (length xs) (name ++ rest)
      ≡ stopped (xs ++ (name ++ drop (length name) ys)) (length xs + length name) rest
unfolding copy_name
copy_name-fits [] xs ys [] l r h fit =
    let same : length xs ≡ length xs + 0 = omega arith in ap (λ n. stopped (xs ++ ys) n []) same
copy_name-fits [] xs ys (c ∷ rest) l r h fit =
    let same : length xs ≡ length xs + 0 = omega arith in
    rw r (ap (λ n. stopped (xs ++ ys) n (slash ∷ rest)) same)
copy_name-fits (c ∷ name) xs [] rest l r h fit = absurd (omega arith)
copy_name-fits (c ∷ name) xs (y ∷ ys) rest (l, ls) r h fit =
    let eq = length_snoc xs c in
    copy_step xs y c ys (name ++ rest) l (omega arith)
    ∙ copy_name-fits name (xs ++ c ∷ []) ys rest ls r (omega arith) (omega arith)
    ∙ ap₂ (λ p n. stopped p n rest) (append_assoc xs (c ∷ []) (name ++ drop (length name) ys))
        (omega arith)

-- The array after the copy has the name in front.
place_terminator :
    (name part : List ℕ)
    → length name < length part
    → set (name ++ drop (length name) part) (length name) 0 ≡ filled name part
place_terminator [] [] h = absurd (omega arith)
place_terminator [] (y ∷ part) h = refl
place_terminator (c ∷ name) [] h = absurd (omega arith)
place_terminator (c ∷ name) (y ∷ part) h =
    ap (λ l. c ∷ l) (place_terminator name part (omega arith))

drop-drop : (n : ℕ) (ys : List ℕ) → drop n (drop 1 ys) ≡ drop (suc n) ys
drop-drop zero ys = refl
drop-drop (suc n) [] = refl
drop-drop (suc n) (y ∷ ys) = refl

filled_cons : (c : ℕ) (name part : List ℕ) → filled (c ∷ name) part ≡ c ∷ filled name (drop 1 part)
filled_cons c name part = ap (λ l. c ∷ (name ++ 0 ∷ l)) (sym (drop-drop (suc (length name)) part))

string_step :
    (c : ℕ) (s name : List ℕ)
    → IsLetter c
    → c_string s ≡ some name
    → c_string (c ∷ s) ≡ some (c ∷ name)
string_step c s name l e = rw e (ground (arith, l.1))

pub c_string-filled :
    (name part : List ℕ) → All IsLetter name → c_string (filled name part) ≡ some name
c_string-filled [] part l = refl
c_string-filled (c ∷ name) part (l, ls) =
    ap c_string (filled_cons c name part)
    ∙ string_step c (filled name (drop 1 part)) name l (c_string-filled name (drop 1 part) ls)

pub length-filled :
    (name part : List ℕ) → length name < length part → length (filled name part) ≡ length part
length-filled [] [] h = absurd (omega arith)
length-filled [] (y ∷ part) h = refl
length-filled (c ∷ name) [] h = absurd (omega arith)
length-filled (c ∷ name) (y ∷ part) h = ap suc (length-filled name part (omega arith))

-- The two results of a call that copies something.
part_found :
    (c dst : ℕ) (srcp src part part' rest : List ℕ)
    → skip_slashes srcp ≡ c ∷ src
    → copy_name part 0 (c ∷ src) ≡ stopped part' dst rest
    → get_next_part part srcp ≡ (end_status rest, set part' dst 0, rest)
unfolding get_next_part
part_found c dst srcp src part part' rest e f = rw (e, get_next_part, f) refl

part_cut :
    (c dst : ℕ) (srcp src part part' rest : List ℕ)
    → skip_slashes srcp ≡ c ∷ src
    → copy_name part 0 (c ∷ src) ≡ record { part = part'; dst = dst; src = rest; fits = false }
    → get_next_part part srcp ≡ (PartStatus.too_long, part', srcp)
unfolding get_next_part
part_cut c dst srcp src part part' rest e f = rw (e, get_next_part, f) refl

-- A name of 1 to NAME_MAX bytes that a slash or the end of the string follows is copied whole into
-- an array of NAME_MAX + 1 bytes, whatever slashes stand before it: the array then holds it as a
-- string, the pointer stands behind it, and the status tells whether the path goes on there.
pub get_next_part_lem :
    (k c : ℕ) (name rest part : List ℕ)
    → All IsLetter (c ∷ name)
    → length (c ∷ name) ≤ name_max
    → length part ≡ name_max + 1
    → IsRest rest
    → get_next_part part (replicate k slash ++ (c ∷ (name ++ rest)))
      ≡ (end_status rest, filled (c ∷ name) part, rest)
get_next_part_lem k c name rest part l short full r =
    let srcp = replicate k slash ++ (c ∷ (name ++ rest)) in
    let n = length (c ∷ name) in
    let start : 0 + n ≡ n = omega arith in
    part_found c n srcp (name ++ rest) part ((c ∷ name) ++ drop n part) rest
      (skip_slashes_lem k c (name ++ rest) l.0.0)
      (copy_name-fits (c ∷ name) [] part rest l r (omega arith) (omega arith)
        ∙ ap (λ d. stopped ((c ∷ name) ++ drop n part) d rest) start)
    ∙ ap (λ p. (end_status rest, p, rest)) (place_terminator (c ∷ name) part (omega arith))

copy_full :
    (xs ys : List ℕ) (c : ℕ) (src : List ℕ)
    → IsLetter c
    → length xs ≡ name_max
    → copy_name (xs ++ ys) (length xs) (c ∷ src)
      ≡ record { part = xs ++ ys; dst = name_max; src = c ∷ src; fits = false }
unfolding copy_name
copy_full xs ys c src l h = rw h (ground (arith, l.0))

copy_name-cut :
    (k : ℕ) (name xs ys rest : List ℕ)
    → All IsLetter name
    → length xs + k ≡ name_max
    → k < length name
    → k < length ys
    → (src : List ℕ) × (copy_name (xs ++ ys) (length xs) (name ++ rest) ≡ record {
      part = xs ++ (take k name ++ drop k ys);
      dst = name_max;
      src = src;
      fits = false;
    })
copy_name-cut k [] xs ys rest l h long room = absurd (omega arith)
copy_name-cut zero (c ∷ name) xs ys rest (l, ls) h long room =
    (c ∷ (name ++ rest), copy_full xs ys c (name ++ rest) l (omega arith))
copy_name-cut (suc k) (c ∷ name) xs [] rest l h long room = absurd (omega arith)
copy_name-cut (suc k) (c ∷ name) xs (y ∷ ys) rest (l, ls) h long room =
    let eq = length_snoc xs c in
    let (src, e) =
      copy_name-cut k name (xs ++ c ∷ []) ys rest ls (omega arith) (omega arith) (omega arith) in
    (
      src,
      copy_step xs y c ys (name ++ rest) l (omega arith)
          ∙ e
          ∙ ap (λ p. record { part = p; dst = name_max; src = src; fits = false })
              (append_assoc xs (c ∷ []) (take k name ++ drop k ys)),
    )

-- A longer name, with an array of NAME_MAX + 1 bytes, gives -1 and leaves the string pointer where it was. The array then holds the
-- first NAME_MAX bytes of the name and keeps its last byte: no terminator is written.
pub get_next_part_too_long :
    (k c : ℕ) (name rest part : List ℕ)
    → All IsLetter (c ∷ name)
    → name_max < length (c ∷ name)
    → length part ≡ name_max + 1
    → get_next_part part (replicate k slash ++ (c ∷ (name ++ rest))) ≡ (
      PartStatus.too_long,
      take name_max (c ∷ name) ++ drop name_max part,
      replicate k slash ++ (c ∷ (name ++ rest)),
    )
get_next_part_too_long k c name rest part l long full =
    let (src, e) =
      copy_name-cut name_max (c ∷ name) [] part rest l (omega arith) long (omega arith) in
    part_cut c name_max (replicate k slash ++ (c ∷ (name ++ rest))) (name ++ rest) part
      (take name_max (c ∷ name) ++ drop name_max part) src
      (skip_slashes_lem k c (name ++ rest) l.0.0) e

skip_slashes-all : (k : ℕ) → skip_slashes (replicate k slash) ≡ []
unfolding skip_slashes
skip_slashes-all zero = refl
skip_slashes-all (suc k) = skip_slashes-all k

-- Slashes alone give 0 and change neither the array nor the pointer.
pub get_next_part_end :
    (k : ℕ) (part : List ℕ)
    → get_next_part part (replicate k slash) ≡ (PartStatus.at_end, part, replicate k slash)
unfolding get_next_part
get_next_part_end k part = rw (skip_slashes-all k, get_next_part) refl
