-- ===== src/Hash.antt =====
-- lib/kernel/hash.c: hash tables with chains. An element is its address, and the list of a bucket
-- stands for its elements in order. `hash` and `less` are the functions of the table with its
-- auxiliary data; a hash value has 32 bits. A `none` as an element is a null pointer.
pub mod Rounding
pub mod Buckets
pub mod Tables
pub mod Moving
pub mod Counts
pub mod Elements
pub mod Laws
mod Tests
use Prim.Native.Nat.{bit_and, bit_xor}
use cs162proj.Prelude.{
  ℕ, zero, suc, ◌+◌, ◌-◌, ◌*◌, ◌/◌, ◌%◌, ◌^◌, List, [], ◌∷◌, ◌++◌, Option, none, some, Bool, true,
  false, not, ◌&&◌, ltb, ◌==◌, if◌then◌else◌, ◌>>=◌, get_or, set, replicate,
}

pub record Hash : Type 0 where
  pub elem_cnt : ℕ
  pub bucket_cnt : ℕ
  pub buckets : List (List ℕ)

-- The inner loops of `hash_clear`: the elements that the destructor is called for, in order.
pub clear_loop : Bool → List (List ℕ) → List (List ℕ) × List ℕ
clear_loop destructor [] = ([], [])
clear_loop destructor (bucket ∷ rest) =
    let (cleared, gone) = clear_loop destructor rest in
    ([] ∷ cleared, (if destructor then bucket ++ gone else gone))

pub hash_clear : Bool → Hash → Hash × List ℕ
unfolding clear_loop
hash_clear destructor h =
    let (cleared, gone) = clear_loop destructor h.buckets in
    (record h { elem_cnt = 0; buckets = cleared }, gone)

-- `block` is what `malloc` gives; the table is `none` if it gives nothing.
pub hash_init : Option (List (List ℕ)) → Option Hash
unfolding hash_clear
hash_init none = none
hash_init (some block) =
    some (hash_clear false (record { elem_cnt = 0; bucket_cnt = 4; buckets = block })).0

-- The elements that the destructor is called for.
pub hash_destroy : Bool → Hash → List ℕ
unfolding hash_clear
hash_destroy destructor h = if destructor then (hash_clear destructor h).1 else []

pub hash_size : Hash → ℕ
hash_size h = h.elem_cnt

pub hash_empty : Hash → Bool
hash_empty h = h.elem_cnt == 0

-- The elements that the action is called for.
pub hash_apply : Hash → List ℕ
hash_apply h = calls h.buckets
  where
    calls : List (List ℕ) → List ℕ
    calls [] = []
    calls (bucket ∷ rest) = bucket ++ calls rest

-- An iterator: what stands behind the current element in its bucket, the buckets behind that one, and the
-- current element.
pub record HashIterator : Type 0 where
  pub rest : List ℕ
  pub later : List (List ℕ)
  pub elem : Option ℕ

pub first_in : List (List ℕ) → HashIterator
first_in [] = record { rest = []; later = []; elem = none }
first_in (bucket ∷ later) = record { rest = bucket; later = later; elem = none }

pub hash_first : Hash → HashIterator
unfolding first_in
hash_first h = first_in h.buckets

-- The loop of `hash_next` over the buckets behind the current one.
pub next_bucket : List (List ℕ) → HashIterator
next_bucket [] = record { rest = []; later = []; elem = none }
next_bucket ([] ∷ later) = next_bucket later
next_bucket ((e ∷ rest) ∷ later) = record { rest = rest; later = later; elem = some e }

pub hash_next : HashIterator → HashIterator
unfolding next_bucket
hash_next i = elim i.rest [
  | [] ↦ next_bucket i.later
  | e ∷ rest ↦ record { rest = rest; later = i.later; elem = some e }
]

pub hash_cur : HashIterator → Option ℕ
hash_cur i = i.elem

-- The loop of `hash_bytes` and `hash_string`.
pub fnv_loop : ℕ → List ℕ → ℕ
fnv_loop hash [] = hash
fnv_loop hash (b ∷ bytes) = fnv_loop (bit_xor (hash * 16777619 % 2 ^ 32) b) bytes

pub hash_bytes : List ℕ → ℕ
unfolding fnv_loop
hash_bytes bytes = fnv_loop 2166136261 bytes

-- A string is the list of its bytes without the terminator.
pub hash_string : List ℕ → ℕ
unfolding fnv_loop
hash_string s = fnv_loop 2166136261 s

-- The four bytes of the integer, as a bit pattern of 32 bits.
pub hash_int : ℕ → ℕ
unfolding hash_bytes
hash_int i = hash_bytes (i % 256 ∷ i / 256 % 256 ∷ i / 65536 % 256 ∷ i / 16777216 % 256 ∷ [])

unfoldable pub turn_off_least_1bit : ℕ → ℕ
turn_off_least_1bit x = bit_and x (x - 1)

unfoldable pub is_power_of_2 : ℕ → Bool
unfolding turn_off_least_1bit
is_power_of_2 x = not (x == 0) && turn_off_least_1bit x == 0

-- `while (!is_power_of_2 (new_bucket_cnt))`; `none` if the fuel runs out.
pub round_loop : ℕ → ℕ → Option ℕ
unfolding is_power_of_2
round_loop zero n = none
round_loop (suc fuel) n = elim (is_power_of_2 n) [
  | true ↦ some n
  | false ↦ round_loop fuel (turn_off_least_1bit n)
]

-- The number of buckets before it is made a power of 2. BEST_ELEMS_PER_BUCKET is 2.
abbrev pub wanted : ℕ → ℕ
wanted elem_cnt = if ltb (elem_cnt / 2) 4 then 4 else elem_cnt / 2

-- `list_remove` of the element from the bucket that it is in.
abbrev pub without : ℕ → List ℕ → List ℕ
without e [] = []
without e (x ∷ bucket) = if x == e then without e bucket else x ∷ without e bucket

abbrev pub without_all : ℕ → List (List ℕ) → List (List ℕ)
without_all e [] = []
without_all e (bucket ∷ rest) = without e bucket ∷ without_all e rest

module _ (hash : ℕ → ℕ) (less : ℕ → ℕ → Bool) where
  -- The index of the bucket of an element, where there are `cnt` buckets.
  unfoldable pub bucket_idx : ℕ → ℕ → ℕ
  bucket_idx cnt e = bit_and (hash e) (cnt - 1)

  abbrev pub bucket_at : List (List ℕ) → ℕ → List ℕ
  bucket_at buckets i = get_or buckets i []

  pub find_bucket : Hash → ℕ → List ℕ
  unfolding bucket_idx
  find_bucket h e = bucket_at h.buckets (bucket_idx h.bucket_cnt e)

  -- Neither is less than the other.
  abbrev pub equal : ℕ → ℕ → Bool
  equal a b = not (less a b) && not (less b a)

  unfoldable pub find_elem : List ℕ → ℕ → Option ℕ
  find_elem [] e = none
  find_elem (hi ∷ bucket) e = let rest = find_elem bucket e in if equal hi e then some hi else rest

  -- `list_push_front` to the bucket that the element belongs in.
  unfoldable pub push_to : ℕ → ℕ → List (List ℕ) → List (List ℕ)
  unfolding bucket_idx
  push_to cnt e buckets = let i = bucket_idx cnt e in set buckets i (e ∷ bucket_at buckets i)

  pub insert_elem : Hash → ℕ → Hash
  unfolding push_to
  insert_elem h e = record h {
    elem_cnt = (h.elem_cnt + 1) % 2 ^ 32;
    buckets = push_to h.bucket_cnt e h.buckets;
  }

  pub remove_elem : Hash → ℕ → Hash
  remove_elem h e = record h {
    elem_cnt = (h.elem_cnt + 2 ^ 32 - 1) % 2 ^ 32;
    buckets = without_all e h.buckets;
  }

  -- The loops that move the elements of the old buckets, one bucket after the other.
  pub move_bucket : ℕ → List ℕ → List (List ℕ) → List (List ℕ)
  unfolding push_to
  move_bucket cnt [] new = new
  move_bucket cnt (e ∷ old) new = move_bucket cnt old (push_to cnt e new)

  pub move_all : ℕ → List (List ℕ) → List (List ℕ) → List (List ℕ)
  unfolding move_bucket
  move_all cnt [] new = new
  move_all cnt (bucket ∷ old) new = move_all cnt old (move_bucket cnt bucket new)

  -- `got` tells whether `malloc` finds memory for the new buckets.
  pub rehash : Bool → Hash → Option Hash
  unfolding round_loop move_all
  rehash got h = do
    cnt ← round_loop (wanted h.elem_cnt) (wanted h.elem_cnt)
    if cnt == h.bucket_cnt
        then some h
        else if not got
        then some h
        else some
            (record h { bucket_cnt = cnt; buckets = move_all cnt h.buckets (replicate cnt []) })

  pub hash_find : Hash → ℕ → Option ℕ
  unfolding find_bucket find_elem
  hash_find h e = find_elem (find_bucket h e) e

  pub hash_insert : Bool → Hash → ℕ → Option (Hash × Option ℕ)
  unfolding hash_find insert_elem rehash
  hash_insert got h new = do
    let old = hash_find h new
    h' ← rehash got (elim old [ none ↦ insert_elem h new | some x ↦ h ])
    some (h', old)

  pub hash_replace : Bool → Hash → ℕ → Option (Hash × Option ℕ)
  unfolding hash_find insert_elem remove_elem rehash
  hash_replace got h new = do
    let old = hash_find h new
    h' ← rehash got (insert_elem (elim old [ none ↦ h | some x ↦ remove_elem h x ]) new)
    some (h', old)

  pub hash_delete : Bool → Hash → ℕ → Option (Hash × Option ℕ)
  unfolding hash_find remove_elem rehash
  hash_delete got h e = elim (hash_find h e) [
    | none ↦ some (h, none)
    | some found ↦ do h' ← rehash got (remove_elem h found); some (h', some found)
  ]
