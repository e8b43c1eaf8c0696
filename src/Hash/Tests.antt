-- ===== src/Hash/Tests.antt =====
-- The theorems on lib/kernel/hash.c at a table of three elements, whose keys are their addresses
-- divided by 8.
use cs162proj.Prelude.{
  ℕ, zero, suc, ◌/◌, ◌^◌, ◌≤◌, ◌<◌, ◌≡◌, refl, [], ◌∷◌, some, none, Bool, true, arith, ltb, get_or,
  if◌then◌else◌,
}
use cs162proj.Hash.{
  Hash, bucket_idx, equal, find_elem, round_loop, hash_find, hash_insert, hash_replace, hash_delete,
  find_bucket,
}
use cs162proj.Hash.Rounding.{round_loop_lem}
use cs162proj.Hash.Buckets.{IsKey}
use cs162proj.Hash.Tables.{IsBucket, IsBuckets}
use cs162proj.Hash.Laws.{Gives, table_lem}

abbrev key_of : ℕ → ℕ
key_of e = e / 8

abbrev less : ℕ → ℕ → Bool
less a b = ltb (a / 8) (b / 8)

key_of-IsKey : IsKey key_of less
key_of-IsKey = record {
  same = λ a. ground arith;
  join = λ a b c h k. ground arith;
  agree = λ a b h. ground arith;
}

abbrev table : Hash
table = record { elem_cnt = 3; bucket_cnt = 4; buckets = [] ∷ (8 ∷ 40 ∷ []) ∷ (16 ∷ []) ∷ [] ∷ [] }

table-IsBuckets : IsBuckets key_of less 4 table.buckets
unfolding bucket_idx find_elem
table-IsBuckets = record { some_buckets = omega arith; size = refl; each = each }
  where
    each : (i : ℕ) → IsBucket key_of less 4 i (get_or table.buckets i [])
    each zero = (tt, tt)
    each (suc zero) = ((refl, (refl, tt)), (refl, (refl, tt)))
    each (suc (suc zero)) = ((refl, tt), (refl, tt))
    each (suc (suc (suc zero))) = (tt, tt)
    each (suc (suc (suc (suc i)))) = (tt, tt)

-- The element at 44 is equal to the one at 40.
table_lem_example :
    Gives key_of less
      (hash_insert key_of less true table 44)
      (some 40)
      (λ e. hash_find key_of less table e)
    × Gives key_of less
        (hash_replace key_of less true table 44)
        (some 40)
        (λ e. if equal key_of less 44 e then some 44 else hash_find key_of less table e)
    × Gives key_of less
        (hash_delete key_of less true table 44)
        (some 40)
        (λ e. if equal key_of less 44 e then none else hash_find key_of less table e)
unfolding hash_find find_bucket bucket_idx find_elem
table_lem_example =
    table_lem key_of less key_of-IsKey true table 44 (table-IsBuckets, refl) (omega arith)

round_loop_lem_example :
    (k : ℕ) × (round_loop 100 100 ≡ some (2 ^ k)) × (2 ^ k ≤ 100) × (100 < 2 ^ suc k)
round_loop_lem_example = round_loop_lem 100 (omega arith)

-- A hundred buckets are made 64.
rounded : round_loop 100 100 ≡ some 64
unfolding round_loop
rounded = refl
