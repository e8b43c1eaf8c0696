-- ===== src/FreeMap/Allocate.antt =====
-- filesys/free-map.c: what allocating and releasing sectors does to the map.
use cs162proj.Prelude.{
  ℕ, ◌+◌, ◌≤◌, ◌≡◌, ◌≢◌, ◌⊎◌, subst, refl, ap, ◌∙◌, Option, none, some, true, false, ◌==◌, arith,
  Bool-cases, inl, inr,
}
use cs162proj.Bitmap.{Bitmap, bitmap_error, test_bit, bitmap_all, bitmap_scan_and_flip}
use cs162proj.Bitmap.Bits.{IsBitmap}
use cs162proj.Bitmap.Ranges.{IsFilled, count, queries_lem, bitmap_set_multiple_lem}
use cs162proj.Bitmap.Scan.{IsFirst, Flipped, first_group, places, bitmap_scan_and_flip_lem}
use cs162proj.BitmapFile.{WordFile, bitmap_write}
use cs162proj.FreeMap.{FreeMap, free_map_allocate, free_map_release, roll_back}

module _ (f : WordFile) where
  -- What an allocation did: it gave the first free group of sectors, or it changed no bit.
  pub data Allocated (st : FreeMap f) (cnt : ℕ) (st' : FreeMap f) : Option ℕ → Type 0 where
    gave :
        (i : ℕ)
        → IsFirst (test_bit st.map) 0 cnt false i (places st.map 0 cnt)
        → IsFilled st.map st'.map i cnt true
        → st'.file ≡ st.file
        → Allocated st cnt st' (some i)
    refused :
        (first_group (test_bit st.map) 0 (places st.map 0 cnt) cnt false ≡ none)
          ⊎ ((st.file ≡ true) × ((m : Bitmap) × ((bitmap_write f m st.world).1 ≡ false)))
        → st'.map.bit_cnt ≡ st.map.bit_cnt
        → ((j : ℕ) → test_bit st'.map j ≡ test_bit st.map j)
        → IsBitmap st'.map
        → st'.file ≡ st.file
        → Allocated st cnt st' none

  allocate_scanned :
      (st : FreeMap f) (cnt i : ℕ) (m : Bitmap)
      → bitmap_scan_and_flip st.map 0 cnt false ≡ some (m, i)
      → (i == bitmap_error) ≡ false
      → (w : FreeMap f) × (w.map ≡ m)
        × (w.file ≡ st.file)
        × (((bitmap_write f m st.world).1 ≡ false)
              × (st.file ≡ true)
              × (free_map_allocate f st cnt ≡ roll_back f w i cnt)
            ⊎ (free_map_allocate f st cnt ≡ some (w, some i)))
  unfolding free_map_allocate
  allocate_scanned st cnt i m done real = elim (Bool-cases st.file) [
    | inr closed ↦ (record st { map = m }, refl, refl, inr (simp (done, real, closed)))
    | inl open_file ↦ elim (Bool-cases (bitmap_write f m st.world).1) [
      | inl written ↦ (
        record st { map = m; world = (bitmap_write f m st.world).0 },
        refl,
        refl,
        inr (simp (done, real, open_file, written)),
      )
      | inr failed ↦ (
        record st { map = m; world = (bitmap_write f m st.world).0 },
        refl,
        refl,
        inl (failed, open_file, simp (done, real, open_file, failed)),
      )
    ]
  ]

  allocate_place :
      (st : FreeMap f) (cnt : ℕ) (o : Option ℕ)
      → IsBitmap st.map
      → first_group (test_bit st.map) 0 (places st.map 0 cnt) cnt false ≡ o
      → Flipped st.map 0 cnt false o
      → (st' : FreeMap f) × (r : Option ℕ) × (free_map_allocate f st cnt ≡ some (st', r))
        × Allocated st cnt st' r
  unfolding free_map_allocate roll_back
  allocate_place st cnt none v nowhere h =
      (st, none, rw h, refused (inl nowhere) refl (λ j. refl) v refl)
  allocate_place st cnt (some i) v here (m, done, small, first, s) =
      let real : (i == bitmap_error) ≡ false = ground (arith, small) in
      let (w, is_m, same_file, outcome) = allocate_scanned st cnt i m done real in
      elim outcome [
        | inr gives ↦ (w, some i, gives, gave i first (rw (← is_m) at s) same_file)
        | inl (failed, open_file, rolls) ↦
            let fits : i + cnt ≤ m.bit_cnt = ground (arith, first.to, s.size) in
            let (m', undone, back) = bitmap_set_multiple_lem m i cnt false s.valid fits in
            (
              record w { map = m' },
              none,
              rolls ∙ rw (is_m, undone),
              refused (inr (open_file, (m, failed))) (back.size ∙ s.size)
                  (λ j. ground (arith, back.tests j, s.tests j, first.group j)) back.valid
                  same_file,
            )
      ]

  -- `free_map_allocate` fails no assertion. It gives the first group of `cnt` free sectors and marks
  -- them, and only them, as used; or it gives nothing and leaves every bit as it was, and then no
  -- such group is there or the map's file is open and could not be written.
  pub free_map_allocate_lem :
      (st : FreeMap f) (cnt : ℕ)
      → IsBitmap st.map
      → (st' : FreeMap f) × (r : Option ℕ) × (free_map_allocate f st cnt ≡ some (st', r))
        × Allocated st cnt st' r
  free_map_allocate_lem st cnt v =
      allocate_place st cnt (first_group (test_bit st.map) 0 (places st.map 0 cnt) cnt false) v refl
        (bitmap_scan_and_flip_lem st.map 0 cnt false v (omega arith))

  given :
      (st st' : FreeMap f) (cnt i : ℕ) (r : Option ℕ)
      → Allocated st cnt st' r
      → r ≡ some i
      → IsFirst (test_bit st.map) 0 cnt false i (places st.map 0 cnt)
        × IsFilled st.map st'.map i cnt true
  given st st' cnt i _ (gave k first s same_file) e =
      let eq : k ≡ i = cc in
      subst
        (λ x.
          IsFirst (test_bit st.map) 0 cnt false x (places st.map 0 cnt)
          × IsFilled st.map st'.map x cnt true)
        eq (first, s)
  given st st' cnt i _ (refused why size same v same_file) e = absurd (ground (arith, e))

  given_lem :
      (st st' : FreeMap f) (cnt i : ℕ)
      → IsBitmap st.map
      → free_map_allocate f st cnt ≡ some (st', some i)
      → IsFirst (test_bit st.map) 0 cnt false i (places st.map 0 cnt)
        × IsFilled st.map st'.map i cnt true
  given_lem st st' cnt i v e =
      let (s, r, done, a) = free_map_allocate_lem st cnt v in
      let is_s : s ≡ st' = cc in
      let is_r : r ≡ some i = cc in
      given st st' cnt i r (subst (λ x. Allocated st cnt x r) is_s a) is_r

  -- Two sectors handed out one after the other are different, and neither was in use.
  pub allocate_twice :
      (st st' st'' : FreeMap f) (i j : ℕ)
      → IsBitmap st.map
      → free_map_allocate f st 1 ≡ some (st', some i)
      → free_map_allocate f st' 1 ≡ some (st'', some j)
      → (i ≢ j) × (test_bit st.map i ≡ false) × (test_bit st.map j ≡ false)
  allocate_twice st st' st'' i j v first second =
      let (first_i, set_i) = given_lem st st' 1 i v first in
      let (first_j, set_j) = given_lem st' st'' 1 j set_i.valid second in
      let free_i : test_bit st.map i ≡ false = ground (arith, first_i.group i) in
      let free_j : test_bit st'.map j ≡ false = ground (arith, first_j.group j) in
      (
        (λ e. ground (arith, set_i.tests j, e, free_j)),
        free_i,
        ground (arith, set_i.tests j, free_j),
      )

  -- Sectors in use, given back while the map's file is open: `free_map_release` fails no assertion
  -- and marks them, and only them, as free.
  pub free_map_release_lem :
      (st : FreeMap f) (sector cnt : ℕ)
      → IsBitmap st.map
      → sector + cnt ≤ st.map.bit_cnt
      → count (test_bit st.map) sector cnt true ≡ cnt
      → st.file ≡ true
      → (st' : FreeMap f) × (free_map_release f st sector cnt ≡ some st')
        × IsFilled st.map st'.map sector cnt false
  unfolding free_map_release
  free_map_release_lem st sector cnt v fits used open_file =
      let (m, done, s) = bitmap_set_multiple_lem st.map sector cnt false v fits in
      let all : bitmap_all st.map sector cnt ≡ some true =
        (queries_lem st.map sector cnt v fits).4 ∙ ap some (ground (arith, used)) in
      (record st { map = m; world = (bitmap_write f m st.world).0 }, simp (all, done, open_file), s)
