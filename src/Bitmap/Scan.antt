-- ===== src/Bitmap/Scan.antt =====
-- `bitmap_scan` and `bitmap_scan_and_flip` of lib/kernel/bitmap.c find the first group of bits.
use cs162proj.Prelude.{
  le→leb, ℕ, zero, suc, ◌+◌, ◌-◌, ◌^◌, ◌≤◌, ◌<◌, ◌≡◌, refl, Option, none, some, Bool, true, false,
  not, ◌&&◌, ◌==◌, leb, if◌then◌else◌, arith, Bool-cases, inl, inr,
}
use cs162proj.Bitmap.{
  Bitmap, bitmap_error, test_bit, bool_eq, scan_loop, bitmap_scan, bitmap_scan_and_flip,
}
use cs162proj.Bitmap.Bits.{IsBitmap}
use cs162proj.Bitmap.Ranges.{
  exists, in_range, IsFilled, bitmap_contains_lem, bitmap_set_multiple_lem,
}

-- The specification: the first of the `n` places from `i` on where a group of `cnt` bits that all
-- have the value starts.
abbrev pub first_group : (ℕ → Bool) → ℕ → ℕ → ℕ → Bool → Option ℕ
first_group f i zero cnt value = none
first_group f i (suc n) cnt value =
    if exists f i cnt (not value) then first_group f (i + 1) n cnt value else some i

abbrev pub place_or_error : Option ℕ → ℕ
place_or_error none = bitmap_error
place_or_error (some i) = i

scan_loop-first :
    (n : ℕ) (b : Bitmap) (i cnt : ℕ) (value : Bool)
    → IsBitmap b
    → i + n ≤ b.bit_cnt - cnt + 1
    → cnt ≤ b.bit_cnt
    → scan_loop b i n cnt value ≡ some (place_or_error (first_group (test_bit b) i n cnt value))
unfolding scan_loop
scan_loop-first zero b i cnt value v h c = refl
scan_loop-first (suc n) b i cnt value v h c =
    rw
      (
        bitmap_contains_lem b i cnt (not value) v (omega arith),
        scan_loop-first n b (i + 1) cnt value v (omega arith) c,
      )
      (ground arith)

-- The places where a group may start.
abbrev pub places : Bitmap → ℕ → ℕ → ℕ
places b start cnt = if leb cnt b.bit_cnt then b.bit_cnt - cnt + 1 - start else 0

-- `bitmap_scan` fails no assertion and returns the first place, or BITMAP_ERROR if there is none.
pub bitmap_scan_lem :
    (b : Bitmap) (start cnt : ℕ) (value : Bool)
    → IsBitmap b
    → start ≤ b.bit_cnt
    → bitmap_scan b start cnt value
      ≡ some (place_or_error (first_group (test_bit b) start (places b start cnt) cnt value))
unfolding bitmap_scan
bitmap_scan_lem b start cnt value v h = elim (Bool-cases (leb cnt b.bit_cnt)) [
  | inr more ↦ rw (le→leb start b.bit_cnt h, more)
  | inl fits ↦ elim (Bool-cases (leb start (b.bit_cnt - cnt + 1))) [
    | inl near ↦
        rw (le→leb start b.bit_cnt h, fits)
          (scan_loop-first (b.bit_cnt - cnt + 1 - start) b start cnt value v (ground arith)
            (ground arith))
    | inr far ↦
        let no_rounds : b.bit_cnt - cnt + 1 - start ≡ 0 = ground arith in
        rw (le→leb start b.bit_cnt h, fits, no_rounds, scan_loop)
  ]
]

not-exists :
    (f : ℕ → Bool) (at n : ℕ) (value : Bool) (j : ℕ)
    → exists f at n value ≡ false
    → (in_range at n j && bool_eq (f j) value) ≡ false
not-exists f at zero value j h = ground arith
not-exists f at (suc n) value j h = elim (Bool-cases (at == j)) [
  | inl here ↦ let e : at ≡ j = ground (arith, here) in rw (← e) (ground (arith, h))
  | inr there ↦ ground (arith, not-exists f (at + 1) n value j (ground (arith, h)), there)
]

-- What the specification finds is a group, and no place before it starts one.
pub record IsFirst (f : ℕ → Bool) (start cnt : ℕ) (value : Bool) (i n : ℕ) : Type 0 where
  pub from : start ≤ i
  pub to : i < start + n
  pub group : (j : ℕ) → (in_range i cnt j && bool_eq (f j) (not value)) ≡ false
  pub first : (k : ℕ) → (in_range start (i - start) k && not (exists f k cnt (not value))) ≡ false

pub first_group-IsFirst :
    (f : ℕ → Bool) (start n cnt : ℕ) (value : Bool) (i : ℕ)
    → first_group f start n cnt value ≡ some i
    → IsFirst f start cnt value i n
first_group-IsFirst f start zero cnt value i h = absurd (ground (arith, h))
first_group-IsFirst f start (suc n) cnt value i h =
    elim (Bool-cases (exists f start cnt (not value))) [
      | inr here ↦
          let e : start ≡ i = ground (arith, h, here) in
          rw (← e) (record {
            from = omega arith;
            to = omega arith;
            group = λ j. not-exists f start cnt (not value) j here;
            first = λ k. ground arith;
          })
      | inl later ↦
          let r = first_group-IsFirst f (start + 1) n cnt value i (ground (arith, h, later)) in
          record {
            from = omega (arith, r.from);
            to = omega (arith, r.to);
            group = r.group;
            first = λ k. first_step f start cnt value i k later r.from (r.first k);
          }
    ]
  where
    first_step :
        (f : ℕ → Bool) (start cnt : ℕ) (value : Bool) (i k : ℕ)
        → exists f start cnt (not value) ≡ true
        → start + 1 ≤ i
        → (in_range (start + 1) (i - (start + 1)) k && not (exists f k cnt (not value))) ≡ false
        → (in_range start (i - start) k && not (exists f k cnt (not value))) ≡ false
    first_step f start cnt value i k later h r = elim (Bool-cases (start == k)) [
      | inl eq ↦ let e : start ≡ k = ground (arith, eq) in rw (← e) (ground (arith, later))
      | inr ne ↦ ground (arith, r, ne)
    ]

-- What `bitmap_scan_and_flip` leaves, for the place that the specification names.
abbrev pub Flipped : Bitmap → ℕ → ℕ → Bool → Option ℕ → Type 0
Flipped b start cnt value none = bitmap_scan_and_flip b start cnt value ≡ some (b, bitmap_error)
Flipped b start cnt value (some i) =
    (b' : Bitmap) × (bitmap_scan_and_flip b start cnt value ≡ some (b', i))
    × (i < 2 ^ 31)
    × IsFirst (test_bit b) start cnt value i (places b start cnt)
    × IsFilled b b' i cnt (not value)

flip_place :
    (b : Bitmap) (start cnt : ℕ) (value : Bool) (o : Option ℕ)
    → IsBitmap b
    → start ≤ b.bit_cnt
    → first_group (test_bit b) start (places b start cnt) cnt value ≡ o
    → Flipped b start cnt value o
unfolding bitmap_scan_and_flip
flip_place b start cnt value none v h eq = rw (bitmap_scan_lem b start cnt value v h, eq)
flip_place b start cnt value (some i) v h eq =
    let r = first_group-IsFirst (test_bit b) start (places b start cnt) cnt value i eq in
    let fits : i + cnt ≤ b.bit_cnt = ground (arith, r.from, r.to) in
    let small : (i == bitmap_error) ≡ false = ground (arith, v.small) in
    let (b', done, s) = bitmap_set_multiple_lem b i cnt (not value) v fits in
    (b', rw (bitmap_scan_lem b start cnt value v h, eq, small, done), omega (arith, v.small), r, s)

-- `bitmap_scan_and_flip` fails no assertion. Where no group of `cnt` bits with the value starts at
-- or behind `start`, it returns BITMAP_ERROR and changes nothing; otherwise it returns the first
-- place where one starts, and gives the other value to the bits of that group and to no other.
pub bitmap_scan_and_flip_lem :
    (b : Bitmap) (start cnt : ℕ) (value : Bool)
    → IsBitmap b
    → start ≤ b.bit_cnt
    → Flipped b start cnt value (first_group (test_bit b) start (places b start cnt) cnt value)
bitmap_scan_and_flip_lem b start cnt value v h =
    flip_place b start cnt value (first_group (test_bit b) start (places b start cnt) cnt value) v h
      refl
