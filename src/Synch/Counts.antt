-- ===== src/Synch/Counts.antt =====
-- How many of the threads below a bound a Boolean test holds for.
use cs162proj.Prelude.{
  ℕ, zero, suc, ◌+◌, ◌≤◌, ◌<◌, ◌≡◌, ◌≢◌, refl, Bool, true, false, arith, ap, sym, ◌∙◌, ◌==◌, ==_iff,
  ==_apart, Bool-cases, inl, inr,
}

abbrev pub bit : Bool → ℕ
bit true = 1
bit false = 0

pub count : (ℕ → Bool) → ℕ → ℕ
count p zero = 0
count p (suc n) = count p n + bit (p n)

pub count-same : (p q : ℕ → Bool) (n : ℕ) → ((t : ℕ) → t < n → p t ≡ q t) → count p n ≡ count q n
unfolding count
count-same p q zero h = refl
count-same p q (suc n) h =
    let ih = count-same p q n (λ t l. h t (omega arith)) in
    let here = h n (omega arith) in rw (ih, here) refl

-- The tests differ at one thread only.
pub count-change :
    (p q : ℕ → Bool) (n i : ℕ)
    → i < n
    → ((t : ℕ) → t ≢ i → p t ≡ q t)
    → count q n + bit (p i) ≡ count p n + bit (q i)
unfolding count
count-change p q zero i b h = absurd (omega arith)
count-change p q (suc n) i b h = elim (Bool-cases (i == n)) [
  | inl e ↦
      let same : i ≡ n = (==_iff i n).0 e in
      let rest = count-same p q n (λ t l. h t (λ k. absurd (omega arith))) in
      omega (arith, rest, ap (λ k. bit (p k)) same, ap (λ k. bit (q k)) same)
  | inr e ↦
      let other = ==_apart i n e in
      let below : i < n = omega arith in
      let here = h n (λ k. other (omega arith)) in
      omega (arith, count-change p q n i below h, ap bit here)
]

pub count_none : (p : ℕ → Bool) (n : ℕ) → ((t : ℕ) → p t ≡ false) → count p n ≡ 0
unfolding count
count_none p zero h = refl
count_none p (suc n) h = rw (h n) (omega (arith, count_none p n h))

pub count_some : (p : ℕ → Bool) (n i : ℕ) → i < n → p i ≡ true → 1 ≤ count p n
unfolding count
count_some p zero i b h = absurd (omega arith)
count_some p (suc n) i b h = elim (Bool-cases (i == n)) [
  | inl e ↦ let same : i ≡ n = (==_iff i n).0 e in omega (arith, ap (λ k. bit (p k)) same, ap bit h)
  | inr e ↦ let other = ==_apart i n e in omega (arith, count_some p n i (omega arith) h)
]

-- With a count of one at most there is one such thread at most.
pub count_unique :
    (p : ℕ → Bool) (n i j : ℕ) → count p n ≤ 1 → i < n → j < n → p i ≡ true → p j ≡ true → i ≡ j
unfolding count
count_unique p zero i j c a b e f = absurd (omega arith)
count_unique p (suc n) i j c a b e f = elim (Bool-cases (i == n)) [
  | inl k ↦ elim (Bool-cases (j == n)) [
    | inl m ↦ (==_iff i n).0 k ∙ sym ((==_iff j n).0 m)
    | inr m ↦
        let same : i ≡ n = (==_iff i n).0 k in
        let other = ==_apart j n m in
        let below : j < n = omega arith in
        absurd (omega (arith, count_some p n j below f, ap (λ k. bit (p k)) same, ap bit e))
  ]
  | inr k ↦
      let other = ==_apart i n k in
      let below : i < n = omega arith in
      elim (Bool-cases (j == n)) [
        | inl m ↦
            let same : j ≡ n = (==_iff j n).0 m in
            absurd (omega (arith, count_some p n i below e, ap (λ k. bit (p k)) same, ap bit f))
        | inr m ↦
            let apart = ==_apart j n m in count_unique p n i j (omega arith) below (omega arith) e f
      ]
]

-- A positive count has a thread.
pub count_witness : (p : ℕ → Bool) (n : ℕ) → 1 ≤ count p n → (i : ℕ) × (i < n) × (p i ≡ true)
unfolding count
count_witness p zero h = absurd (omega arith)
count_witness p (suc n) h = elim (Bool-cases (p n)) [
  | inl e ↦ (n, omega arith, e)
  | inr e ↦ let (i, b, f) = count_witness p n (omega (arith, ap bit e)) in (i, omega arith, f)
]
