-- ===== src/Inode/Blocks.antt =====
-- Arrays of sector numbers and runs of sectors, as filesys/inode.c reads them.
use cs162proj.Prelude.{
  ℕ, zero, suc, ◌+◌, ◌*◌, ◌≤◌, ◌<◌, ◌≡◌, refl, sym, ap, subst, ◌∙◌, List, [], ◌∷◌, ◌++◌, some,
  arith, length, take, drop, All, bytes_at, length-append,
}
use cs162proj.Block.{sector_size}
use cs162proj.Inode.{per_sector, words, nth}

module _ {ℓ} {A : Type ℓ} where
  pub nth-some : (xs : List A) (i : ℕ) → i < length xs → (x : A) × (nth xs i ≡ some x)
  nth-some [] i h = absurd (omega arith)
  nth-some (x ∷ xs) zero h = (x, refl)
  nth-some (x ∷ xs) (suc i) h = nth-some xs i (omega arith)

  pub nth-left : (xs ys : List A) (i : ℕ) → i < length xs → nth (xs ++ ys) i ≡ nth xs i
  nth-left [] ys i h = absurd (omega arith)
  nth-left (x ∷ xs) ys zero h = refl
  nth-left (x ∷ xs) ys (suc i) h = nth-left xs ys i (omega arith)

  pub nth-right : (xs ys : List A) (i j : ℕ) → j ≡ length xs + i → nth (xs ++ ys) j ≡ nth ys i
  nth-right [] ys i j e = ap (nth ys) (e ∙ omega arith)
  nth-right (x ∷ xs) ys i zero e = absurd (omega arith)
  nth-right (x ∷ xs) ys i (suc j) e = nth-right xs ys i j (omega arith)

  pub All-nth {κ} :
      (P : A → Type κ) (xs : List A) (i : ℕ) (x : A) → All P xs → nth xs i ≡ some x → P x
  All-nth P [] i x h e = ground arith
  All-nth P (y ∷ xs) zero x h e = let same : y ≡ x = ground arith in subst P same h.0
  All-nth P (y ∷ xs) (suc i) x h e = All-nth P xs i x h.1 e

-- The lists of several sectors, one after the other.
abbrev pub concat_map : (ℕ → List ℕ) → List ℕ → List ℕ
concat_map g [] = []
concat_map g (x ∷ xs) = g x ++ concat_map g xs

pub nth-concat_map :
    (g : ℕ → List ℕ) (xs : List ℕ) (q r i x : ℕ)
    → ((x : ℕ) → length (g x) ≡ per_sector)
    → r < per_sector
    → i ≡ q * per_sector + r
    → nth xs q ≡ some x
    → nth (concat_map g xs) i ≡ nth (g x) r
nth-concat_map g [] q r i x w h e f = ground arith
nth-concat_map g (y ∷ xs) zero r i x w h e f =
    let same : y ≡ x = ground arith in
    let start : i ≡ r = omega arith in
    subst (λ z. nth (g y ++ concat_map g xs) i ≡ nth (g z) r) same
      (rw start (nth-left (g y) (concat_map g xs) r (omega (arith, w y))))
nth-concat_map g (y ∷ xs) (suc q) r i x w h e f =
    nth-right (g y) (concat_map g xs) (q * per_sector + r) i (omega (arith, w y))
    ∙ nth-concat_map g xs q r (q * per_sector + r) x w h refl f

pub length-words : (n : ℕ) (bytes : List ℕ) → length bytes ≡ n * 4 → length (words bytes) ≡ n
length-words zero [] h = refl
length-words zero (a ∷ bytes) h = absurd (omega arith)
length-words (suc n) [] h = absurd (omega arith)
length-words (suc n) (a ∷ []) h = absurd (omega arith)
length-words (suc n) (a ∷ b ∷ []) h = absurd (omega arith)
length-words (suc n) (a ∷ b ∷ c ∷ []) h = absurd (omega arith)
length-words (suc n) (a ∷ b ∷ c ∷ e ∷ bytes) h = ap suc (length-words n bytes (omega arith))

pub take-all : (xs : List ℕ) (n : ℕ) → length xs ≡ n → take n xs ≡ xs
take-all [] zero h = refl
take-all [] (suc n) h = refl
take-all (x ∷ xs) zero h = absurd (omega arith)
take-all (x ∷ xs) (suc n) h = ap (λ l. x ∷ l) (take-all xs n (omega arith))

drop-right : (xs ys : List ℕ) (i j : ℕ) → j ≡ length xs + i → drop j (xs ++ ys) ≡ drop i ys
drop-right [] ys i j e = ap (λ k. drop k ys) (e ∙ omega arith)
drop-right (x ∷ xs) ys i zero e = absurd (omega arith)
drop-right (x ∷ xs) ys i (suc j) e = drop-right xs ys i j (omega arith)

take-left : (xs ys : List ℕ) (k : ℕ) → k ≤ length xs → take k (xs ++ ys) ≡ take k xs
take-left xs ys zero h = refl
take-left [] ys (suc k) h = absurd (omega arith)
take-left (x ∷ xs) ys (suc k) h = ap (λ l. x ∷ l) (take-left xs ys k (omega arith))

bytes_at-left :
    (xs ys : List ℕ) (o k : ℕ) → o + k ≤ length xs → bytes_at (xs ++ ys) o k ≡ bytes_at xs o k
bytes_at-left xs ys zero k h = take-left xs ys k (omega arith)
bytes_at-left [] ys (suc o) k h = absurd (omega arith)
bytes_at-left (x ∷ xs) ys (suc o) k h = bytes_at-left xs ys o k (omega arith)

-- A run of bytes inside one of several blocks of a sector's size.
pub bytes_at-concat_map :
    (g : ℕ → List ℕ) (xs : List ℕ) (q r k i x : ℕ)
    → ((x : ℕ) → length (g x) ≡ sector_size)
    → r + k ≤ sector_size
    → i ≡ q * sector_size + r
    → nth xs q ≡ some x
    → bytes_at (concat_map g xs) i k ≡ bytes_at (g x) r k
bytes_at-concat_map g [] q r k i x w h e f = ground arith
bytes_at-concat_map g (y ∷ xs) zero r k i x w h e f =
    let same : y ≡ x = ground arith in
    let start : i ≡ r = omega arith in
    subst (λ z. bytes_at (g y ++ concat_map g xs) i k ≡ bytes_at (g z) r k) same
      (rw start (bytes_at-left (g y) (concat_map g xs) r k (omega (arith, w y))))
bytes_at-concat_map g (y ∷ xs) (suc q) r k i x w h e f =
    ap (take k) (drop-right (g y) (concat_map g xs) (q * sector_size + r) i (omega (arith, w y)))
    ∙ bytes_at-concat_map g xs q r k (q * sector_size + r) x w h refl f

abbrev no_bytes : List ℕ
no_bytes = []

take-nil : (n : ℕ) → take n no_bytes ≡ no_bytes
take-nil zero = refl
take-nil (suc n) = refl

take-append : (xs : List ℕ) (a b c : ℕ) → c ≡ a + b → take a xs ++ take b (drop a xs) ≡ take c xs
take-append xs zero b c e = let same : b ≡ c = omega arith in ap (λ k. take k xs) same
take-append xs (suc a) b zero e = absurd (omega arith)
take-append [] (suc a) b (suc c) e = take-nil b
take-append (x ∷ xs) (suc a) b (suc c) e = ap (λ l. x ∷ l) (take-append xs a b c (omega arith))

drop-drop : (xs : List ℕ) (o a j : ℕ) → j ≡ o + a → drop a (drop o xs) ≡ drop j xs
drop-drop xs zero a j e = let same : a ≡ j = omega arith in ap (λ k. drop k xs) same
drop-drop xs (suc o) a zero e = absurd (omega arith)
drop-drop [] (suc o) zero (suc j) e = refl
drop-drop [] (suc o) (suc a) (suc j) e = refl
drop-drop (x ∷ xs) (suc o) a (suc j) e = drop-drop xs o a j (omega arith)

-- Two runs of bytes that touch are one.
pub bytes_at-append :
    (xs : List ℕ) (o a b c : ℕ)
    → c ≡ a + b
    → bytes_at xs o a ++ bytes_at xs (o + a) b ≡ bytes_at xs o c
bytes_at-append xs o a b c e =
    ap (λ l. take a (drop o xs) ++ take b l) (sym (drop-drop xs o a (o + a) refl))
    ∙ take-append (drop o xs) a b c e

pub length-concat_map :
    (g : ℕ → List ℕ) (n : ℕ) (xs : List ℕ)
    → ((x : ℕ) → length (g x) ≡ n)
    → length (concat_map g xs) ≡ length xs * n
length-concat_map g n [] w = omega arith
length-concat_map g n (x ∷ xs) w =
    length-append (g x) (concat_map g xs) ∙ omega (arith, w x, length-concat_map g n xs w)
