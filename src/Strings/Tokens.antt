-- ===== src/Strings/Tokens.antt =====
-- `strtok_r` of lib/string.c, called until it gives no token, against the words of a string.
use cs162proj.Prelude.{
  ℕ, zero, suc, ◌+◌, ◌≤◌, ◌≡◌, refl, ap, ◌∙◌, List, [], ◌∷◌, ◌++◌, Option, none, some, Bool, true,
  false, arith, length, All, ◌>>=◌,
}
use cs162proj.Strings.{strchr, is_found, skip_delimiters, take_token, strtok_r}

-- What the loop does with the result of a call; `again` is the rest of the loop.
abbrev pub after_token :
    (List ℕ → Option (List (List ℕ))) → Option (List ℕ) × List ℕ → Option (List (List ℕ))
after_token again (none, saved) = some []
after_token again (some t, saved) = again saved >>= λ ts. some (t ∷ ts)

-- The loop of the usage that the comment of `strtok_r` shows. `none` is fuel that is used up.
abbrev pub tokenize : ℕ → List ℕ → List ℕ → Option (List (List ℕ))
tokenize zero s delimiters = none
tokenize (suc fuel) s delimiters =
    after_token (λ saved. tokenize fuel saved delimiters) (strtok_r s delimiters)

-- A word, the delimiter that ends it, and the other delimiters before the next word.
pub record Word : Type 0 where
  pub first : ℕ
  pub others : List ℕ
  pub stop : ℕ
  pub gap : List ℕ

-- A string of words: delimiters, the words, and at the end a word that no delimiter follows, or none.
abbrev pub text : List ℕ → List Word → List ℕ → List ℕ
text gap [] final = gap ++ final
text gap (w ∷ ws) final = gap ++ (w.first ∷ (w.others ++ (w.stop ∷ text w.gap ws final)))

abbrev pub final_words : List ℕ → List (List ℕ)
final_words [] = []
final_words (c ∷ s) = (c ∷ s) ∷ []

abbrev pub words_of : List Word → List ℕ → List (List ℕ)
words_of [] final = final_words final
words_of (w ∷ ws) final = (w.first ∷ w.others) ∷ words_of ws final

module _ (delimiters : List ℕ) where
  abbrev pub is_delimiter : ℕ → Bool
  is_delimiter c = is_found (strchr delimiters c)

  abbrev pub IsGap : List ℕ → Type 0
  IsGap = All (λ c. is_delimiter c ≡ true)

  abbrev pub IsLetters : List ℕ → Type 0
  IsLetters = All (λ c. is_delimiter c ≡ false)

  pub record IsWord (w : Word) : Type 0 where
    pub letters : IsLetters (w.first ∷ w.others)
    pub stopped : is_delimiter w.stop ≡ true
    pub gap_lem : IsGap w.gap

  skip-gap :
      (gap : List ℕ) (c : ℕ) (s : List ℕ)
      → IsGap gap
      → is_delimiter c ≡ false
      → skip_delimiters (gap ++ (c ∷ s)) delimiters ≡ c ∷ s
  unfolding skip_delimiters
  skip-gap [] c s g l = rw l refl
  skip-gap (x ∷ gap) c s g l = rw g.0 (skip-gap gap c s g.1 l)

  skip_all : (gap : List ℕ) → IsGap gap → skip_delimiters (gap ++ []) delimiters ≡ []
  unfolding skip_delimiters
  skip_all [] g = refl
  skip_all (x ∷ gap) g = rw g.0 (skip_all gap g.1)

  take-word :
      (word : List ℕ) (stop : ℕ) (s : List ℕ)
      → IsLetters word
      → is_delimiter stop ≡ true
      → take_token (word ++ (stop ∷ s)) delimiters ≡ (word, s)
  unfolding take_token
  take-word [] stop s l d = rw d refl
  take-word (c ∷ word) stop s l d = rw (l.0, take-word word stop s l.1 d) refl

  take-final : (word : List ℕ) → IsLetters word → take_token word delimiters ≡ (word, [])
  unfolding take_token
  take-final [] l = refl
  take-final (c ∷ word) l = rw (l.0, take-final word l.1) refl

  -- One call that finds a token.
  token_found :
      (s token saved : List ℕ) (c : ℕ) (rest : List ℕ)
      → skip_delimiters s delimiters ≡ c ∷ rest
      → take_token (c ∷ rest) delimiters ≡ (token, saved)
      → strtok_r s delimiters ≡ (some token, saved)
  unfolding strtok_r
  token_found s token saved c rest e f = rw (e, strtok_r, f) refl

  token_missing :
      (s : List ℕ) → skip_delimiters s delimiters ≡ [] → strtok_r s delimiters ≡ (none, [])
  unfolding strtok_r
  token_missing s e = rw (e, strtok_r) refl

  tokenize_found :
      (fuel : ℕ) (s token saved : List ℕ) (ts : List (List ℕ))
      → strtok_r s delimiters ≡ (some token, saved)
      → tokenize fuel saved delimiters ≡ some ts
      → tokenize (suc fuel) s delimiters ≡ some (token ∷ ts)
  tokenize_found fuel s token saved ts e f =
      ap (after_token (λ x. tokenize fuel x delimiters)) e
      ∙ ap (λ o. o >>= λ ts. some (token ∷ ts)) f

  tokenize_stops :
      (fuel : ℕ) (s : List ℕ)
      → strtok_r s delimiters ≡ (none, [])
      → tokenize (suc fuel) s delimiters ≡ some []
  tokenize_stops fuel s e = ap (after_token (λ x. tokenize fuel x delimiters)) e

  -- The calls give the words of the string, in their order and without empty ones, whatever
  -- delimiters stand before, between and behind them; then they give a null pointer. Two calls more
  -- than there are words with a delimiter behind them are enough.
  pub tokenize_lem :
      (ws : List Word) (gap final : List ℕ) (fuel : ℕ)
      → IsGap gap
      → All IsWord ws
      → IsLetters final
      → length ws + 2 ≤ fuel
      → tokenize fuel (text gap ws final) delimiters ≡ some (words_of ws final)
  tokenize_lem [] gap final zero g w l enough = absurd (omega arith)
  tokenize_lem [] gap [] (suc fuel) g w l enough =
      tokenize_stops fuel (gap ++ []) (token_missing (gap ++ []) (skip_all gap g))
  tokenize_lem [] gap (c ∷ final) (suc zero) g w l enough = absurd (omega arith)
  tokenize_lem [] gap (c ∷ final) (suc (suc fuel)) g w l enough =
      tokenize_found (suc fuel) (gap ++ (c ∷ final)) (c ∷ final) [] []
        (token_found (gap ++ (c ∷ final)) (c ∷ final) [] c final (skip-gap gap c final g l.0)
          (take-final (c ∷ final) l))
        (tokenize_stops fuel [] (token_missing [] (skip_all [] tt)))
  tokenize_lem (w ∷ ws) gap final zero g o l enough = absurd (omega arith)
  tokenize_lem (w ∷ ws) gap final (suc fuel) g o l enough =
      let rest = text w.gap ws final in
      let word = w.first ∷ w.others in
      let tail = w.others ++ (w.stop ∷ rest) in
      tokenize_found fuel (gap ++ (w.first ∷ tail)) word rest (words_of ws final)
        (token_found (gap ++ (w.first ∷ tail)) word rest w.first tail
          (skip-gap gap w.first tail g o.0.letters.0)
          (take-word word w.stop rest o.0.letters o.0.stopped))
        (tokenize_lem ws w.gap final fuel o.0.gap_lem o.1 l (omega arith))
