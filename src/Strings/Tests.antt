-- ===== src/Strings/Tests.antt =====
-- Runs of the functions of lib/string.c and their theorems at concrete strings.
use cs162proj.Prelude.{
  ℕ, ◌+◌, ◌-◌, ◌≡◌, refl, List, [], ◌∷◌, none, some, arith, length, get_or, take, drop, ltb,
  if◌then◌else◌,
}
use cs162proj.Strings.{
  Sign, strlen, strnlen, strchr, strcspn, strspn, strpbrk, strrchr_loop, strrchr, memcmp, strcmp,
  memchr, memmove, memset, strlcpy, strstr,
}
use cs162proj.Strings.Tokens.{
  Word, IsWord, text, words_of, IsGap, IsLetters, tokenize, tokenize_lem,
}
use cs162proj.Strings.Copies.{memmove_lem, strlcpy_lem}
use cs162proj.Strings.Searches.{first_match, strstr_lem}
use cs162proj.Path.{c_string}

-- "abca"
abbrev abca : List ℕ
abca = 0x61 ∷ 0x62 ∷ 0x63 ∷ 0x61 ∷ []

find_runs :
    (strchr abca 0x63 ≡ some 2)
    × (strchr abca 0 ≡ some 4)
    × (strchr abca 0x7A ≡ none)
    × (strrchr abca 0x61 ≡ some 3)
    × (memchr abca 0x62 4 ≡ some 1)
    × (strpbrk abca (0x63 ∷ 0x62 ∷ []) ≡ some 1)
unfolding strchr strrchr strrchr_loop memchr strpbrk
find_runs = (refl, refl, refl, refl, refl, refl)

span_runs :
    (strspn abca (0x61 ∷ 0x62 ∷ []) ≡ 2)
    × (strcspn abca (0x63 ∷ []) ≡ 2)
    × (strnlen abca 3 ≡ 3)
    × (strlen abca ≡ 4)
unfolding strspn strcspn strchr strnlen strlen
span_runs = (refl, refl, refl, refl)

compare_runs :
    (strcmp abca (0x61 ∷ 0x62 ∷ []) ≡ Sign.above)
    × (strcmp abca abca ≡ Sign.equal)
    × (memcmp abca (0x61 ∷ 0x7A ∷ []) 2 ≡ some Sign.below)
unfolding strcmp memcmp
compare_runs = (refl, refl, refl)

write_run : memset abca 1 0 2 ≡ 0x61 ∷ 0 ∷ 0 ∷ 0x61 ∷ []
unfolding memset
write_run = refl

-- The pointer that is returned after a move downwards in memory is not the destination.
memmove_result : (memmove abca 0 2 2).1 ≡ 2
unfolding memmove
memmove_result = refl

memmove_example : get_or (memmove abca 1 0 3).0 2 0 ≡ (
    if ltb 2 1
    then get_or abca 2 0
    else if ltb 2 4
    then get_or abca (0 + (2 - 1)) 0
    else get_or abca 2 0)
memmove_example = memmove_lem abca 1 0 3 2 (omega arith)

strlcpy_example :
    (c_string (strlcpy (1 ∷ 2 ∷ 3 ∷ 4 ∷ []) abca 3).0 ≡ some (take (3 - 1) abca))
    × (drop 3 (strlcpy (1 ∷ 2 ∷ 3 ∷ 4 ∷ []) abca 3).0 ≡ drop 3 (1 ∷ 2 ∷ 3 ∷ 4 ∷ []))
    × ((strlcpy (1 ∷ 2 ∷ 3 ∷ 4 ∷ []) abca 3).1 ≡ length abca)
strlcpy_example = strlcpy_lem (1 ∷ 2 ∷ 3 ∷ 4 ∷ []) abca 3 (ground arith) (omega arith) (omega arith)

-- The word "ab" and the two delimiters behind it.
abbrev ab : Word
ab = record { first = 0x61; others = 0x62 ∷ []; stop = 0x20; gap = 0x20 ∷ [] }

ab-IsWord : IsWord (0x20 ∷ []) ab
unfolding strchr
ab-IsWord = record { letters = (refl, (refl, tt)); stopped = refl; gap_lem = (refl, tt) }

blank : IsGap (0x20 ∷ []) (0x20 ∷ [])
unfolding strchr
blank = (refl, tt)

letter : IsLetters (0x20 ∷ []) (0x63 ∷ [])
unfolding strchr
letter = (refl, tt)

tokenize_example :
    tokenize 3 (text (0x20 ∷ []) (ab ∷ []) (0x63 ∷ [])) (0x20 ∷ [])
    ≡ some (words_of (ab ∷ []) (0x63 ∷ []))
tokenize_example =
    tokenize_lem (0x20 ∷ []) (ab ∷ []) (0x20 ∷ []) (0x63 ∷ []) 3 blank (ab-IsWord, tt) letter
      (omega arith)

strstr_example : strstr abca (0x62 ∷ 0x63 ∷ []) ≡ first_match abca (0x62 ∷ 0x63 ∷ [])
strstr_example = strstr_lem abca (0x62 ∷ 0x63 ∷ [])
