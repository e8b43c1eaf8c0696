-- ===== src/Buffer/Recency.antt =====
-- The cache of filesys/buffer.c as a list of sectors in order of use, the latest first.
use cs162proj.Prelude.{
  ℕ, zero, suc, ◌+◌, ◌≤◌, ◌≡◌, refl, ap, ◌∙◌, sym, List, [], ◌∷◌, ◌++◌, none, true, false,
  if◌then◌else◌, arith, length, length-append, take, All,
}
use cs162proj.Block.{Driver, same}
use cs162proj.Buffer.{Buffer, SectorCache, Walk, hit, stop, finish, past, walk, matches, cache_size}
use cs162proj.Buffer.Entries.{find, Distinct, Distinct-middle, length-middle}
use cs162proj.Buffer.Invariant.{IsValid}

-- The sectors that the valid entries hold, each as a device and a sector number.
abbrev pub keys : List SectorCache → List (ℕ × ℕ)
keys [] = []
keys (e ∷ es) = if e.valid then (e.block_id, e.sector_id) ∷ keys es else keys es

abbrev pub remove : ℕ → ℕ → List (ℕ × ℕ) → List (ℕ × ℕ)
remove b s [] = []
remove b s ((b', s') ∷ ks) = if same b s b' s' then remove b s ks else (b', s') ∷ remove b s ks

-- The specification: the sector just used comes first, the others keep their order, and the one
-- used longest ago falls out when there are more than 64.
abbrev pub recent : ℕ → ℕ → List (ℕ × ℕ) → List (ℕ × ℕ)
recent b s ks = take cache_size ((b, s) ∷ remove b s ks)

length-keys : (es : List SectorCache) → length (keys es) ≤ length es
length-keys [] = omega arith
length-keys (e ∷ es) = ground (arith, length-keys es)

take_all {ℓ} : {A : Type ℓ} (n : ℕ) (xs : List A) → length xs ≤ n → take n xs ≡ xs
take_all zero [] h = refl
take_all zero (x ∷ xs) h = absurd (omega arith)
take_all (suc n) [] h = refl
take_all (suc n) (x ∷ xs) h = ap (λ l. x ∷ l) (take_all n xs (omega arith))

take-append_exact {ℓ} :
    {A : Type ℓ} (n : ℕ) (xs ys : List A) → length xs ≡ n → take n (xs ++ ys) ≡ xs
take-append_exact zero [] ys h = refl
take-append_exact zero (x ∷ xs) ys h = absurd (omega arith)
take-append_exact (suc n) [] ys h = absurd (omega arith)
take-append_exact (suc n) (x ∷ xs) ys h = ap (λ l. x ∷ l) (take-append_exact n xs ys (omega arith))

remove-absent :
    (b s : ℕ) (es : List SectorCache) → find b s es ≡ none → remove b s (keys es) ≡ keys es
remove-absent b s [] h = refl
remove-absent b s (e ∷ es) h = ground (arith, remove-absent b s es)

keys_invalid :
    (e : SectorCache) (pre post : List SectorCache)
    → e.valid ≡ false
    → keys (pre ++ (e ∷ post)) ≡ keys (pre ++ post)
keys_invalid e [] post off = rw off
keys_invalid e (x ∷ pre) post off = ground (arith, keys_invalid e pre post off)

remove_middle :
    (b s : ℕ) (e : SectorCache) (pre post : List SectorCache)
    → e.valid ≡ true
    → matches b s e ≡ true
    → find b s (pre ++ post) ≡ none
    → remove b s (keys (pre ++ (e ∷ post))) ≡ keys (pre ++ post)
remove_middle b s e [] post on m absent = ground (arith, remove-absent b s post)
remove_middle b s e (x ∷ pre) post on m absent = ground (arith, remove_middle b s e pre post on m)

keys-append_valid :
    (e : SectorCache) (es : List SectorCache)
    → All (λ (x : SectorCache). x.valid ≡ true) es
    → e.valid ≡ true
    → (keys (es ++ (e ∷ [])) ≡ keys es ++ ((e.block_id, e.sector_id) ∷ []))
      × (length (keys es) ≡ length es)
keys-append_valid e [] h on = (rw on, refl)
keys-append_valid e (x ∷ es) h on = ground (arith, keys-append_valid e es h.1 on, h.0)

past-finish : (e : SectorCache) (w : Walk) → past e w ≡ finish → w ≡ finish
unfolding past
past-finish e (hit pre x post) h = cc
past-finish e (stop pre x post) h = cc
past-finish e finish h = refl

-- The walk reaches the end only past valid entries.
walk_valid :
    (b s : ℕ) (es : List SectorCache)
    → walk b s es ≡ finish
    → All (λ (x : SectorCache). x.valid ≡ true) es
unfolding walk
walk_valid b s [] h = tt
walk_valid b s (e ∷ es) h =
    let next : walk b s es ≡ finish = ground (arith, past-finish e (walk b s es)) in
    (ground arith, walk_valid b s es next)

All-front :
    (e : SectorCache) (es : List SectorCache)
    → All (λ (x : SectorCache). x.valid ≡ true) (es ++ (e ∷ []))
    → All (λ (x : SectorCache). x.valid ≡ true) es × (e.valid ≡ true)
All-front e [] h = (tt, h.0)
All-front e (x ∷ es) h = let (rest, last) = All-front e es h.1 in ((h.0, rest), last)

module _ (b s : ℕ) where
  recent_hit :
      (e : SectorCache) (pre post : List SectorCache)
      → Distinct (pre ++ (e ∷ post))
      → length (pre ++ post) + 1 ≡ cache_size
      → e.valid ≡ true
      → matches b s e ≡ true
      → (b, s) ∷ keys (pre ++ post) ≡ recent b s (keys (pre ++ (e ∷ post)))
  recent_hit e pre post apart n on m =
      let absent : find b s (pre ++ post) ≡ none =
        ground (arith, (Distinct-middle e post pre apart).1 on) in
      rw (remove_middle b s e pre post on m absent) (
        sym (
          take_all cache_size ((b, s) ∷ keys (pre ++ post))
            (omega (arith, length-keys (pre ++ post)))))

  recent_stop :
      (e : SectorCache) (pre post : List SectorCache)
      → length (pre ++ post) + 1 ≡ cache_size
      → e.valid ≡ false
      → find b s (pre ++ (e ∷ post)) ≡ none
      → (b, s) ∷ keys (pre ++ post) ≡ recent b s (keys (pre ++ (e ∷ post)))
  recent_stop e pre post n off absent =
      rw (remove-absent b s (pre ++ (e ∷ post)) absent, keys_invalid e pre post off)
        (sym (
          take_all cache_size ((b, s) ∷ keys (pre ++ post))
            (omega (arith, length-keys (pre ++ post)))))

  recent_finish :
      (e : SectorCache) (others : List SectorCache)
      → length others + 1 ≡ cache_size
      → walk b s (others ++ (e ∷ [])) ≡ finish
      → find b s (others ++ (e ∷ [])) ≡ none
      → (b, s) ∷ keys others ≡ recent b s (keys (others ++ (e ∷ [])))
  recent_finish e others n full absent =
      let (on, last) = All-front e others (walk_valid b s (others ++ (e ∷ [])) full) in
      let (split, count) = keys-append_valid e others on last in
      rw (remove-absent b s (others ++ (e ∷ [])) absent, split)
        (sym (
          take-append_exact cache_size ((b, s) ∷ keys others) ((e.block_id, e.sector_id) ∷ [])
            (omega arith)))

-- The same for the list of a valid state, whichever way the walk ends.
module _ (d : Driver) (b s : ℕ) (st : Buffer d) (e : SectorCache) where
  pub order_hit :
      (pre post : List SectorCache)
      → st.open_sectors ≡ pre ++ (e ∷ post)
      → IsValid d st
      → e.valid ≡ true
      → matches b s e ≡ true
      → (b, s) ∷ keys (pre ++ post) ≡ recent b s (keys st.open_sectors)
  order_hit pre post split inv on m = rw split (
      recent_hit b s e pre post (rw split at inv.cache.distinct)
        (sym (length-middle e post pre) ∙ (rw split at inv.count)) on m)

  pub order_stop :
      (pre post : List SectorCache)
      → st.open_sectors ≡ pre ++ (e ∷ post)
      → IsValid d st
      → e.valid ≡ false
      → find b s st.open_sectors ≡ none
      → (b, s) ∷ keys (pre ++ post) ≡ recent b s (keys st.open_sectors)
  order_stop pre post split inv off absent = rw split (
      recent_stop b s e pre post (sym (length-middle e post pre) ∙ (rw split at inv.count)) off
        (rw split at absent))

  pub order_finish :
      (others : List SectorCache)
      → st.open_sectors ≡ others ++ (e ∷ [])
      → IsValid d st
      → walk b s st.open_sectors ≡ finish
      → find b s st.open_sectors ≡ none
      → (b, s) ∷ keys others ≡ recent b s (keys st.open_sectors)
  order_finish others split inv full absent = rw split (
      recent_finish b s e others (sym (length-append others (e ∷ [])) ∙ (rw split at inv.count))
        (rw split at full) (rw split at absent))
