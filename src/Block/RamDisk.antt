-- ===== src/Block/RamDisk.antt =====
-- Memory that meets `Driver`: every byte of every sector of every device is a value of a function.
use cs162proj.Prelude.{
  ℕ, zero, suc, ◌≡◌, refl, ap, List, [], ◌∷◌, false, length, get_or, if◌then◌else◌, Bool-cases, inl,
  inr, ◌∙◌, sym,
}
use cs162proj.Block.{Driver, sector_size, same}

abbrev pub tabulate : ℕ → (ℕ → ℕ) → List ℕ
tabulate zero f = []
tabulate (suc n) f = f 0 ∷ tabulate n (λ i. f (suc i))

pub length-tabulate : (n : ℕ) (f : ℕ → ℕ) → length (tabulate n f) ≡ n
length-tabulate zero f = refl
length-tabulate (suc n) f = ap suc (length-tabulate n (λ i. f (suc i)))

tabulate-get_or : (c : List ℕ) → tabulate (length c) (λ i. get_or c i 0) ≡ c
tabulate-get_or [] = refl
tabulate-get_or (x ∷ c) = ap (λ l. x ∷ l) (tabulate-get_or c)

abbrev pub Ram : Type 0
Ram = ℕ → ℕ → ℕ → ℕ

abbrev pub read : Ram → ℕ → ℕ → List ℕ
read m b s = tabulate sector_size (m b s)

abbrev pub write : Ram → ℕ → ℕ → List ℕ → Ram
write m b s c b' s' i = if same b s b' s' then get_or c i 0 else m b' s' i

pub read-write :
    (m : Ram) (b s : ℕ) (c : List ℕ) (b' s' : ℕ)
    → length c ≡ sector_size
    → read (write m b s c) b' s' ≡ (if same b s b' s' then c else read m b' s')
read-write m b s c b' s' n = elim (Bool-cases (same b s b' s')) [
  | inl eq ↦ rw eq (ap (λ k. tabulate k (λ i. get_or c i 0)) (sym n) ∙ tabulate-get_or c)
  | inr ne ↦ rw ne
]

-- Devices of 1000 sectors.
unfoldable pub ram : Driver
ram = record {
  Dev = Ram;
  size = λ b. 1000;
  is_foreign = λ b. false;
  read = read;
  write = write;
  length-read = λ m b s. length-tabulate sector_size (m b s);
  read-write = read-write;
}
