-- ===== src/Inode/Sample.antt =====
-- A file on memory for the runs of filesys/inode.c and of what stands on it.
use cs162proj.Prelude.{
  ℕ, zero, suc, ◌-◌, ◌%◌, ◌≤◌, ◌<◌, ◌≡◌, ◌⊎◌, refl, List, ◌∷◌, ◌++◌, some, false, arith, replicate,
  All, subst, sym, ◌∙◌, ◌==◌, if◌then◌else◌, inl, inr, length,
}
use cs162proj.Block.{Disks, IsUsable}
use cs162proj.Block.RamDisk.{ram}
use cs162proj.Buffer.{Buffer}
use cs162proj.Buffer.Invariant.{IsValid}
use cs162proj.Buffer.Empty.{empty, empty-IsValid}
use cs162proj.Inode.{dir_len, per_sector, Inode, nth}
use cs162proj.Inode.Blocks.{nth-left, nth-right, All-nth, concat_map}
use cs162proj.Inode.Index.{table, flat}
use cs162proj.Inode.Reading.{IsFile}

-- Every word of sector 0 is INODE_MAGIC, which is no sector; sector 10 is the table 6, 7, 0, 0, ...
abbrev byte_of : ℕ → ℕ → ℕ
byte_of s i =
    if s == 0
    then (if i % 4 == 0
        then 0x44
        else if i % 4 == 1
        then 0x4F
        else if i % 4 == 2
        then 0x4E
        else 0x49)
    else if s == 10
    then (if i == 0 then 6 else if i == 4 then 7 else 0)
    else s

abbrev formatted : Disks ram
unfolding ram
formatted = record { dev = λ b s i. byte_of s i; read_cnt = λ b. 0; write_cnt = λ b. 0 }

abbrev pub start : Buffer ram
unfolding ram
start = empty ram formatted

pub start-IsValid : IsValid ram start
unfolding ram
start-IsValid = empty-IsValid ram formatted

-- A file of 125 sectors: all direct sectors are sector 5, the first table is sector 10, and the
-- pointers behind the end of the file are 0.
abbrev pub notes : Inode
notes = record {
  sector = 9;
  open_cnt = 1;
  removed = false;
  deny_write_cnt = 0;
  disk_inode = record {
    file_size = 63676;
    magic = 0x494E4F44;
    dir = replicate dir_len 5;
    single_0 = 10;
    single_1 = 0;
    double_indir = 0;
  };
}

All-replicate {κ} : (P : ℕ → Type κ) (n x : ℕ) → P x → All P (replicate n x)
All-replicate P zero x h = tt
All-replicate P (suc n) x h = (h, All-replicate P n x h)

usable : (s : ℕ) → s < 1000 → IsUsable ram 0 s
unfolding ram
usable s h = ground arith

first_table : table ram 0 start 10 ≡ 6 ∷ 7 ∷ replicate 126 0
unfolding ram
first_table = refl

IsUsable-table : All (IsUsable ram 0) (table ram 0 start 10)
IsUsable-table = subst (All (IsUsable ram 0)) (sym first_table) (
  usable 6 (omega arith),
  (usable 7 (omega arith), All-replicate (IsUsable ram 0) 126 0 (usable 0 (omega arith))),
)

length-first_table : length (table ram 0 start 10) ≡ per_sector
unfolding ram
length-first_table = refl

sectors_used :
    (i s : ℕ) → i < 125 → nth (flat ram 0 start notes.disk_inode) i ≡ some s → IsUsable ram 0 s
sectors_used i s h found =
    let P = IsUsable ram 0 in
    let t = table ram 0 start in
    let direct : List ℕ = replicate dir_len 5 in
    let others = t 0 ++ concat_map t (t 0) in
    let near : (i < dir_len) ⊎ (dir_len ≤ i) = omega arith in
    elim near [
      | inl a ↦
          All-nth P direct i s (All-replicate P dir_len 5 (usable 5 (omega arith)))
            (sym (nth-left direct (t 10 ++ others) i (omega arith)) ∙ found)
      | inr b ↦ All-nth P (t 10) (i - dir_len) s IsUsable-table (
          sym (
            nth-right direct (t 10 ++ others) (i - dir_len) i (omega arith)
            ∙ nth-left (t 10) others (i - dir_len) (omega (arith, length-first_table)))
          ∙ found)
    ]

pub notes-IsFile : IsFile ram 0 start notes.disk_inode
notes-IsFile = record {
  sound = record {
    full = refl;
    first = λ h. usable 10 (omega arith);
    second = λ h. absurd (omega arith);
    double = λ h. absurd (omega arith);
    inner = λ q id h found. absurd (omega arith);
  };
  sectors = sectors_used;
  fits = omega arith;
}
