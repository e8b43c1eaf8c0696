-- ===== src/Directory/Tests.antt =====
-- The theorem on filesys/directory.c at a directory of two entries on memory.
use cs162proj.Prelude.{
  ℕ, zero, suc, ◌+◌, ◌/◌, ◌%◌, ◌<◌, ◌≡◌, refl, [], ◌∷◌, All, some, true, false, ◌&&◌, ◌==◌,
  if◌then◌else◌, arith, replicate,
}
use cs162proj.Block.{IsUsable}
use cs162proj.Block.RamDisk.{ram}
use cs162proj.Buffer.{Buffer}
use cs162proj.Buffer.Invariant.{IsValid}
use cs162proj.Buffer.Empty.{empty, empty-IsValid}
use cs162proj.Inode.{nth}
use cs162proj.Inode.Index.{Keeps, flat}
use cs162proj.Inode.Reading.{IsFile}
use cs162proj.Directory.{Dir, entry_of, lookup, entry_lookup}
use cs162proj.Directory.Lookup.{entries, first, named, same_kind, IsNamed, lookup_lem}

-- Sector 11 holds the file "a" in sector 20 and the directory "b" in sector 20; sector 0 is no table.
abbrev byte_of : ℕ → ℕ → ℕ
byte_of s i =
    if s == 11
    then (if i % 48 == 0
        then 20
        else if i % 48 == 4
        then 97 + i / 48
        else if i % 48 == 19
        then 1
        else if i % 48 == 20
        then i / 48
        else 0)
    else 255

abbrev start : Buffer ram
unfolding ram
start = empty ram (record { dev = λ b s i. byte_of s i; read_cnt = λ b. 0; write_cnt = λ b. 0 })

start-IsValid : IsValid ram start
unfolding ram
start-IsValid =
    empty-IsValid ram (record { dev = λ b s i. byte_of s i; read_cnt = λ b. 0; write_cnt = λ b. 0 })

abbrev home : Dir
home = record {
  inode = record {
    sector = 10;
    open_cnt = 1;
    removed = false;
    deny_write_cnt = 0;
    disk_inode = record {
      file_size = 96;
      magic = 0x494E4F44;
      dir = 11 ∷ replicate 122 0;
      single_0 = 0;
      single_1 = 0;
      double_indir = 0;
    };
  };
  pos = 0;
  is_remove = false;
}

sectors_used :
    (i s : ℕ) → i < 1 → nth (flat ram 0 start home.inode.disk_inode) i ≡ some s → IsUsable ram 0 s
unfolding ram
sectors_used zero s h found = let is_s : 11 ≡ s = cc in rw (← is_s) (refl, refl)
sectors_used (suc i) s h found = absurd (omega arith)

home-IsFile : IsFile ram 0 start home.inode.disk_inode
home-IsFile = record {
  sound = record {
    full = refl;
    first = λ h. absurd (omega arith);
    second = λ h. absurd (omega arith);
    double = λ h. absurd (omega arith);
    inner = λ q id h found. absurd (omega arith);
  };
  sectors = sectors_used;
  fits = omega arith;
}

home_names : All IsNamed (entries ram 0 start home.inode.disk_inode)
unfolding ram entry_of
home_names = ((λ on. (97 ∷ [], refl)), ((λ on. (98 ∷ [], refl)), tt))

lookup_example :
    ((st' : Buffer ram) × (lookup ram 0 3 home (98 ∷ []) start
        ≡ some (st', first (named (98 ∷ [])) 0 (entries ram 0 start home.inode.disk_inode)))
      × Keeps ram 0 start st')
    × ((st' : Buffer ram) × (entry_lookup ram 0 3 home (98 ∷ []) true start
          ≡ some (
            st',
            first
                (λ e. same_kind true e && named (98 ∷ []) e)
                0
                (entries ram 0 start home.inode.disk_inode),
          ))
        × Keeps ram 0 start st')
lookup_example =
    lookup_lem ram 0 start home (98 ∷ []) true 3 start-IsValid home-IsFile home_names (omega arith)
