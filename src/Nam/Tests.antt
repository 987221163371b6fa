-- ===== src/Nam/Tests.antt =====
-- device/nam on a small table.
use os_xinu.Prelude.{
  ◌==◌, ◌≢◌, All, false, ℕ, List, [], ◌∷◌, ◌++◌, ◌≡◌, some, refl, arith, replicate, zero, suc,
}
use os_xinu.Nam.{written, NmEntry, NameSpace, nammap, namrepl, mount}
use os_xinu.Nam.Replace.{strip, Mapping, Table, Answer, find}
use os_xinu.Nam.Mount.{Mounted, mount_lem}
use os_xinu.Nam.Map.{nammap_lem}
use os_xinu.Nam.Long.{namrepl_long}

-- "d/" leads to the device 3, "n" to the name space 9, and any other name, behind an "r", to 7.
abbrev mappings : List Mapping
mappings = (100 ∷ 47 ∷ [], [], 3) ∷ (110 ∷ [], 100 ∷ 47 ∷ [], 9) ∷ ([], 114 ∷ [], 7) ∷ []

abbrev blank : NmEntry
blank = record { nprefix = replicate 64 0; nreplace = replicate 96 0; ndevice = 0 }

abbrev entry : List ℕ → List ℕ → ℕ → NmEntry
entry p r d = record { nprefix = p ++ (0 ∷ []); nreplace = r ++ (0 ∷ []); ndevice = d }

abbrev space : NameSpace
space = record {
  nametab =
      entry (100 ∷ 47 ∷ []) [] 3
      ∷ entry (110 ∷ []) (100 ∷ 47 ∷ []) 9
      ∷ entry [] (114 ∷ []) 7
      ∷ replicate 37 blank;
  nnames = 3;
}

table : Table mappings space
table = (
  record {
    prefix = record { nonnull = (refl, (refl, tt)); behind = []; holds = refl };
    replacement = record { nonnull = tt; behind = []; holds = refl };
    short = omega arith;
    device = refl;
  },
  (
    record {
      prefix = record { nonnull = (refl, tt); behind = []; holds = refl };
      replacement = record { nonnull = (refl, (refl, tt)); behind = []; holds = refl };
      short = omega arith;
      device = refl;
    },
    (
      record {
        prefix = record { nonnull = tt; behind = []; holds = refl };
        replacement = record { nonnull = (refl, tt); behind = []; holds = refl };
        short = omega arith;
        device = refl;
      },
      tt,
    ),
  ),
)

abbrev buffer : List ℕ
buffer = replicate 256 0

abbrev name : List ℕ
name = 100 ∷ 47 ∷ 120 ∷ []

not_back : (cs : List ℕ) → find mappings name ≢ some (cs, 9)
unfolding find strip
not_back cs q = absurd (ground (arith, q))

nammap_example :
    Answer (find mappings name) buffer (nammap space buffer (name ++ (0 ∷ [])) buffer 9)
nammap_example =
    nammap_lem mappings space buffer name [] buffer 9 table (refl, (refl, (refl, tt))) (omega arith)
      refl refl (omega arith) not_back

mount_example :
    Mounted mappings (47 ∷ [], 120 ∷ [], 4) (mount 10 space (47 ∷ 0 ∷ []) (120 ∷ 0 ∷ []) 4)
mount_example =
    mount_lem 10 mappings space (47 ∷ []) (120 ∷ []) [] [] 4 (record { table = table; size = refl })
      (refl, tt) (refl, tt) (omega arith) (omega arith) (omega arith) (omega arith) (omega arith)

long_name : (n : ℕ) → All (λ ch. (ch == 0) ≡ false) (replicate n 97)
long_name zero = tt
long_name (suc n) = (refl, long_name n)

stripped : strip [] (replicate 255 97) ≡ some (replicate 255 97)
unfolding strip
stripped = refl

abbrev one : NameSpace
one = record { nametab = entry [] (114 ∷ []) 7 ∷ replicate 39 blank; nnames = 1 }

namrepl_long_example :
    namrepl one (replicate 255 97 ++ (0 ∷ [])) buffer ≡ some (written (114 ∷ []) buffer, 7)
namrepl_long_example =
    namrepl_long ([], 114 ∷ [], 7) [] one (replicate 255 97) [] buffer (replicate 255 97)
      (
        record {
          prefix = record { nonnull = tt; behind = []; holds = refl };
          replacement = record { nonnull = (refl, tt); behind = []; holds = refl };
          short = omega arith;
          device = refl;
        },
        tt,
      )
      (long_name 255) stripped refl refl
