-- ===== src/Wal/Dir/Laws.antt =====
-- The directory with its newest file at the end.
use zradar.Base.{ℕ, ◌≤◌, ◌<◌, ◌≡◌, refl, some, [], ◌∷◌, ◌++◌, arith}
use zradar.Base.Bytes.{Bytes}
use zradar.Wal.Dir.{Dir, get_file, put_file, append_file}

abbrev pub AllBelow : ℕ → Dir → Type 0
AllBelow id [] = Unit
AllBelow id ((j, b) ∷ d) = (j < id) × AllBelow id d

pub AllBelow-mono : (m n : ℕ) (d : Dir) → m ≤ n → AllBelow m d → AllBelow n d
AllBelow-mono m n [] h a = tt
AllBelow-mono m n ((j, b) ∷ d) h a = (omega arith, AllBelow-mono m n d h a.1)

pub AllBelow-append :
    (id j : ℕ) (b : Bytes) (d : Dir) → j < id → AllBelow id d → AllBelow id (d ++ (j, b) ∷ [])
AllBelow-append id j b [] h a = (h, tt)
AllBelow-append id j b ((k, c) ∷ d) h a = (a.0, AllBelow-append id j b d h a.1)

pub put_file_new :
    (id : ℕ) (b : Bytes) (d : Dir) → AllBelow id d → put_file id b d ≡ d ++ (id, b) ∷ []
unfolding put_file
put_file_new id b [] a = refl
put_file_new id b ((j, c) ∷ d) a = ground (arith, put_file_new id b d a.1)

pub append_file_last :
    (id : ℕ) (b c : Bytes) (d : Dir)
    → AllBelow id d
    → append_file id b (d ++ (id, c) ∷ []) ≡ d ++ (id, c ++ b) ∷ []
unfolding append_file
append_file_last id b c [] a = ground arith
append_file_last id b c ((j, e) ∷ d) a = ground (arith, append_file_last id b c d a.1)

pub get_file_last :
    (id : ℕ) (c : Bytes) (d : Dir) → AllBelow id d → get_file id (d ++ (id, c) ∷ []) ≡ some c
unfolding get_file
get_file_last id c [] a = ground arith
get_file_last id c ((j, e) ∷ d) a = ground (arith, get_file_last id c d a.1)
