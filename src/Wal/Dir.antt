-- ===== src/Wal/Dir.antt =====
-- The WAL directory: the segment files by id, in ascending order, as `list_segments` returns them.
pub mod Laws
use zradar.Base.{
  ℕ, zero, suc, ◌+◌, Option, none, some, List, [], ◌∷◌, ◌++◌, map, ltb, ◌==◌, if◌then◌else◌,
}
use zradar.Base.Bytes.{Bytes}

abbrev pub Dir : Type 0
Dir = List (ℕ × Bytes)

-- `list_segments`
unfoldable pub list_segments : Dir → List ℕ
list_segments [] = []
list_segments ((j, b) ∷ d) = j ∷ list_segments d

unfoldable pub get_file : ℕ → Dir → Option Bytes
get_file id [] = none
get_file id ((j, b) ∷ d) = if j == id then some b else get_file id d

-- Create or overwrite a file.
unfoldable pub put_file : ℕ → Bytes → Dir → Dir
put_file id b [] = (id, b) ∷ []
put_file id b ((j, c) ∷ d) =
    if j == id
    then (id, b) ∷ d
    else if ltb id j
    then (id, b) ∷ (j, c) ∷ d
    else (j, c) ∷ put_file id b d

-- `write_all` at the end of a file that is open. A file that was deleted stays deleted.
unfoldable pub append_file : ℕ → Bytes → Dir → Dir
append_file id b [] = []
append_file id b ((j, c) ∷ d) = if j == id then (j, c ++ b) ∷ d else (j, c) ∷ append_file id b d

-- `remove_file`
unfoldable pub remove_file : ℕ → Dir → Dir
remove_file id [] = []
remove_file id ((j, b) ∷ d) = if j == id then d else (j, b) ∷ remove_file id d
