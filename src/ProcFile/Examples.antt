-- ===== src/ProcFile/Examples.antt =====
-- Tests and witnesses of the proc file.
use eltex_summer.Base.{ℕ, ◌≡◌, List, [], ◌∷◌, take, replicate, arith}
use eltex_summer.ProcFile.{Proc, read_proc, write_proc}
use eltex_summer.ProcFile.Reads.{read_proc-twice}

abbrev fresh : Proc
fresh = record { len = 0; temp = 0; msg = replicate 1024 0 }

abbrev abc : List ℕ
abc = b'a' ∷ b'b' ∷ b'c' ∷ []

read_proc-twice_example :
    ((read_proc 2 (write_proc abc fresh).0).1 ≡ take 2 abc)
    × ((read_proc 2 (read_proc 2 (write_proc abc fresh).0).0).1 ≡ take 1 abc)
    × ((read_proc 3 (write_proc abc fresh).0).1 ≡ abc)
    × ((read_proc 3 (read_proc 3 (write_proc abc fresh).0).0).1 ≡ [])
    × ((read_proc 3 (read_proc 3 (read_proc 3 (write_proc abc fresh).0).0).0).1 ≡ abc)
read_proc-twice_example =
    read_proc-twice abc 2 2 3 fresh (omega arith) (omega arith) (omega arith) (omega arith)
