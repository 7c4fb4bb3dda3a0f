-- ===== src/ProcFile.antt =====
-- The file of the kernel module module5/task2/proc.c. That copies between kernel and user succeed is
-- assumed; a reader's or writer's buffer is the list of its bytes.
pub mod Reads
mod Examples
use Prim.Native.Nat.{min}
use eltex_summer.Base.{
  ℕ, ◌-◌, Bool, true, false, List, [], ◌∷◌, ◌++◌, length, take, drop, ltb, ◌==◌, if◌then◌else◌,
}

abbrev pub procfs_max_size : ℕ
procfs_max_size = 1024

-- The module's variables; `temp` is what is left for the reader.
pub record Proc : Type 0 where
  pub len : ℕ
  pub temp : ℕ
  pub msg : List ℕ

abbrev given : ℕ → Proc → Proc × List ℕ
given count p =
    let left = p.temp - count in
    (record p { temp = if count == 0 then p.len else left }, take count p.msg)

-- The bytes for the reader; their number is what the code returns.
unfoldable pub read_proc : ℕ → Proc → Proc × List ℕ
read_proc count p = given (if ltb p.temp count then p.temp else count) p

unfoldable pub write_proc : List ℕ → Proc → Proc × ℕ
write_proc buf p =
    let bytes_to_write = min (length buf) (procfs_max_size - 1) in
    (
      record {
        len = bytes_to_write;
        temp = bytes_to_write;
        msg = take bytes_to_write buf ++ drop bytes_to_write p.msg;
      },
      bytes_to_write,
    )
