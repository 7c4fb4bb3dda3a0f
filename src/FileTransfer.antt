-- ===== src/FileTransfer.antt =====
-- The calculator server and client of module3/13/src that can send a file: tcp_server.c and tcp_client.c. What
-- arrives at a socket is the list of the pieces in which it arrives, none of them empty; at its end the other
-- side has closed. Writes to the socket and to the disk are taken to succeed on the server's side.
mod Sizes
mod Contents
mod Rounds
mod Examples
use eltex_summer.Base.{
  ℕ, zero, suc, ◌+◌, ◌-◌, ◌*◌, ◌/◌, ◌%◌, ◌^◌, Bool, true, false, Option, none, some, List, [], ◌∷◌,
  ◌++◌, ltb, leb, ◌==◌, if◌then◌else◌, length, take, drop,
}
use eltex_summer.Base.Int.{ℤ, pos, eqb_ℤ, ◌+ℤ◌, ◌-ℤ◌, ◌*ℤ◌, quot}
use eltex_summer.Text.{Text, text_eq}
use eltex_summer.Text.Decimal.{atoi, print_int}

abbrev pub Stream : Type 0
Stream = List Text

abbrev pub buffer_size : ℕ
buffer_size = 1024

abbrev pub filename_length : ℕ
filename_length = 128

-- `read` of at most so many bytes: those of the first piece, whose rest stays.
unfoldable pub read : ℕ → Stream → Text × Stream
read n [] = ([], [])
read n (c ∷ cs) = (take n c, if leb (length c) n then cs else drop n c ∷ cs)

-- A number in memory, the least byte first.
unfoldable pub bytes_of : ℕ → ℕ → Text
bytes_of zero n = []
bytes_of (suc k) n = n % 256 ∷ bytes_of k (n / 256)

unfoldable pub number_of : Text → ℕ
number_of [] = 0
number_of (c ∷ s) = c + 256 * number_of s

-- A buffer as a C string.
unfoldable pub c_string : Text → Text
c_string [] = []
c_string (c ∷ s) = let rest = c_string s in if c == 0 then [] else c ∷ rest

abbrev pub is_empty : Text → Bool
is_empty [] = true
is_empty (c ∷ s) = false

-- The loop that reads the contents, on what is in the file so far.
unfoldable pub recv_contents : ℕ → ℕ → ℕ → Text → Stream → Option (Text × Stream)
recv_contents zero total size file s = none
recv_contents (suc f) total size file s =
    let (b, s') = read buffer_size s in
    let rest = recv_contents f (total + length b) size (file ++ b) s' in
    if ltb total size then (if is_empty b then some (file, s') else rest) else some (file, s)

-- `off_t` is signed.
abbrev pub file_size_of : Text → ℕ
file_size_of b = let n = number_of b in if ltb n (2 ^ 63) then n else 0

-- A file that is stored: its name and its contents.
abbrev pub File : Type 0
File = Text × Text

abbrev pub stored : Text → Option (Text × Stream) → Option (Option File × Stream)
stored name none = none
stored name (some (file, s)) = some (some (name, file), s)

-- `recv_file`: `none` where it reads bytes that were never set, or writes behind `filename`.
unfoldable pub recv_file : Stream → Option (Option File × Stream)
unfolding recv_contents
recv_file s0 =
    let (l, s1) = read 8 s0 in
    let len = number_of l in
    let (name, s2) = read len s1 in
    let (z, s3) = read 8 s2 in
    let size = file_size_of z in
    if is_empty l
    then some (none, s1)
    else if ltb (length l) 8
    then none
    else if leb filename_length len
    then none
    else if is_empty name
    then some (none, s2)
    else if is_empty z
    then some (none, s3)
    else if ltb (length z) 8
    then none
    else stored (c_string name) (recv_contents (suc size) 0 size [] s3)

-- The loop that sends the contents; `sent` says how many of the bytes `send` takes, 0 for an error.
unfoldable pub send_contents : ℕ → (ℕ → ℕ → ℕ) → ℕ → ℕ → Text → Stream
send_contents zero sent total size rest = []
send_contents (suc f) sent total size rest =
    let chunk = take buffer_size rest in
    let k = sent total (length chunk) in
    let more = send_contents f sent (total + k) size (drop buffer_size rest) in
    if ltb total size
    then (if is_empty chunk then [] else if k == 0 then [] else take k chunk ∷ more)
    else []

-- What `send_file` sends for a file that can be opened; its name is a string.
unfoldable pub send_file : (ℕ → ℕ → ℕ) → Text → Text → Stream
unfolding send_contents
send_file sent name file =
    bytes_of 8 (length name)
    ∷ name
    ∷ bytes_of 8 (length file)
    ∷ send_contents (suc (length file)) sent 0 (length file) file

-- `str1`, `str2`, `str3`, or a result line.
pub data Message : Type 0 where
  first_prompt second_prompt menu : Message
  result : Text → Message

abbrev pub exit_line : Text
exit_line = b'e' ∷ b'x' ∷ b'i' ∷ b't' ∷ 10 ∷ []

abbrev pub file_line : Text
file_line = b'f' ∷ b'i' ∷ b'l' ∷ b'e' ∷ 10 ∷ []

-- The search through `ops`: without a symbol that fits `a` stays. A division by 0 ends the process. What leaves
-- the range of `int`, which C leaves undefined, is given as it is; the theorem on results has the range as
-- a hypothesis.
abbrev pub operate : ℕ → ℤ → ℤ → Option ℤ
operate op a b =
    if op == b'+'
    then some (a +ℤ b)
    else if op == b'-'
    then some (a -ℤ b)
    else if op == b'*'
    then some (a *ℤ b)
    else if op == b'/'
    then (if eqb_ℤ b (pos 0) then none else some (quot a b))
    else some a

abbrev pub first_byte : Text → ℕ
first_byte [] = 0
first_byte (c ∷ s) = c

-- What the server sends, and the files that it stores.
abbrev pub Served : Type 0
Served = Option (List Message × List File)

abbrev pub sends : List Message → Served → Served
sends ms none = none
sends ms (some (out, files)) = some (ms ++ out, files)

abbrev pub stores : Option File → Served → Served
stores none r = r
stores (some f) none = none
stores (some f) (some (out, files)) = some (out, f ∷ files)

abbrev pub after_file : Option (Option File × Stream) → (Stream → Served) → Served
after_file none next = none
after_file (some (f, s)) next = sends (menu ∷ []) (stores f (next s))

abbrev pub after_result : Option ℤ → Served → Served
after_result none next = none
after_result (some z) next =
    sends (menu ∷ first_prompt ∷ second_prompt ∷ result (print_int z (10 ∷ [])) ∷ []) next

-- `handle_client`: the rounds until the client leaves. `none` is a fault, or too little fuel. Each read takes
-- the piece that has arrived, so a line counts as `file` or `exit` only where it is a piece of its own.
unfoldable pub handle_client : ℕ → Stream → Served
handle_client zero s = none
handle_client (suc f) s =
    let (b, s1) = read (20 * 1024 - 1) s in
    let (x, s2) = read (20 * 1024 - 1) s1 in
    let (y, s3) = read (20 * 1024 - 1) s2 in
    let line = c_string b in
    let next = handle_client f s3 in
    if is_empty b
    then some (menu ∷ [], [])
    else if text_eq line exit_line
    then some (menu ∷ [], [])
    else if text_eq line file_line
    then after_file (recv_file s1) (handle_client f)
    else if is_empty x
    then some (menu ∷ first_prompt ∷ [], [])
    else if is_empty y
    then some (menu ∷ first_prompt ∷ second_prompt ∷ [], [])
    else after_result (operate (first_byte b) (atoi (c_string x)) (atoi (c_string y))) next
