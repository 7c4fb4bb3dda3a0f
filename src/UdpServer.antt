-- ===== src/UdpServer.antt =====
-- The counting UDP server of module3/c01/src/server.c: the table of clients and the handling of a
-- packet from the raw socket.
mod Table
mod Replies
mod Examples
use eltex_summer.Base.{
  ℕ, zero, suc, ◌+◌, ◌-◌, ◌*◌, ◌≤◌, Bool, true, false, Option, none, some, List, [], ◌∷◌, ◌++◌, ltb,
  leb, ◌==◌, ◌&&◌, not, ◌||◌, if◌then◌else◌, length, set, take, drop, replicate, modify, ◌>>=◌,
}
use eltex_summer.Text.{Text, text_eq}
use eltex_summer.Text.Decimal.{decimal}

abbrev pub pckt_len : ℕ
pckt_len = 1432

abbrev pub max_clients : ℕ
max_clients = 100

pub record Client : Type 0 where
  pub ip : ℕ
  pub port : ℕ
  pub count : ℕ
  pub active : Bool

unfoldable pub is_at : ℕ → ℕ → Client → Bool
is_at ip port c = c.active && (c.ip == ip) && (c.port == port)

-- The first loop of `find_or_add_client`, and the loop of `remove_client`.
unfoldable pub find_client : ℕ → ℕ → List Client → Option ℕ
find_client ip port [] = none
find_client ip port (c ∷ cs) =
    let rest = find_client ip port cs in
    if is_at ip port c then some 0 else elim rest [ none ↦ none | some i ↦ some (suc i) ]

-- Its second loop.
unfoldable pub idle_slot : List Client → Option ℕ
idle_slot [] = none
idle_slot (c ∷ cs) =
    let rest = idle_slot cs in
    if c.active then elim rest [ none ↦ none | some i ↦ some (suc i) ] else some 0

abbrev pub new_client : ℕ → ℕ → Client
new_client ip port = record { ip = ip; port = port; count = 0; active = true }

-- The slot of the client, and the table; `none` where the code returns NULL.
unfoldable pub find_or_add_client : ℕ → ℕ → List Client → Option (ℕ × List Client)
unfolding find_client idle_slot
find_or_add_client ip port cs = elim (find_client ip port cs) [
  | some i ↦ some (i, cs)
  | none ↦ elim (idle_slot cs) [
    | some i ↦ some (i, modify (λ c. new_client ip port) i cs)
    | none ↦ none
  ]
]

abbrev pub deactivate : Client → Client
deactivate c = record c { active = false }

unfoldable pub remove_client : ℕ → ℕ → List Client → List Client
unfolding find_client
remove_client ip port cs = elim (find_client ip port cs) [
  | some i ↦ modify deactivate i cs
  | none ↦ cs
]

abbrev pub init_clients : List Client → List Client
init_clients [] = []
init_clients (c ∷ cs) = record c { active = false } ∷ init_clients cs

-- A received packet: header fields in host order, and the bytes of the buffer from the end of the UDP
-- header on.
pub record Packet : Type 0 where
  pub protocol : ℕ
  pub saddr : ℕ
  pub source : ℕ
  pub dest : ℕ
  pub len : ℕ
  pub body : Text

pub record Response : Type 0 where
  pub tot_len : ℕ
  pub udp_len : ℕ
  pub daddr : ℕ
  pub dest : ℕ
  pub payload : Text

-- The 20 bytes of the IP header and the 8 of the UDP header.
abbrev pub headers : ℕ
headers = 28

-- `none` where the copies run over the end of `num_str` or of `buffer`.
unfoldable pub send_response : ℕ → ℕ → Text → ℕ → ℕ → Option Response
send_response dst_ip dst_port bytes data_len count =
    let num = decimal count [] in
    let payload_len = data_len + 1 + length num in
    if leb (headers + payload_len) pckt_len && ltb (length num) 10
    then some (record {
      tot_len = headers + payload_len;
      udp_len = 8 + payload_len;
      daddr = dst_ip;
      dest = dst_port;
      payload = take data_len bytes ++ b' ' ∷ num;
    })
    else none

abbrev pub close_text : Text
close_text = b'C' ∷ b'L' ∷ b'O' ∷ b'S' ∷ b'E' ∷ []

-- `count` is an `int`; that it stays in the range is a hypothesis of the theorem on an answer.
abbrev pub increment : Client → Client
increment c = record c { count = suc c.count }

abbrev pub count_at : ℕ → List Client → ℕ
count_at i [] = 0
count_at zero (c ∷ cs) = c.count
count_at (suc i) (c ∷ cs) = count_at i cs

-- `cl->count++` and its value; `none` where the pointer is NULL.
abbrev pub counted_in : Option (ℕ × List Client) → Option (ℕ × List Client)
counted_in none = none
counted_in (some (i, cs)) = some (count_at i (modify increment i cs), modify increment i cs)

-- The code from `find_or_add_client` on: the table and the count. `none` where the NULL is followed.
unfoldable pub count_message : ℕ → ℕ → List Client → Option (ℕ × List Client)
unfolding find_or_add_client
count_message ip port cs = counted_in (find_or_add_client ip port cs)

-- The body of the loop of `main`, after a successful `recvfrom`: the table and the response, if any.
-- A length below that of the header, for which `data_len` is negative, faults in `memcpy`.
unfoldable pub receive : ℕ → Packet → List Client → Option (List Client × Option Response)
unfolding remove_client count_message send_response text_eq
receive server_port p cs =
    if not (p.protocol == 17)
    then some (cs, none)
    else if not (p.dest == server_port)
    then some (cs, none)
    else if text_eq (take 5 p.body) close_text && (p.len == 13)
    then some (remove_client p.saddr p.source cs, none)
    else if ltb p.len 8
    then none
    else count_message p.saddr p.source cs >>= λ (n, cs').
        send_response p.saddr p.source p.body (p.len - 8) n >>= λ r. some (cs', some r)
