-- ===== src/TcpServer.antt =====
-- The select-based calculator server of module3/15/src/tcp_server_new.c. A client slot is free where
-- its socket is 0. What `read` and `write` return comes from the environment, as arguments; what the
-- server sends and closes is a list of actions.
mod Count
mod Session
mod Examples
use eltex_summer.Base.{
  ℕ, zero, suc, ◌+◌, ◌-◌, ◌≤◌, Bool, true, false, Option, none, some, List, [], ◌∷◌, ◌++◌, ltb,
  ◌==◌, ◌&&◌, ◌||◌, if◌then◌else◌, length, set, take, drop, replicate, modify,
}
use eltex_summer.Base.Int.{ℤ, pos, negsuc, ◌+ℤ◌, ◌-ℤ◌, ◌*ℤ◌, quot, eqb_ℤ}
use eltex_summer.Text.{Text, text_eq}
use eltex_summer.Text.Decimal.{atoi, print_int}

abbrev pub buffer_size : ℕ
buffer_size = 1024

abbrev pub max_clients : ℕ
max_clients = 100

pub data State : Type 0 where
  waiting_for_op waiting_first_num waiting_second_num : State

pub record Client : Type 0 where
  pub sockfd : ℕ
  pub state : State
  pub op : ℕ
  pub first_num : ℤ
  pub buffer : Text

-- `nclients` is an `int` that the code may take below 0.
pub record Server : Type 0 where
  pub clients : List Client
  pub nclients : ℤ

-- `str1`, `str2`, `str3`, or a result line.
pub data Message : Type 0 where
  first_prompt second_prompt menu : Message
  answer : Text → Message

pub data Action : Type 0 where
  send : ℕ → Message → Action
  close : ℕ → Action

divide : ℤ → ℤ → ℤ
divide a b = if eqb_ℤ b (pos 0) then pos 0 else quot a b

-- The search through `ops`; `result` stays 0 where no symbol fits. What leaves the range of `int`, which C
-- leaves undefined, is given as it is; the theorems on results have the range as a hypothesis.
unfoldable pub apply_op : ℕ → ℤ → ℤ → ℤ
unfolding divide
apply_op op a b =
    if op == b'+'
    then a +ℤ b
    else (if op == b'-'
        then a -ℤ b
        else (if op == b'*' then a *ℤ b else (if op == b'/' then divide a b else pos 0)))

abbrev pub zeros : Text
zeros = replicate buffer_size 0

-- The slot after `init_client`.
abbrev pub greeted : Bool → ℕ → Client → Client
greeted written new_sockfd c = record c {
  sockfd = if written then new_sockfd else 0;
  state = waiting_for_op;
  buffer = zeros;
}

-- `init_client`, with the outcome of its `write`.
unfoldable pub init_client : Bool → ℕ → ℕ → Server → Server × List Action
init_client written index new_sockfd s = (
  record s { clients = modify (greeted written new_sockfd) index s.clients },
  if written then send new_sockfd menu ∷ [] else close new_sockfd ∷ [],
)

-- What `close_client` leaves in the slot.
abbrev pub closed : Client → Client
closed c = record c { sockfd = 0; state = waiting_for_op }

-- What the handler of one slot does: the slot's new content, whether it was closed, and the actions.
pub record Step : Type 0 where
  pub client : Client
  pub gone : Bool
  pub actions : List Action

abbrev pub gone_step : Client → List Action → Step
gone_step c acts = record { client = closed c; gone = true; actions = acts }

abbrev pub kept_step : Client → List Action → Step
kept_step c acts = record { client = c; gone = false; actions = acts }

-- `write`, and `close_client` where it fails.
abbrev pub write_or_close : Bool → Client → Message → Step
write_or_close written c m =
    if written then kept_step c (send c.sockfd m ∷ []) else gone_step c (close c.sockfd ∷ [])

-- The bytes of `read` overwrite the front of the buffer; no terminator is added.
abbrev pub overlay : Text → Text → Text
overlay d b = d ++ drop (length d) b

-- `strchr(msg, '\n')`: the bytes before the first newline, if it stands before the first 0.
unfoldable pub line_of : Text → Option Text
line_of [] = none
line_of (c ∷ s) =
    let rest = line_of s in
    if c == 0
    then none
    else (if c == 10 then some [] else elim rest [ none ↦ none | some l ↦ some (c ∷ l) ])

-- `*newline = '\0'`.
unfoldable pub cut_line : Text → Text
cut_line [] = []
cut_line (c ∷ s) = let rest = cut_line s in if c == 10 then 0 ∷ s else c ∷ rest

abbrev pub is_op : ℕ → Bool
is_op c = (c == b'+') || (c == b'-') || (c == b'*') || (c == b'/')

-- The one character of a line of length 1 that is an operator.
abbrev pub op_line : Text → Option ℕ
op_line [] = none
op_line (c ∷ []) = if is_op c then some c else none
op_line (c ∷ d ∷ s) = none

abbrev pub exit_text : Text
exit_text = b'e' ∷ b'x' ∷ b'i' ∷ b't' ∷ []

-- The branches of the `switch`, on the line; `w1` and `w2` are the outcomes of the writes. As in `apply_op`,
-- a number outside of `int` is given as it is.
unfoldable pub on_line : State → Bool → Bool → Client → Text → Step
unfolding apply_op
on_line waiting_for_op w1 w2 c l =
    if text_eq l exit_text then gone_step c (close c.sockfd ∷ []) else elim (op_line l) [
      | some o ↦ write_or_close w1 (record c { op = o; state = waiting_first_num }) first_prompt
      | none ↦ write_or_close w1 c menu
    ]
on_line waiting_first_num w1 w2 c l =
    write_or_close w1 (record c { first_num = atoi l; state = waiting_second_num }) second_prompt
on_line waiting_second_num w1 w2 c l =
    let result = print_int (apply_op c.op c.first_num (atoi l)) (10 ∷ []) in
    let d = record c { buffer = overlay (result ++ 0 ∷ []) c.buffer } in
    let said = send c.sockfd (answer result) in
    if w1
    then (let e = record d { state = waiting_for_op } in
        if w2
        then kept_step e (said ∷ send c.sockfd menu ∷ [])
        else gone_step e (said ∷ close c.sockfd ∷ []))
    else gone_step d (close c.sockfd ∷ [])

-- `process_client_data` on its slot. `none` is an end of file or an error of `read`, which takes at most
-- `buffer_size - 1` bytes of the data.
unfoldable pub process_client_data : Option Text → Bool → Bool → Client → Step
unfolding on_line line_of cut_line
process_client_data none w1 w2 c = gone_step c (close c.sockfd ∷ [])
process_client_data (some d) w1 w2 c =
    let b = overlay (take (buffer_size - 1) d) c.buffer in
    elim (line_of b) [
      | none ↦ kept_step (record c { buffer = b }) []
      | some l ↦ on_line c.state w1 w2 (record c { buffer = cut_line b }) l
    ]

-- What the environment answers while one slot is handled.
pub record Answers : Type 0 where
  pub read : Option Text
  pub first_write : Bool
  pub second_write : Bool

-- One pass of the loop over the slots: a slot is handled where it is open and ready.
unfoldable pub serve_slot : Option Answers → Client → Step
unfolding process_client_data
serve_slot none c = kept_step c []
serve_slot (some a) c =
    if ltb 0 c.sockfd
    then process_client_data a.read a.first_write a.second_write c
    else kept_step c []

-- The loop; `close_client` also lowers `nclients`.
unfoldable pub handle_all : List Client → List (Option Answers) → ℤ → List Client × ℤ × List Action
unfolding serve_slot
handle_all [] rs n = ([], n, [])
handle_all (c ∷ cs) [] n = (c ∷ cs, n, [])
handle_all (c ∷ cs) (r ∷ rs) n =
    let s = serve_slot r c in
    let (cs', n', acts) = handle_all cs rs (if s.gone then n -ℤ pos 1 else n) in
    (s.client ∷ cs', n', s.actions ++ acts)

-- The first slot with socket 0.
unfoldable pub free_slot : List Client → Option ℕ
free_slot [] = none
free_slot (c ∷ cs) =
    let rest = free_slot cs in
    if c.sockfd == 0 then some 0 else elim rest [ none ↦ none | some i ↦ some (suc i) ]

-- A connection that `accept` has returned.
unfoldable pub accept_client : Bool → ℕ → Server → Server × List Action
unfolding free_slot init_client
accept_client written new_sockfd s = elim (free_slot s.clients) [
  | none ↦ (s, close new_sockfd ∷ [])
  | some i ↦ init_client written i new_sockfd (record s { nclients = s.nclients +ℤ pos 1 })
]

-- What the listening socket brings in a round: no connection, an `accept` that fails, or a new socket
-- with the outcome of the greeting.
pub data Incoming : Type 0 where
  no_connection accept_failed : Incoming
  connection : Bool → ℕ → Incoming

abbrev pub serve_slots : List (Option Answers) → Server × List Action → Server × List Action
serve_slots rs (s, greeted) =
    let (cs, n, served) = handle_all s.clients rs s.nclients in
    (record { clients = cs; nclients = n }, greeted ++ served)

-- One round of `run_server` after `select`, with the answers for each slot that is ready. After a
-- failed `accept` the round ends.
unfoldable pub serve_round : Incoming → List (Option Answers) → Server → Server × List Action
unfolding accept_client handle_all
serve_round no_connection rs s = serve_slots rs (s, [])
serve_round accept_failed rs s = (s, [])
serve_round (connection w fd) rs s = serve_slots rs (accept_client w fd s)

-- The state that `main` sets up.
unfoldable pub start : Server
start = record {
  clients =
      replicate max_clients
        (record { sockfd = 0; state = waiting_for_op; op = 0; first_num = pos 0; buffer = zeros });
  nclients = pos 0;
}
