-- ===== src/QueueChat.antt =====
-- The chat server of module3/06/src/queue_chat_server.c. A slot of `active_clients` is free where it is 0.
mod Delivery
mod Examples
use eltex_summer.Base.{
  ℕ, zero, suc, Bool, true, false, Option, none, some, List, [], ◌∷◌, ◌==◌, ◌||◌, if◌then◌else◌,
  replicate, take,
}
use eltex_summer.Text.{Text, text_eq}

abbrev pub server_id : ℕ
server_id = 10

abbrev pub max_clients : ℕ
max_clients = 10

-- `msgbuf`; `mtype` is the id that the message is sent to.
pub record Message : Type 0 where
  pub mtype : ℕ
  pub sender : ℕ
  pub mtext : Text

-- The loops of `add_client` and `remove_client`: a value in the first slot that holds another.
unfoldable pub replace_first : ℕ → ℕ → List ℕ → Option (List ℕ)
replace_first old new [] = none
replace_first old new (c ∷ cs) =
    let rest = replace_first old new cs in
    if c == old then some (new ∷ cs) else elim rest [ none ↦ none | some cs' ↦ some (c ∷ cs') ]

abbrev pub replaced : List ℕ → Option (List ℕ) → Bool × List ℕ
replaced cs none = (false, cs)
replaced cs (some cs') = (true, cs')

unfoldable pub add_client : ℕ → List ℕ → Bool × List ℕ
unfolding replace_first
add_client client_id cs = replaced cs (replace_first 0 client_id cs)

unfoldable pub remove_client : ℕ → List ℕ → Bool × List ℕ
unfolding replace_first
remove_client client_id cs = replaced cs (replace_first client_id 0 cs)

-- The messages that `broadcast_message` puts into the queue.
unfoldable pub broadcast_message : Message → List ℕ → List Message
broadcast_message msg [] = []
broadcast_message msg (c ∷ cs) =
    let rest = broadcast_message msg cs in
    if (c == 0) || (c == msg.sender) then rest else record msg { mtype = c } ∷ rest

abbrev pub connect_text : Text
connect_text = b'c' ∷ b'o' ∷ b'n' ∷ b'n' ∷ b'e' ∷ b'c' ∷ b't' ∷ []

abbrev pub shutdown_text : Text
shutdown_text = b's' ∷ b'h' ∷ b'u' ∷ b't' ∷ b'd' ∷ b'o' ∷ b'w' ∷ b'n' ∷ []

-- The body of the loop of `main` on a message that was received: the clients, and what is sent.
unfoldable pub handle : Message → List ℕ → List ℕ × List Message
unfolding add_client remove_client broadcast_message text_eq
handle msg cs =
    if msg.sender == server_id
    then (cs, [])
    else if text_eq msg.mtext connect_text
    then ((add_client msg.sender cs).1, [])
    else if text_eq msg.mtext shutdown_text
    then ((remove_client msg.sender cs).1, [])
    else (cs, broadcast_message msg cs)

unfoldable pub start : List ℕ
start = replicate max_clients 0
