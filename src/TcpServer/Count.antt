-- ===== src/TcpServer/Count.antt =====
-- The number of clients that the server of module3/15 keeps, against its open slots.
use eltex_summer.Base.{
  take, ◌-◌, ℕ, zero, suc, ◌+◌, ◌<◌, ◌≡◌, sym, refl, Bool, true, false, Option, none, some, List,
  [], ◌∷◌, arith, ltb, if◌then◌else◌, inl, inr, Bool-cases, ◌==◌, modify, ap, ◌∙◌, Option-cases,
}
use eltex_summer.Base.Int.{pos, ◌+ℤ◌, ◌-ℤ◌}
use eltex_summer.Text.{Text, text_eq}
use eltex_summer.TcpServer.{
  buffer_size, Client, State, waiting_for_op, waiting_first_num, waiting_second_num, overlay,
  Server, Step, Answers, greeted, op_line, exit_text, on_line, process_client_data, serve_slot,
  handle_all, line_of, free_slot, init_client, accept_client, serve_round, no_connection,
  connection, accept_failed, Incoming, write_or_close, Message,
}

-- What a step may do to a slot: close it where it is open, or leave its socket.
data Honest (c : Client) (s : Step) : Type 0 where
  left : s.gone ≡ true → s.client.sockfd ≡ 0 → Honest c s
  stayed : s.gone ≡ false → s.client.sockfd ≡ c.sockfd → Honest c s

write_or_close-Honest :
    (w : Bool) (c d : Client) (m : Message) → d.sockfd ≡ c.sockfd → Honest c (write_or_close w d m)
write_or_close-Honest true c d m e = stayed refl e
write_or_close-Honest false c d m e = left refl refl

on_line-Honest :
    (s : State) (w1 w2 : Bool) (c d : Client) (l : Text)
    → d.sockfd ≡ c.sockfd
    → Honest c (on_line s w1 w2 d l)
unfolding on_line
on_line-Honest waiting_for_op w1 w2 c d l h = elim (Bool-cases (text_eq l exit_text)) [
  | inl e ↦ rw e (left refl refl)
  | inr e ↦ elim (Option-cases (op_line l)) [
    | inl q ↦ rw (e, q) (write_or_close-Honest w1 c _ _ h)
    | inr (o, q) ↦ rw (e, q) (write_or_close-Honest w1 c _ _ h)
  ]
]
on_line-Honest waiting_first_num w1 w2 c d l h = write_or_close-Honest w1 c _ _ h
on_line-Honest waiting_second_num false w2 c d l h = left refl refl
on_line-Honest waiting_second_num true false c d l h = left refl refl
on_line-Honest waiting_second_num true true c d l h = stayed refl h

process_client_data-Honest :
    (r : Option Text) (w1 w2 : Bool) (c : Client) → Honest c (process_client_data r w1 w2 c)
unfolding process_client_data
process_client_data-Honest none w1 w2 c = left refl refl
process_client_data-Honest (some d) w1 w2 c =
    elim (Option-cases (line_of (overlay (take (buffer_size - 1) d) c.buffer))) [
      | inl e ↦ rw (e, process_client_data) (stayed refl refl)
      | inr (l, e) ↦ rw (e, process_client_data) (on_line-Honest c.state w1 w2 c _ l refl)
    ]

abbrev now_open : Client → ℕ
now_open c = if ltb 0 c.sockfd then 1 else 0

unfoldable pub open_slots : List Client → ℕ
open_slots [] = 0
open_slots (c ∷ cs) = now_open c + open_slots cs

-- The number of slots that a step closes.
abbrev closes : Step → ℕ
closes s = if s.gone then 1 else 0

serve_slot-closes :
    (r : Option Answers) (c : Client)
    → closes (serve_slot r c) + now_open (serve_slot r c).client ≡ now_open c
unfolding serve_slot
serve_slot-closes none c = omega arith
serve_slot-closes (some a) c = elim (Bool-cases (ltb 0 c.sockfd)) [
  | inl e ↦ elim (process_client_data-Honest a.read a.first_write a.second_write c) [
    | left g q ↦ rw (e, g, q) refl
    | stayed g q ↦ rw (e, g, q, e) refl
  ]
  | inr e ↦ rw (e, e) refl
]

lower :
    (g : Bool) (n m : ℕ)
    → n ≡ (if g then 1 else 0) + m
    → (if g then pos n -ℤ pos 1 else pos n) ≡ pos m
unfolding ◌-ℤ◌
lower true n m h = ground arith
lower false n m h = ap pos (omega arith)

handle_all-open_slots :
    (cs : List Client) (rs : List (Option Answers)) (k n : ℕ)
    → n ≡ k + open_slots cs
    → (handle_all cs rs (pos n)).1 ≡ pos (k + open_slots (handle_all cs rs (pos n)).0)
unfolding handle_all open_slots
handle_all-open_slots [] rs k n h = ap pos h
handle_all-open_slots (c ∷ cs) [] k n h = ap pos h
handle_all-open_slots (c ∷ cs) (r ∷ rs) k n h =
    let s = serve_slot r c in
    let q = serve_slot-closes r c in
    let m = now_open s.client + k + open_slots cs in
    let e = lower s.gone n m (omega arith) in
    rw e (handle_all-open_slots cs rs (now_open s.client + k) m refl ∙ ap pos (omega arith))

-- The slot that a connection takes is counted once its greeting is written.
modify-open_slots :
    (cs : List Client) (i fd : ℕ) (f : Client → Client)
    → free_slot cs ≡ some i
    → ((c : Client) → (f c).sockfd ≡ fd)
    → open_slots (modify f i cs) ≡ (if ltb 0 fd then 1 else 0) + open_slots cs
unfolding free_slot open_slots
modify-open_slots [] i fd f h q = cc
modify-open_slots (c ∷ cs) i fd f h q = elim (Bool-cases (c.sockfd == 0)) [
  | inl e ↦
      let z : zero ≡ i = ground (arith, h) in
      let shut : now_open c ≡ 0 = ground arith in rw (sym z) (rw (q c) (omega arith))
  | inr e ↦ elim (Option-cases (free_slot cs)) [
    | inl r ↦ absurd (ground (arith, h))
    | inr (n, r) ↦
        let z : suc n ≡ i = ground (arith, h) in
        let ih = modify-open_slots cs n fd f r q in rw (sym z) (omega (arith, ih))
  ]
]

-- The clients that a round counts without an open slot: one whose greeting fails.
unfoldable pub lost : Incoming → Server → ℕ
lost no_connection s = 0
lost accept_failed s = 0
lost (connection w fd) s = if w then 0 else elim (free_slot s.clients) [ none ↦ 0 | some i ↦ 1 ]

abbrev pub PositiveSocket : Incoming → Type 0
PositiveSocket no_connection = Unit
PositiveSocket accept_failed = Unit
PositiveSocket (connection w fd) = 0 < fd

accept_client-open_slots :
    (w : Bool) (fd : ℕ) (s : Server) (k : ℕ)
    → 0 < fd
    → s.nclients ≡ pos (k + open_slots s.clients)
    → (accept_client w fd s).0.nclients
      ≡ pos (lost (connection w fd) s + k + open_slots (accept_client w fd s).0.clients)
unfolding accept_client lost init_client ◌+ℤ◌
accept_client-open_slots true fd s k h e = elim (Option-cases (free_slot s.clients)) [
  | inl q ↦ rw (q, accept_client) (e ∙ ap pos (omega arith))
  | inr (i, q) ↦
      rw (q, accept_client, e, modify-open_slots s.clients i fd (greeted true fd) q (λ c. refl))
        (ground arith)
]
accept_client-open_slots false fd s k h e = elim (Option-cases (free_slot s.clients)) [
  | inl q ↦ rw (q, accept_client) (e ∙ ap pos (omega arith))
  | inr (i, q) ↦
      rw (q, accept_client, e, modify-open_slots s.clients i 0 (greeted false fd) q (λ c. refl))
        (ground arith)
]

-- A round keeps the difference between `nclients` and the number of open slots, whatever is read and
-- written, with one exception: each new client that gets a slot and whose greeting fails is counted
-- and leaves no open slot, so the difference grows by 1. Sockets are positive.
pub serve_round-lost :
    (inc : Incoming) (rs : List (Option Answers)) (s : Server) (k : ℕ)
    → PositiveSocket inc
    → s.nclients ≡ pos (k + open_slots s.clients)
    → (serve_round inc rs s).0.nclients
      ≡ pos (lost inc s + k + open_slots (serve_round inc rs s).0.clients)
unfolding serve_round lost
serve_round-lost no_connection rs s k h e =
    rw e (handle_all-open_slots s.clients rs k _ refl ∙ ap pos (omega arith))
serve_round-lost accept_failed rs s k h e = e ∙ ap pos (omega arith)
serve_round-lost (connection w fd) rs s k h e =
    let m = lost (connection w fd) s + k in
    rw (accept_client-open_slots w fd s k h e)
      (handle_all-open_slots (accept_client w fd s).0.clients rs m _ refl)
