-- ===== src/UdpServer/Replies.antt =====
-- The answer of module3/c01 to a packet, and the table behind it.
use eltex_summer.Base.{
  ℕ, suc, ◌+◌, ◌-◌, ◌<◌, ◌≤◌, ◌≡◌, refl, ap, subst, sym, ◌∙◌, true, false, Option, none, some, List,
  [], ◌∷◌, ◌++◌, length, length-append, length-take, take, arith, ltb, leb, ◌==◌, ◌&&◌, ◌>>=◌,
}
use eltex_summer.Text.{Text, text_eq}
use eltex_summer.Text.Decimal.{decimal}
use eltex_summer.Text.Width.{length-decimal}
use eltex_summer.UdpServer.{
  Client, Packet, Response, idle_slot, count_message, send_response, receive, close_text,
}
use eltex_summer.UdpServer.Table.{Counts, Other, lookup, or_zero, count_message-Counts}

-- A message to the port of the server that is not CLOSE, whose data are in the buffer, and whose answer with
-- the count `n` fits `num_str` and the 1432 bytes of `buffer`.
pub record IsMessage (server_port : ℕ) (p : Packet) (n : ℕ) : Type 0 where
  pub udp : p.protocol ≡ 17
  pub to_server : p.dest ≡ server_port
  pub not_close : text_eq (take 5 p.body) close_text && (p.len == 13) ≡ false
  pub has_header : 8 ≤ p.len
  pub has_data : p.len - 8 ≤ length p.body
  pub fits_num_str : n < 1000000000
  pub fits_buffer : p.len + 21 + length (decimal n []) ≤ 1432

-- The data of the packet, a blank and the count.
abbrev pub answer_text : Packet → ℕ → Text
answer_text p n = take (p.len - 8) p.body ++ b' ' ∷ decimal n []

-- The answer with the count `n`, back to the sender; the lengths are those with the headers.
abbrev pub response : Packet → ℕ → Response
response p n = record {
  tot_len = 28 + length (answer_text p n);
  udp_len = 8 + length (answer_text p n);
  daddr = p.saddr;
  dest = p.source;
  payload = answer_text p n;
}

length-answer_text :
    (p : Packet) (n : ℕ)
    → p.len - 8 ≤ length p.body
    → p.len - 8 + 1 + length (decimal n []) ≡ length (answer_text p n)
length-answer_text p n h =
    let a = length-append (take (p.len - 8) p.body) (b' ' ∷ decimal n []) in
    let t = length-take (p.len - 8) p.body in omega (arith, a, t, h)

-- What is left of a round: the answer, and the table with one more for the address and the rest as it was;
-- or the NULL pointer that is followed.
abbrev pub Replies : Packet → List Client → Option (List Client × Option Response) → Type 0
Replies p cs none = (lookup p.saddr p.source cs ≡ none) × (idle_slot cs ≡ none)
Replies p cs (some (cs', r)) =
    (r ≡ some (response p (suc (or_zero (lookup p.saddr p.source cs)))))
    × (lookup p.saddr p.source cs' ≡ some (suc (or_zero (lookup p.saddr p.source cs))))
    × ((ip' port' : ℕ)
        → Other p.saddr p.source ip' port'
        → lookup ip' port' cs' ≡ lookup ip' port' cs)

send_response-response :
    (server_port : ℕ) (p : Packet) (n : ℕ)
    → IsMessage server_port p n
    → send_response p.saddr p.source p.body (p.len - 8) n ≡ some (response p n)
unfolding send_response
send_response-response server_port p n m =
    let h = m.has_header in
    let b = m.fits_buffer in
    let l = length-decimal n [] m.fits_num_str in
    let t : ltb (length (decimal n [])) 10 ≡ true = ground (arith, l) in
    let q : leb (28 + (p.len - 8 + 1 + length (decimal n []))) 1432 ≡ true = ground (arith, h, b) in
    rw (q, t)
      (ap
        (λ (k : ℕ). some (record {
          tot_len = 28 + k;
          udp_len = 8 + k;
          daddr = p.saddr;
          dest = p.source;
          payload = answer_text p n;
        }))
        (length-answer_text p n m.has_data))

abbrev answered : Packet → Option (ℕ × List Client) → Option (List Client × Option Response)
answered p o = o >>= λ (n, cs').
    send_response p.saddr p.source p.body (p.len - 8) n >>= λ r. some (cs', some r)

receive-message :
    (server_port : ℕ) (p : Packet) (n : ℕ) (cs : List Client)
    → IsMessage server_port p n
    → receive server_port p cs ≡ answered p (count_message p.saddr p.source cs)
unfolding receive
receive-message server_port p n cs m =
    let u = m.udp in
    let d = m.to_server in
    let h = m.has_header in
    let a : (p.protocol == 17) ≡ true = ground (arith, u) in
    let b : (p.dest == server_port) ≡ true = ground (arith, d) in
    let e : ltb p.len 8 ≡ false = ground (arith, h) in rw (a, b, m.not_close, e) refl

answered-Replies :
    (server_port : ℕ) (p : Packet) (cs : List Client) (o : Option (ℕ × List Client))
    → IsMessage server_port p (suc (or_zero (lookup p.saddr p.source cs)))
    → Counts p.saddr p.source cs o
    → Replies p cs (answered p o)
answered-Replies server_port p cs none m c = c
answered-Replies server_port p cs (some (n, cs')) m (e, l, others) =
    let s = send_response-response server_port p _ m in
    subst (λ (k : ℕ). Replies p cs (answered p (some (k, cs')))) (sym e)
      (rw s (refl, l ∙ ap some e, others))

-- The UDP server gets a message with a UDP header, to its port, that is not CLOSE and whose data are in the
-- buffer. It answers the sender, with the right lengths, with the data of the message, a blank and one more
-- than the count of the sender's address and port, a new address starting from nothing; the table then has
-- that count for the address, and what it had for every other. Only where the address is unknown and no slot
-- is idle is the NULL pointer followed. The new count is below 10 ^ 9, and the answer fits the 1432 bytes of
-- the buffer.
pub receive-Replies :
    (server_port : ℕ) (p : Packet) (cs : List Client)
    → IsMessage server_port p (suc (or_zero (lookup p.saddr p.source cs)))
    → Replies p cs (receive server_port p cs)
receive-Replies server_port p cs m =
    subst (λ (o : Option (List Client × Option Response)). Replies p cs o)
      (sym (receive-message server_port p _ cs m))
      (answered-Replies server_port p cs _ m (count_message-Counts p.saddr p.source cs))
