-- ===== src/TcpServer/Session.antt =====
-- A calculation with the server of module3/15: three lines, and what the server answers.
use eltex_summer.Base.{
  ℕ, ◌≡◌, refl, Bool, true, false, some, List, [], ◌∷◌, ◌++◌, arith, ap, ◌∙◌, ◌-◌, drop, take,
  length, length-append, ◌≤◌,
}
use eltex_summer.Base.Int.{ℤ, InInt}
use eltex_summer.Base.Calculation.{Operator, plus, minus, times, over, symbol, exact, InRange}
use eltex_summer.Text.Width.{length-print_int, take_all}
use eltex_summer.Text.{Text, text_eq, strcmp}
use eltex_summer.Text.Decimal.{
  IsWord, print_int, atoi-print_int, print_int-IsWord, print_int-append,
}
use eltex_summer.TcpServer.{
  Client, waiting_for_op, waiting_first_num, waiting_second_num, Step, Action, send, first_prompt,
  second_prompt, menu, answer, apply_op, divide, is_op, exit_text, on_line, process_client_data,
  line_of, Message, buffer_size, cut_line, overlay, kept_step,
}

line_of-append : (s t : Text) → IsWord s → line_of (s ++ 10 ∷ t) ≡ some s
unfolding line_of
line_of-append [] t h = refl
line_of-append (c ∷ s) t (z, n, b, h) = rw (z, n, line_of-append s t h) refl

cut_line-append : (s t : Text) → IsWord s → cut_line (s ++ 10 ∷ t) ≡ s ++ 0 ∷ t
unfolding cut_line
cut_line-append [] t h = refl
cut_line-append (c ∷ s) t (z, n, b, h) = rw (n, cut_line-append s t h) refl

append_assoc : (s t u : Text) → (s ++ t) ++ u ≡ s ++ (t ++ u)
append_assoc [] t u = refl
append_assoc (c ∷ s) t u = ap (◌∷◌ c) (append_assoc s t u)

overlay-line : (l b : Text) → overlay (l ++ 10 ∷ []) b ≡ l ++ 10 ∷ drop (length (l ++ 10 ∷ [])) b
overlay-line l b = append_assoc l (10 ∷ []) (drop (length (l ++ 10 ∷ [])) b)

-- The slot when a whole line has arrived in one read, and its newline is cut off.
abbrev filled : Text → Client → Client
filled l c = record c { buffer = l ++ 0 ∷ drop (length (l ++ 10 ∷ [])) c.buffer }

process_client_data-line :
    (l : Text) (w1 w2 : Bool) (c : Client)
    → IsWord l
    → length (l ++ 10 ∷ []) ≤ 1023
    → process_client_data (some (l ++ 10 ∷ [])) w1 w2 c ≡ on_line c.state w1 w2 (filled l c) l
unfolding process_client_data
process_client_data-line l w1 w2 c h k =
    let t = drop (length (l ++ 10 ∷ [])) c.buffer in
    let cut =
      ap (λ (d : Text). cut_line (overlay d c.buffer)) (take_all 1023 (l ++ 10 ∷ []) k)
      ∙ ap cut_line (overlay-line l c.buffer)
      ∙ cut_line-append l t h in
    let q : take (buffer_size - 1) (l ++ 10 ∷ []) ≡ l ++ 10 ∷ [] = take_all 1023 (l ++ 10 ∷ []) k in
    rw (q, overlay-line l c.buffer, line_of-append l t h, process_client_data)
      (ap (λ (b : Text). on_line c.state w1 w2 (record c { buffer = b }) l) cut)

-- Reads that arrive one after the other, while every write succeeds: the slot and the actions.
unfoldable pub feed : List Text → Client → Client × List Action
unfolding process_client_data
feed [] c = (c, [])
feed (d ∷ ds) c =
    let s = process_client_data (some d) true true c in
    let (c', acts) = feed ds s.client in (c', s.actions ++ acts)

feed-line :
    (l : Text) (ds : List Text) (c : Client) (s : Step)
    → IsWord l
    → length (l ++ 10 ∷ []) ≤ 1023
    → on_line c.state true true (filled l c) l ≡ s
    → feed ((l ++ 10 ∷ []) ∷ ds) c ≡ ((feed ds s.client).0, s.actions ++ (feed ds s.client).1)
unfolding feed
feed-line l ds c s h k e = rw (process_client_data-line l true true c h k, e) refl

feed-op :
    (o : ℕ) (ds : List Text) (c : Client)
    → is_op o ≡ true
    → c.state ≡ waiting_for_op
    → let d = record (filled (o ∷ []) c) { op = o; state = waiting_first_num } in
      feed ((o ∷ 10 ∷ []) ∷ ds) c ≡ ((feed ds d).0, send c.sockfd first_prompt ∷ (feed ds d).1)
unfolding on_line text_eq strcmp
feed-op o ds c h e =
    feed-line (o ∷ []) ds c
      (kept_step (record (filled (o ∷ []) c) { op = o; state = waiting_first_num })
        (send c.sockfd first_prompt ∷ []))
      (ground arith, ground arith, ground arith, tt) (omega arith)
      (let x : text_eq (o ∷ []) exit_text ≡ false = ground arith in rw (e, x, h) refl)

-- A number and its newline fit one read.
short_line : (z : ℤ) → InInt z → length (print_int z [] ++ 10 ∷ []) ≤ 1023
short_line z h =
    let l = length-print_int z [] h in
    let e = length-append (print_int z []) (10 ∷ []) in omega (arith, l, e)

feed-first :
    (a : ℤ) (ds : List Text) (c : Client)
    → InInt a
    → c.state ≡ waiting_first_num
    → let d = record (filled (print_int a []) c) { first_num = a; state = waiting_second_num } in
      feed (print_int a (10 ∷ []) ∷ ds) c
      ≡ ((feed ds d).0, send c.sockfd second_prompt ∷ (feed ds d).1)
unfolding on_line
feed-first a ds c i e = rw (print_int-append a (10 ∷ [])) (
    feed-line (print_int a []) ds c
      (kept_step (record (filled (print_int a []) c) { first_num = a; state = waiting_second_num })
        (send c.sockfd second_prompt ∷ []))
      (print_int-IsWord a) (short_line a i) (rw (e, atoi-print_int a [] tt) refl))

-- The slot after the result is written.
abbrev answered : Text → Client → Client
answered result c = record c {
  buffer = overlay (result ++ 0 ∷ []) c.buffer;
  state = waiting_for_op;
}

feed-second :
    (b : ℤ) (ds : List Text) (c : Client)
    → InInt b
    → c.state ≡ waiting_second_num
    → let result = print_int (apply_op c.op c.first_num b) (10 ∷ []) in
      let d = answered result (filled (print_int b []) c) in
      feed (print_int b (10 ∷ []) ∷ ds) c
      ≡ ((feed ds d).0, send c.sockfd (answer result) ∷ send c.sockfd menu ∷ (feed ds d).1)
unfolding on_line
feed-second b ds c i e = rw (print_int-append b (10 ∷ [])) (
    feed-line (print_int b []) ds c
      (let result = print_int (apply_op c.op c.first_num b) (10 ∷ []) in
        kept_step (answered result (filled (print_int b []) c))
          (send c.sockfd (answer result) ∷ send c.sockfd menu ∷ []))
      (print_int-IsWord b) (short_line b i) (rw (e, atoi-print_int b [] tt) refl))

-- The three lines of a calculation.
abbrev pub calculation : Operator → ℤ → ℤ → List Text
calculation o a b = (symbol o ∷ 10 ∷ []) ∷ print_int a (10 ∷ []) ∷ print_int b (10 ∷ []) ∷ []

is_op-symbol : (o : Operator) → is_op (symbol o) ≡ true
is_op-symbol plus = refl
is_op-symbol minus = refl
is_op-symbol times = refl
is_op-symbol over = refl

apply_op-exact : (o : Operator) (a b : ℤ) → apply_op (symbol o) a b ≡ exact o a b
unfolding apply_op divide
apply_op-exact plus a b = refl
apply_op-exact minus a b = refl
apply_op-exact times a b = refl
apply_op-exact over a b = refl

-- What the client is told: the result is `z`.
abbrev pub told : ℕ → ℤ → List Action
told fd z =
    send fd first_prompt
    ∷ send fd second_prompt
    ∷ send fd (answer (print_int z (10 ∷ [])))
    ∷ send fd menu
    ∷ []

-- A client that waits for an operator sends one of plus, minus, times and over, then two numbers in
-- decimal, each line in a read of its own; the numbers and the result are values of `int`. It gets the
-- prompts, the result and the menu, and its slot waits for an operator again, on the same socket. The
-- result is the sum, the difference, the product, or the quotient rounded towards 0, and 0 for a division
-- by 0. Every write succeeds; what stood in the buffer does not matter.
pub feed-calculation :
    (o : Operator) (a b : ℤ) (c : Client)
    → InRange o a b
    → c.state ≡ waiting_for_op
    → let r = feed (calculation o a b) c in
      (r.1 ≡ told c.sockfd (exact o a b)) × (r.0.state ≡ waiting_for_op) × (r.0.sockfd ≡ c.sockfd)
unfolding feed
feed-calculation o a b c (i, j, k) e =
    let q1 =
      feed-op (symbol o) (print_int a (10 ∷ []) ∷ print_int b (10 ∷ []) ∷ []) c (is_op-symbol o)
        e in
    let c1 = record (filled (symbol o ∷ []) c) { op = symbol o; state = waiting_first_num } in
    let q2 = feed-first a (print_int b (10 ∷ []) ∷ []) c1 i refl in
    let c2 = record (filled (print_int a []) c1) { first_num = a; state = waiting_second_num } in
    let q3 = feed-second b [] c2 j refl in
    let saying : Message → Client × List Action → Client × List Action =
      λ m r. (r.0, send c.sockfd m ∷ r.1) in
    let z = apply_op (symbol o) a b in
    let c3 = answered (print_int z (10 ∷ [])) (filled (print_int b []) c2) in
    let e : feed (calculation o a b) c ≡ (c3, told c.sockfd z) =
      q1 ∙ ap (saying first_prompt) (q2 ∙ ap (saying second_prompt) q3) in
    (
      ap (λ (r : Client × List Action). r.1) e ∙ ap (told c.sockfd) (apply_op-exact o a b),
      ap (λ (r : Client × List Action). r.0.state) e,
      ap (λ (r : Client × List Action). r.0.sockfd) e,
    )
