-- ===== src/TcpServer/Examples.antt =====
-- The server of module3/15 on concrete clients.
use eltex_summer.Base.{◌≡◌, refl, false, [], ◌+◌, arith}
use eltex_summer.Base.Int.{pos, negsuc, quot, ◌*ℤ◌}
use eltex_summer.Base.Calculation.{times}
use eltex_summer.TcpServer.{
  connection, start, serve_round, waiting_for_op, Client, apply_op, divide, zeros,
}
use eltex_summer.TcpServer.Count.{open_slots, lost, serve_round-lost}
use eltex_summer.TcpServer.Session.{feed, calculation, told, feed-calculation}

abbrev fresh : Client
fresh = record { sockfd = 5; state = waiting_for_op; op = 0; first_num = pos 0; buffer = zeros }

division : apply_op b'/' (negsuc 6) (pos 2) ≡ negsuc 2
unfolding apply_op divide quot
division = refl

-- Seven times minus six.
feed-calculation_example :
    let r = feed (calculation times (pos 7) (negsuc 5)) fresh in
    (r.1 ≡ told 5 (negsuc 41)) × (r.0.state ≡ waiting_for_op) × (r.0.sockfd ≡ 5)
unfolding ◌*ℤ◌
feed-calculation_example =
    feed-calculation times (pos 7) (negsuc 5) fresh
      ((omega arith, omega arith), (omega arith, omega arith), (omega arith, omega arith)) refl

start_count : start.nclients ≡ pos (0 + open_slots start.clients)
unfolding start open_slots
start_count = refl

-- The first client's greeting fails: one client is counted and no slot is open.
serve_round-lost_example :
    (serve_round (connection false 4) [] start).0.nclients
    ≡ pos (
        lost (connection false 4) start
        + 0
        + open_slots (serve_round (connection false 4) [] start).0.clients)
serve_round-lost_example =
    serve_round-lost (connection false 4) [] start 0 (omega arith) start_count
