-- ===== src/UdpServer/Examples.antt =====
-- The counting server of module3/c01 on a small table.
use eltex_summer.Base.{arith, ◌≡◌, refl, true, false, none, some, List, [], ◌∷◌, ◌++◌}
use eltex_summer.Text.{strcmp, text_eq}
use eltex_summer.Text.Decimal.{decimal, decimal_from}
use eltex_summer.UdpServer.{
  Client, Packet, is_at, find_client, idle_slot, find_or_add_client, count_message, remove_client,
  receive, send_response, close_text,
}
use eltex_summer.UdpServer.Table.{lookup}
use eltex_summer.UdpServer.Replies.{IsMessage, Replies, receive-Replies}

abbrev two_slots : List Client
two_slots =
    record { ip = 7; port = 9000; count = 2; active = true }
    ∷ record { ip = 8; port = 9000; count = 5; active = false }
    ∷ []

abbrev hello : Packet
hello = record {
  protocol = 17;
  saddr = 7;
  source = 9000;
  dest = 5000;
  len = 10;
  body = b'h' ∷ b'i' ∷ 0 ∷ 0 ∷ 0 ∷ 0 ∷ [];
}

abbrev bye : Packet
bye = record {
  protocol = 17;
  saddr = 7;
  source = 9000;
  dest = 5000;
  len = 13;
  body = close_text ++ 0 ∷ [];
}

-- The third message of the first client is answered with a 3.
receive-hello :
    receive 5000 hello two_slots
    ≡ some (
      record { ip = 7; port = 9000; count = 3; active = true }
          ∷ record { ip = 8; port = 9000; count = 5; active = false }
          ∷ [],
      some (record {
        tot_len = 32;
        udp_len = 12;
        daddr = 7;
        dest = 9000;
        payload = b'h' ∷ b'i' ∷ b' ' ∷ b'3' ∷ [];
      }),
    )
unfolding receive count_message find_or_add_client find_client idle_slot is_at send_response decimal
    decimal_from remove_client text_eq strcmp
receive-hello = refl

receive-bye :
    receive 5000 bye two_slots
    ≡ some (
      record { ip = 7; port = 9000; count = 2; active = false }
          ∷ record { ip = 8; port = 9000; count = 5; active = false }
          ∷ [],
      none,
    )
unfolding receive count_message find_or_add_client find_client idle_slot is_at send_response decimal
    decimal_from remove_client text_eq strcmp
receive-bye = refl

-- The first client has the count 2, so the answer says 3.
hello-IsMessage : IsMessage 5000 hello 3
unfolding text_eq strcmp decimal decimal_from
hello-IsMessage = record {
  udp = refl;
  to_server = refl;
  not_close = refl;
  has_header = omega arith;
  has_data = omega arith;
  fits_num_str = omega arith;
  fits_buffer = omega arith;
}

receive-Replies_example : Replies hello two_slots (receive 5000 hello two_slots)
unfolding lookup is_at
receive-Replies_example = receive-Replies 5000 hello two_slots hello-IsMessage
