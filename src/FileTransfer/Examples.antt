-- ===== src/FileTransfer/Examples.antt =====
-- A client that calculates and sends a file of three bytes in two pieces.
use eltex_summer.Base.{◌≡◌, refl, none, List, [], ◌∷◌}
use eltex_summer.Base.Int.{pos}
use eltex_summer.Base.Calculation.{plus}
use eltex_summer.Text.{Text}
use eltex_summer.FileTransfer.{bytes_of, number_of, read, recv_file, send_contents}
use eltex_summer.FileTransfer.Rounds.{Round, upload, calculate}

abbrev file : Text
file = 7 ∷ 0 ∷ 9 ∷ []

abbrev rounds : List Round
rounds =
    calculate plus (pos 40) (pos 2)
    ∷ upload (b'a' ∷ b'b' ∷ []) file ((7 ∷ []) ∷ (0 ∷ 9 ∷ []) ∷ [])
    ∷ []

-- Where `send` takes one byte of a piece, the rest of that piece is not sent.
partial_send : send_contents 4 (λ t n. 1) 0 3 file ≡ (7 ∷ []) ∷ []
unfolding send_contents
partial_send = refl

-- A name of 128 bytes does not fit.
long_name : recv_file (bytes_of 8 128 ∷ file ∷ []) ≡ none
unfolding recv_file read bytes_of number_of
long_name = refl
