-- ===== src/QueueChat/Examples.antt =====
-- The chat server of module3/06 with a few clients.
use eltex_summer.Base.{ℕ, ◌≡◌, List, [], ◌∷◌}
use eltex_summer.QueueChat.{Message, broadcast_message}
use eltex_summer.QueueChat.Delivery.{slots, copies, copies-broadcast_message}

abbrev two_clients : List ℕ
two_clients = 21 ∷ 22 ∷ 0 ∷ []

abbrev hi : Message
hi = record { mtype = 10; sender = 21; mtext = b'h' ∷ b'i' ∷ [] }

copies-broadcast_message_example :
    copies 22 (broadcast_message hi two_clients) ≡ slots 22 two_clients
copies-broadcast_message_example = copies-broadcast_message 22 hi two_clients
