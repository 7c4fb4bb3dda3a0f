-- ===== src/QueueChat/Delivery.antt =====
-- Who gets which message from the server of module3/06.
use eltex_summer.Base.{
  ℕ, ◌+◌, ◌≡◌, refl, Bool, false, List, [], ◌∷◌, arith, ◌==◌, ◌||◌, if◌then◌else◌, Bool-cases,
  Option-cases, inl, inr,
}
use eltex_summer.QueueChat.{
  Message, replace_first, replaced, add_client, remove_client, broadcast_message,
}

abbrev pub one_if : Bool → ℕ
one_if b = if b then 1 else 0

-- The slots that hold an id, and the messages that are sent to one.
unfoldable pub slots : ℕ → List ℕ → ℕ
slots x [] = 0
slots x (c ∷ cs) = one_if (c == x) + slots x cs

unfoldable pub copies : ℕ → List Message → ℕ
copies x [] = 0
copies x (m ∷ ms) = one_if (m.mtype == x) + copies x ms

-- A broadcast sends each id as many copies as it has slots, but none to the sender and none to 0.
pub copies-broadcast_message :
    (x : ℕ) (m : Message) (cs : List ℕ)
    → copies x (broadcast_message m cs) ≡ (if (x == 0) || (x == m.sender) then 0 else slots x cs)
unfolding copies broadcast_message slots
copies-broadcast_message x m [] = ground arith
copies-broadcast_message x m (c ∷ cs) = ground (arith, copies-broadcast_message x m cs)

-- One slot with the old value, if there is one, gets the new value.
replace_first-slots :
    (x old new : ℕ) (cs : List ℕ)
    → let r = replaced cs (replace_first old new cs) in
      slots x r.1 + (if r.0 then one_if (old == x) else 0)
      ≡ slots x cs + (if r.0 then one_if (new == x) else 0)
unfolding replace_first slots
replace_first-slots x old new [] = refl
replace_first-slots x old new (c ∷ cs) = elim (Bool-cases (c == old)) [
  | inl e ↦ rw e (ground arith)
  | inr e ↦ elim (Option-cases (replace_first old new cs)) [
    | inl q ↦ rw (e, q) refl
    | inr (n, q) ↦
        let ih : slots x n + one_if (old == x) ≡ slots x cs + one_if (new == x) =
          rw q at (replace_first-slots x old new cs) in
        rw (e, q) (ground (arith, ih))
  ]
]

zero_is_nobody : (x : ℕ) → (x == 0) ≡ false → (b : Bool) → (if b then one_if (0 == x) else 0) ≡ 0
zero_is_nobody x h b = ground arith

-- A connect that is let in takes one more slot for its sender, one that is turned away takes none; a
-- shutdown gives one slot of its sender back if it had one. No other client's slots change. No client
-- has the id 0.
pub add_client-slots :
    (x id : ℕ) (cs : List ℕ)
    → (x == 0) ≡ false
    → (id == 0) ≡ false
    → (slots x (add_client id cs).1
        ≡ slots x cs + (if (add_client id cs).0 then one_if (id == x) else 0))
      × (slots x (remove_client id cs).1 + (if (remove_client id cs).0 then one_if (id == x) else 0)
          ≡ slots x cs)
unfolding add_client remove_client
add_client-slots x id cs h k =
    let p = replace_first-slots x 0 id cs in
    let q = replace_first-slots x id 0 cs in
    let a = zero_is_nobody x h (replaced cs (replace_first 0 id cs)).0 in
    let b = zero_is_nobody x h (replaced cs (replace_first id 0 cs)).0 in
    (omega (arith, p, a), omega (arith, q, b))
