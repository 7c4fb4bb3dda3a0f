-- ===== src/UdpServer/Table.antt =====
-- What the table of module3/c01 holds for each address.
use eltex_summer.Base.{
  ℕ, zero, suc, ◌≡◌, refl, ap, sym, ◌∙◌, true, false, Option, none, some, List, [], ◌∷◌, arith,
  if◌then◌else◌, ◌==◌, ◌&&◌, Bool-cases, Option-cases, inl, inr, modify,
}
use eltex_summer.UdpServer.{
  Client, is_at, find_client, idle_slot, find_or_add_client, new_client, increment, count_at,
  counted_in, count_message,
}

-- The count that the table holds for an address.
unfoldable pub lookup : ℕ → ℕ → List Client → Option ℕ
lookup ip port [] = none
lookup ip port (c ∷ cs) = if is_at ip port c then some c.count else lookup ip port cs

abbrev pub or_zero : Option ℕ → ℕ
or_zero none = 0
or_zero (some n) = n

-- Two addresses are different.
abbrev pub Other : ℕ → ℕ → ℕ → ℕ → Type 0
Other ip port ip' port' = (ip == ip') && (port == port') ≡ false

is_at-Other :
    (ip port ip' port' : ℕ) (c : Client)
    → Other ip port ip' port'
    → is_at ip port c ≡ true
    → is_at ip' port' c ≡ false
unfolding is_at
is_at-Other ip port ip' port' c o h = ground arith

lookup-find_client :
    (ip port : ℕ) (cs : List Client) → find_client ip port cs ≡ none → lookup ip port cs ≡ none
unfolding find_client lookup
lookup-find_client ip port [] h = refl
lookup-find_client ip port (c ∷ cs) h = elim (Bool-cases (is_at ip port c)) [
  | inl e ↦ absurd (ground (arith, h))
  | inr e ↦ elim (Option-cases (find_client ip port cs)) [
    | inl q ↦ rw e (lookup-find_client ip port cs q)
    | inr (i, q) ↦ absurd (ground (arith, h))
  ]
]

-- The message is counted in the slot that was found.
lookup-increment :
    (ip port : ℕ) (cs : List Client) (i : ℕ)
    → find_client ip port cs ≡ some i
    → (lookup ip port (modify increment i cs) ≡ some (count_at i (modify increment i cs)))
      × (count_at i (modify increment i cs) ≡ suc (or_zero (lookup ip port cs)))
unfolding find_client lookup is_at
lookup-increment ip port [] i h = cc
lookup-increment ip port (c ∷ cs) i h = elim (Bool-cases (is_at ip port c)) [
  | inl e ↦ let z : zero ≡ i = ground (arith, h) in rw (sym z) (rw e refl, rw e refl)
  | inr e ↦ elim (Option-cases (find_client ip port cs)) [
    | inl q ↦ absurd (ground (arith, h))
    | inr (n, q) ↦
        let z : suc n ≡ i = ground (arith, h) in
        let (a, b) = lookup-increment ip port cs n q in rw (sym z) (rw e a, rw e b)
  ]
]

lookup-increment-Other :
    (ip port ip' port' : ℕ) (cs : List Client) (i : ℕ)
    → Other ip port ip' port'
    → find_client ip port cs ≡ some i
    → lookup ip' port' (modify increment i cs) ≡ lookup ip' port' cs
unfolding find_client lookup is_at
lookup-increment-Other ip port ip' port' [] i o h = refl
lookup-increment-Other ip port ip' port' (c ∷ cs) i o h = elim (Bool-cases (is_at ip port c)) [
  | inl e ↦
      let z : zero ≡ i = ground (arith, h) in
      rw (sym z) (rw (is_at-Other ip port ip' port' c o e) refl)
  | inr e ↦ elim (Option-cases (find_client ip port cs)) [
    | inl q ↦ absurd (ground (arith, h))
    | inr (n, q) ↦
        let z : suc n ≡ i = ground (arith, h) in
        rw (sym z) (rw (lookup-increment-Other ip port ip' port' cs n o q) refl)
  ]
]

-- A client that is added into the first idle slot is found there, and takes no other's place.
find_client-new_client :
    (ip port : ℕ) (cs : List Client) (i : ℕ)
    → find_client ip port cs ≡ none
    → idle_slot cs ≡ some i
    → find_client ip port (modify (λ c. new_client ip port) i cs) ≡ some i
unfolding find_client idle_slot is_at
find_client-new_client ip port [] i h q = cc
find_client-new_client ip port (c ∷ cs) i h q = elim (Bool-cases c.active) [
  | inr a ↦
      let z : zero ≡ i = ground (arith, q) in
      let s : is_at ip port (new_client ip port) ≡ true = ground arith in rw (sym z) (rw s refl)
  | inl a ↦ elim (Option-cases (idle_slot cs)) [
    | inl r ↦ absurd (ground (arith, q))
    | inr (n, r) ↦
        let z : suc n ≡ i = ground (arith, q) in
        elim (Bool-cases (is_at ip port c)) [
          | inl e ↦ absurd (ground (arith, h))
          | inr e ↦ elim (Option-cases (find_client ip port cs)) [
            | inl t ↦ rw (sym z) (rw (e, find_client-new_client ip port cs n t r) refl)
            | inr (m, t) ↦ absurd (ground (arith, h))
          ]
        ]
  ]
]

lookup-new_client :
    (ip port ip' port' : ℕ) (cs : List Client) (i : ℕ)
    → Other ip port ip' port'
    → idle_slot cs ≡ some i
    → lookup ip' port' (modify (λ c. new_client ip port) i cs) ≡ lookup ip' port' cs
unfolding lookup idle_slot is_at
lookup-new_client ip port ip' port' [] i o q = refl
lookup-new_client ip port ip' port' (c ∷ cs) i o q = elim (Bool-cases c.active) [
  | inr a ↦
      let z : zero ≡ i = ground (arith, q) in
      let s : is_at ip' port' (new_client ip port) ≡ false = ground arith in
      let t : is_at ip' port' c ≡ false = ground arith in rw (sym z) (rw (s, t) refl)
  | inl a ↦ elim (Option-cases (idle_slot cs)) [
    | inl r ↦ absurd (ground (arith, q))
    | inr (n, r) ↦
        let z : suc n ≡ i = ground (arith, q) in
        rw (sym z) (rw (lookup-new_client ip port ip' port' cs n o r) refl)
  ]
]

lookup-new_client_self :
    (ip port : ℕ) (cs : List Client) (i : ℕ)
    → find_client ip port cs ≡ none
    → idle_slot cs ≡ some i
    → or_zero (lookup ip port (modify (λ c. new_client ip port) i cs)) ≡ 0
unfolding lookup idle_slot find_client is_at
lookup-new_client_self ip port [] i h q = refl
lookup-new_client_self ip port (c ∷ cs) i h q = elim (Bool-cases c.active) [
  | inr a ↦
      let z : zero ≡ i = ground (arith, q) in
      let s : is_at ip port (new_client ip port) ≡ true = ground arith in rw (sym z) (rw s refl)
  | inl a ↦ elim (Option-cases (idle_slot cs)) [
    | inl r ↦ absurd (ground (arith, q))
    | inr (n, r) ↦
        let z : suc n ≡ i = ground (arith, q) in
        elim (Bool-cases (is_at ip port c)) [
          | inl e ↦ absurd (ground (arith, h))
          | inr e ↦ elim (Option-cases (find_client ip port cs)) [
            | inl t ↦ rw (sym z) (rw e (lookup-new_client_self ip port cs n t r))
            | inr (m, t) ↦ absurd (ground (arith, h))
          ]
        ]
  ]
]

found :
    (ip port : ℕ) (cs : List Client) (i : ℕ)
    → find_client ip port cs ≡ some i
    → count_message ip port cs ≡ some (count_at i (modify increment i cs), modify increment i cs)
unfolding count_message find_or_add_client
found ip port cs i q =
    let e : find_or_add_client ip port cs ≡ some (i, cs) = rw (q, find_or_add_client) refl in
    ap (counted_in) e

full :
    (ip port : ℕ) (cs : List Client)
    → find_client ip port cs ≡ none
    → idle_slot cs ≡ none
    → count_message ip port cs ≡ none
unfolding count_message find_or_add_client
full ip port cs q r =
    let e : find_or_add_client ip port cs ≡ none = rw (q, r, find_or_add_client) refl in
    ap (counted_in) e

added :
    (ip port : ℕ) (cs : List Client) (i : ℕ)
    → find_client ip port cs ≡ none
    → idle_slot cs ≡ some i
    → let d = modify (λ c. new_client ip port) i cs in
      count_message ip port cs ≡ some (count_at i (modify increment i d), modify increment i d)
unfolding count_message find_or_add_client
added ip port cs i q r =
    let d = modify (λ c. new_client ip port) i cs in
    let e : find_or_add_client ip port cs ≡ some (i, d) = rw (q, r, find_or_add_client) refl in
    ap (counted_in) e

-- What counting a message leaves: the new count, under the address, and the rest as it was.
abbrev pub Counts : ℕ → ℕ → List Client → Option (ℕ × List Client) → Type 0
Counts ip port cs none = (lookup ip port cs ≡ none) × (idle_slot cs ≡ none)
Counts ip port cs (some (n, cs')) =
    (n ≡ suc (or_zero (lookup ip port cs)))
    × (lookup ip port cs' ≡ some n)
    × ((ip' port' : ℕ) → Other ip port ip' port' → lookup ip' port' cs' ≡ lookup ip' port' cs)

-- A message is counted with one more than the count of its address, a new address starting from
-- nothing; the table then has that count for the address, and what it had for every other. Only where
-- the address is unknown and no slot is idle is the NULL pointer followed.
pub count_message-Counts :
    (ip port : ℕ) (cs : List Client) → Counts ip port cs (count_message ip port cs)
count_message-Counts ip port cs = elim (Option-cases (find_client ip port cs)) [
  | inr (i, q) ↦
      let (a, b) = lookup-increment ip port cs i q in
      rw (found ip port cs i q)
        (b, a, λ ip' port' o. lookup-increment-Other ip port ip' port' cs i o q)
  | inl q ↦ elim (Option-cases (idle_slot cs)) [
    | inl r ↦ rw (full ip port cs q r) (lookup-find_client ip port cs q, r)
    | inr (i, r) ↦
        let d = modify (λ c. new_client ip port) i cs in
        let f = find_client-new_client ip port cs i q r in
        let (a, b) = lookup-increment ip port d i f in
        let z = lookup-new_client_self ip port cs i q r in
        let e : or_zero (lookup ip port cs) ≡ 0 = ap or_zero (lookup-find_client ip port cs q) in
        rw (added ip port cs i q r) (
          b ∙ ap suc (z ∙ sym e),
          a,
          λ ip' port' o.
              lookup-increment-Other ip port ip' port' d i o f
              ∙ lookup-new_client ip port ip' port' cs i o r,
        )
  ]
]
