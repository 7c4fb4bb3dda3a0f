-- ===== src/Heap/Split.antt =====
-- A chain taken apart at a node, or at the place where a node is put in.
use eltex_summer.Base.{ℕ, ◌≡◌, refl, ◌∙◌, false, some, [], ◌∷◌, ◌++◌, ◌==◌, arith, sym}
use eltex_summer.Heap.{Ptr, null, node, Heap, Ends, write, load, set_next, set_prev}
use eltex_summer.Heap.Chain.{
  Cells, Gives, Gives-eq, mono, values, final, has, first, last, Apart, Chain, IsList, frame-write,
  frame-Outside, frame-Outside_left, set_next-last, set_prev-first, set_next-eq, set_prev-eq,
  load-eq, write_self, split, join, has-append, or_eq_false,
}

-- The run `us` leads to the address `s`, `ws` comes from `p`, and the node at `n` stands by itself.
pub record Parted {V : Type 0} (us ws : Cells V) (n : Ptr) (x : V) (nx np s p : Ptr) (h : Heap V)
    : Type 0 where
  pub left : Chain h null s us
  pub here : h n ≡ some (node x nx np)
  pub right : Chain h p null ws

module _ {V : Type 0} (us ws : Cells V) (n : Ptr) (x : V) (nn : (n == null) ≡ false)
    (un : has n us ≡ false) (wn : has n ws ≡ false) (apart : Apart us ws) {nx np s p : Ptr}
    {h : Heap V} (t : Parted us ws n x nx np s p h) where
  pub set_next-here : (q : Ptr) → Gives (Parted us ws n x q np s p) (set_next h n q)
  set_next-here q = Gives-eq (set_next-eq h n (node x nx np) nn t.here q) (record {
    left = frame-write h null s us n _ un t.left;
    here = write_self h n _;
    right = frame-write h p null ws n _ wn t.right;
  })

  pub set_prev-here : (q : Ptr) → Gives (Parted us ws n x nx q s p) (set_prev h n q)
  set_prev-here q = Gives-eq (set_prev-eq h n (node x nx np) nn t.here q) (record {
    left = frame-write h null s us n _ un t.left;
    here = write_self h n _;
    right = frame-write h p null ws n _ wn t.right;
  })

  pub load-here : load h n ≡ some (node x nx np)
  load-here = load-eq h n (node x nx np) nn t.here

-- The pointers into the runs: where a run is empty there is nothing to write through.
module _ {V : Type 0} (n : Ptr) (x : V) {nx np s p : Ptr} {h : Heap V} where
  pub set_next-left :
      (us ws : Cells V)
      → has n us ≡ false
      → Apart us ws
      → Parted us ws n x nx np s p h
      → (last null us == null) ≡ false
      → (q : Ptr) → Gives (Parted us ws n x nx np q p) (set_next h (last null us) q)
  set_next-left [] ws un apart t e q = absurd (ground arith)
  set_next-left ((a, v) ∷ us) ws un apart t e q =
      mono (set_next-last h null s q a v us t.left) (λ g (l, same). record {
        left = l;
        here = same n un ∙ t.here;
        right = frame-Outside h g ((a, v) ∷ us) ws p null apart same t.right;
      })

  pub set_prev-right :
      (us ws : Cells V)
      → has n ws ≡ false
      → Apart us ws
      → Parted us ws n x nx np s p h
      → (first null ws == null) ≡ false
      → (q : Ptr) → Gives (Parted us ws n x nx np s q) (set_prev h (first null ws) q)
  set_prev-right us [] wn apart t e q = absurd (ground arith)
  set_prev-right us ((a, v) ∷ ws) wn apart t e q =
      mono (set_prev-first h p null q a v ws t.right) (λ g (r, same). record {
        left = frame-Outside_left h g us ((a, v) ∷ ws) null s apart same t.left;
        here = same n wn ∙ t.here;
        right = r;
      })

-- Apart from a run with one more node in front.
eq_sym : (a b : ℕ) → (a == b) ≡ false → (b == a) ≡ false
eq_sym a b h = ground arith

module _ {V : Type 0} where
  pub Apart-of_cons :
      (us ws : Cells V) (n : Ptr) (x : V)
      → Apart us ((n, x) ∷ ws)
      → (has n us ≡ false) × Apart us ws
  Apart-of_cons [] ws n x d = (refl, tt)
  Apart-of_cons ((a, v) ∷ us) ws n x (o, d) =
      let (e, f) = or_eq_false (a == n) (has a ws) o in
      let (u, r) = Apart-of_cons us ws n x d in (rw (eq_sym a n e) u, (f, r))

  pub Apart-cons :
      (us ws : Cells V) (n : Ptr) (x : V) → has n us ≡ false → Apart us ws → Apart us ((n, x) ∷ ws)
  Apart-cons [] ws n x u d = tt
  Apart-cons ((a, v) ∷ us) ws n x u (o, d) =
      let (e, f) = or_eq_false (n == a) (has n us) u in
      (rw (eq_sym n a e) o, Apart-cons us ws n x f d)

-- A node with two runs round it: none of its addresses is used twice.
pub record Seam {V : Type 0} (us ws : Cells V) (n : Ptr) : Type 0 where
  pub not_null : (n == null) ≡ false
  pub not_left : has n us ≡ false
  pub not_right : has n ws ≡ false
  pub apart : Apart us ws

module _ {V : Type 0} (us ws : Cells V) (n : Ptr) (x : V) (h : Heap V) where
  pub seam_of_chain : Chain h null null (us ++ (n, x) ∷ ws) → Seam us ws n
  seam_of_chain c =
      let (l, (nn, e, wn, r), d) = split h null null us ((n, x) ∷ ws) c in
      let (un, a) = Apart-of_cons us ws n x d in
      record { not_null = nn; not_left = un; not_right = wn; apart = a }

  pub Parted-of_Chain :
      Chain h null null (us ++ (n, x) ∷ ws) → Parted us ws n x (first null ws) (last null us) n n h
  Parted-of_Chain c =
      let (l, (nn, e, wn, r), d) = split h null null us ((n, x) ∷ ws) c in
      record { left = l; here = e; right = r }

  pub Chain-with :
      Seam us ws n
      → Parted us ws n x (first null ws) (last null us) n n h
      → Chain h null null (us ++ (n, x) ∷ ws)
  Chain-with s t =
      join h null null us ((n, x) ∷ ws) t.left (s.not_null, t.here, s.not_right, t.right)
        (Apart-cons us ws n x s.not_left s.apart)

  pub Chain-without :
      {nx np : Ptr}
      → Seam us ws n
      → Parted us ws n x nx np (first null ws) (last null us) h
      → Chain h null null (us ++ ws)
  Chain-without s t = join h null null us ws t.left t.right s.apart

  -- A fresh node beside a chain.
  pub Parted-fresh :
      Seam us ws n
      → Chain h null null (us ++ ws)
      → Parted us ws n x null null
          (first null ws)
          (last null us)
          (write h n (some (node x null null)))
  Parted-fresh s c =
      let (l, r, d) = split h null null us ws c in
      record {
        left = frame-write h null (first null ws) us n _ s.not_left l;
        here = write_self h n _;
        right = frame-write h (last null us) null ws n _ s.not_right r;
      }

-- Where a run is not empty its ends are nodes.
module _ {V : Type 0} (h : Heap V) where
  pub last-not_null :
      (start stop a : Ptr) (v : V) (xs : Cells V)
      → Chain h start stop ((a, v) ∷ xs)
      → (last start ((a, v) ∷ xs) == null) ≡ false
  last-not_null start stop a v [] (n, e, o, c) = n
  last-not_null start stop a v ((b, w) ∷ xs) (n, e, o, c) = last-not_null a stop b w xs c

  pub first-not_null :
      (start stop a : Ptr) (v : V) (xs : Cells V)
      → Chain h start stop ((a, v) ∷ xs)
      → (a == null) ≡ false
  first-not_null start stop a v xs (n, e, o, c) = n

  -- `head` is no NULL where there is a node.
  pub head-not_null :
      (q : Ends) (us : Cells V) (n : Ptr) (x : V) (ws : Cells V)
      → IsList h q (us ++ (n, x) ∷ ws)
      → (q.head == null) ≡ false
  head-not_null q [] n x ws l = rw l.at_head (first-not_null null null n x ws l.chain)
  head-not_null q ((a, v) ∷ us) n x ws l =
      rw l.at_head (first-not_null null null a v (us ++ (n, x) ∷ ws) l.chain)

  -- A fresh node beside a chain that is cut in two.
  pub fresh_seam :
      (us ws : Cells V) (n : Ptr)
      → (n == null) ≡ false
      → has n (us ++ ws) ≡ false
      → Chain h null null (us ++ ws)
      → Seam us ws n
  fresh_seam us ws n nn f c =
      let (a, b) = or_eq_false (has n us) (has n ws) (sym (has-append n us ws) ∙ f) in
      let (l, r, d) = split h null null us ws c in
      record { not_null = nn; not_left = a; not_right = b; apart = d }

  -- The last node of a run leads to where the run ends.
  pub load-last :
      (start stop a : Ptr) (v : V) (xs : Cells V)
      → Chain h start stop ((a, v) ∷ xs)
      → (p : Ptr) × (load h (last a xs) ≡ some (node (final v (values xs)) stop p))
  load-last start stop a v [] (n, e, o, c) = (start, load-eq h a (node v stop start) n e)
  load-last start stop a v ((b, w) ∷ xs) (n, e, o, c) = load-last a stop b w xs c
