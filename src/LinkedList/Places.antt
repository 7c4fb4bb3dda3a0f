-- ===== src/LinkedList/Places.antt =====
-- The three places of a new node.
use eltex_summer.Base.{
  ℕ, zero, suc, ◌<◌, ◌≡◌, refl, sym, ◌∙◌, Bool, true, false, some, [], ◌∷◌, ◌++◌, arith, ◌==◌,
  length,
}
use eltex_summer.Heap.{Ptr, null, node, Heap, Ends, ends, write}
use eltex_summer.Heap.Chain.{
  Cells, Gives, gives, bind, has, first, last, Chain, IsList, load-eq, last-append, split,
}
use eltex_summer.Heap.Split.{
  fresh_seam, Chain-with, Parted-fresh, set_next-left, set_prev-right, set_next-here, set_prev-here,
  load-last, last-not_null, first-not_null,
}
use eltex_summer.Heap.Walk.{AllKeep}
use eltex_summer.LinkedList.{create_node, walk_next, insert_front, insert_end, insert_after}

module _ {V : Type 0} where
  -- The value stands between the runs.
  abbrev pub Inserted : Cells V → Cells V → Ptr → V → Bool × Ends × Heap V → Type 0
  Inserted us ws n x (ok, e, g) = (ok ≡ true) × IsList g e (us ++ (n, x) ∷ ws)

  module _ (keep : V → Bool) where
    -- The search for the place: it stops before the first value behind the head that fails the test.
    pub walk_next-first_failing :
        (f : ℕ) (h : Heap V) (start a : Ptr) (v : V) (us : Cells V) (b : Ptr) (w : V) (ws : Cells V)
        → Chain h start null ((a, v) ∷ us ++ (b, w) ∷ ws)
        → AllKeep keep us
        → keep w ≡ false
        → length (us ++ (b, w) ∷ ws) < f
        → walk_next f h keep a ≡ some (last a us)
    unfolding walk_next
    walk_next-first_failing zero h start a v us b w ws c k e l = elim l [ ]
    walk_next-first_failing (suc f) h start a v [] b w ws (n, q, o, (m, r, j, c)) k e l =
        rw (load-eq h a (node v b start) n q, m, load-eq h b (node w (first null ws) a) m r, e) refl
    walk_next-first_failing (suc f) h start a v ((d, u) ∷ us) b w ws (n, q, o, (m, r, j, c))
          (k, all) e l =
        rw
          (
            load-eq h a (node v d start) n q,
            m,
            load-eq h d (node u (first null (us ++ (b, w) ∷ ws)) a) m r,
            k,
          )
          (walk_next-first_failing f h a d u us b w ws (m, r, j, c) all e (omega arith))

  module _ (n : Ptr) (x : V) (h : Heap V) (nn : (n == null) ≡ false) where
    pub insert_front-Inserted :
        (b : Ptr) (w : V) (ws : Cells V)
        → let zs = (b, w) ∷ ws in
          Chain h null null zs
          → has n zs ≡ false
          → Gives (Inserted [] zs n x) (insert_front (create_node n h x) (ends b (last null zs)) n)
    unfolding insert_front create_node
    insert_front-Inserted b w ws c f =
        let zs = (b, w) ∷ ws in
        let s = fresh_seam h [] zs n nn f c in
        let t = Parted-fresh [] zs n x h s c in
        let nb = first-not_null h null null b w ws c in
        bind (set_next-here [] zs n x nn refl s.not_right tt t b) (λ h1 t1. rw nb (
          bind (set_prev-right n x [] zs s.not_right tt t1 nb n) (λ h2 t2. gives (
            refl,
            record {
              chain =
                  Chain-with [] zs n x h2 s
                    (record { left = tt; here = t2.here; right = t2.right });
              at_head = refl;
              at_tail = refl;
            },
          ))))

    pub insert_end-Inserted :
        (a : Ptr) (v : V) (us : Cells V)
        → let vs = (a, v) ∷ us in
          Chain h null null (vs ++ [])
          → has n (vs ++ []) ≡ false
          → Gives (Inserted vs [] n x) (insert_end (create_node n h x) (ends a (last null vs)) n)
    unfolding insert_end create_node
    insert_end-Inserted a v us c f =
        let vs = (a, v) ∷ us in
        let s = fresh_seam h vs [] n nn f c in
        let t = Parted-fresh vs [] n x h s c in
        let (l, r, d) = split h null null vs [] c in
        let nl = last-not_null h null null a v us l in
        bind (set_prev-here vs [] n x nn s.not_left s.not_right s.apart t (last null vs)) (λ h1 t1.
          rw (load-eq h1 n (node x null (last null vs)) nn t1.here) (
            bind (set_next-left n x vs [] s.not_left s.apart t1 nl n) (λ h2 t2.
              bind (set_next-here vs [] n x nn s.not_left s.not_right s.apart t2 null) (λ h3 t3.
                gives (
                  refl,
                  record {
                    chain =
                        Chain-with vs [] n x h3 s
                          (record { left = t3.left; here = t3.here; right = tt });
                    at_head = refl;
                    at_tail = sym (last-append null vs ((n, x) ∷ []));
                  },
                )))))

    pub insert_after-Inserted :
        (a : Ptr) (v : V) (us : Cells V) (b : Ptr) (w : V) (ws : Cells V)
        → let vs = (a, v) ∷ us in
          let zs = (b, w) ∷ ws in
          Chain h null null (vs ++ zs)
          → has n (vs ++ zs) ≡ false
          → Gives
              (Inserted vs zs n x)
              (insert_after (create_node n h x) (ends a (last null (vs ++ zs))) n (last null vs))
    unfolding insert_after create_node
    insert_after-Inserted a v us b w ws c f =
        let vs = (a, v) ∷ us in
        let zs = (b, w) ∷ ws in
        let s = fresh_seam h vs zs n nn f c in
        let t = Parted-fresh vs zs n x h s c in
        let (l, r, d) = split h null null vs zs c in
        let nl = last-not_null h null b a v us l in
        let nb = first-not_null h (last null vs) null b w ws r in
        let (p0, q0) = load-last (write h n (some (node x null null))) null b a v us t.left in
        rw q0 (
          bind (set_next-here vs zs n x nn s.not_left s.not_right s.apart t b) (λ h1 t1.
            bind (set_prev-here vs zs n x nn s.not_left s.not_right s.apart t1 (last null vs))
              (λ h2 t2.
                let (p2, q2) = load-last h2 null b a v us t2.left in
                rw q2 (
                  bind (set_prev-right n x vs zs s.not_right s.apart t2 nb n) (λ h3 t3.
                    bind (set_next-left n x vs zs s.not_left s.apart t3 nl n) (λ h4 t4. gives (
                      refl,
                      record {
                        chain = Chain-with vs zs n x h4 s t4;
                        at_head = refl;
                        at_tail = last-append null vs zs ∙ sym (last-append null vs ((n, x) ∷ zs));
                      },
                    )))))))
