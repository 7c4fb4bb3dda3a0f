-- ===== src/PriorityQueue/Places.antt =====
-- The three places of a new element in the nodes.
use eltex_summer.Base.{◌≡◌, refl, sym, ◌∙◌, Bool, true, false, some, [], ◌∷◌, ◌++◌, ◌==◌}
use eltex_summer.Heap.{Ptr, null, node, Ends, ends, write}
use eltex_summer.Heap.Chain.{
  Cells, Gives, gives, bind, has, first, last, Chain, IsList, load-eq, last-append, split,
}
use eltex_summer.Heap.Split.{
  fresh_seam, Chain-with, Parted-fresh, set_next-left, set_prev-right, set_next-here, set_prev-here,
  last-not_null, first-not_null,
}
use eltex_summer.PriorityQueue.{QueueElement}
use eltex_summer.PriorityQueue.Nodes.{Store, link_last, link_first, link_before}

-- The element stands between the runs.
abbrev pub Inserted :
    Cells QueueElement → Cells QueueElement → Ptr → QueueElement → Bool × Ends × Store → Type 0
Inserted us ws n x (ok, e, g) = (ok ≡ true) × IsList g e (us ++ (n, x) ∷ ws)

module _ (n : Ptr) (x : QueueElement) (h : Store) (nn : (n == null) ≡ false) where
  abbrev h0 : Store
  h0 = write h n (some (node x null null))

  pub link_last-Inserted :
      (a : Ptr) (v : QueueElement) (us : Cells QueueElement)
      → let vs = (a, v) ∷ us in
        Chain h null null (vs ++ [])
        → has n (vs ++ []) ≡ false
        → Gives (Inserted vs [] n x) (link_last h0 (ends a (last null vs)) n)
  unfolding link_last
  link_last-Inserted a v us c f =
      let vs = (a, v) ∷ us in
      let s = fresh_seam h vs [] n nn f c in
      let t = Parted-fresh vs [] n x h s c in
      let (l, r, d) = split h null null vs [] c in
      let nl = last-not_null h null null a v us l in
      bind (set_next-left n x vs [] s.not_left s.apart t nl n) (λ g u.
        bind (set_prev-here vs [] n x nn s.not_left s.not_right s.apart u (last null vs)) (λ k w.
          gives (
            refl,
            record {
              chain =
                  Chain-with vs [] n x k s (record { left = w.left; here = w.here; right = tt });
              at_head = refl;
              at_tail = sym (last-append null vs ((n, x) ∷ []));
            },
          )))

  pub link_first-Inserted :
      (b : Ptr) (w : QueueElement) (ws : Cells QueueElement)
      → let zs = (b, w) ∷ ws in
        Chain h null null zs
        → has n zs ≡ false
        → Gives (Inserted [] zs n x) (link_first h0 (ends b (last null zs)) n)
  unfolding link_first
  link_first-Inserted b w ws c f =
      let zs = (b, w) ∷ ws in
      let s = fresh_seam h [] zs n nn f c in
      let t = Parted-fresh [] zs n x h s c in
      let nb = first-not_null h null null b w ws c in
      bind (set_prev-right n x [] zs s.not_right tt t nb n) (λ g u.
        bind (set_next-here [] zs n x nn refl s.not_right tt u b) (λ k r. gives (
          refl,
          record {
            chain = Chain-with [] zs n x k s (record { left = tt; here = r.here; right = r.right });
            at_head = refl;
            at_tail = refl;
          },
        )))

  pub link_before-Inserted :
      (a : Ptr) (v : QueueElement) (us : Cells QueueElement) (b : Ptr) (w : QueueElement)
      (ws : Cells QueueElement)
      → let vs = (a, v) ∷ us in
        let zs = (b, w) ∷ ws in
        Chain h null null (vs ++ zs)
        → has n (vs ++ zs) ≡ false
        → Gives (Inserted vs zs n x) (link_before h0 (ends a (last null (vs ++ zs))) n b)
  unfolding link_before
  link_before-Inserted a v us b w ws c f =
      let vs = (a, v) ∷ us in
      let zs = (b, w) ∷ ws in
      let s = fresh_seam h vs zs n nn f c in
      let t = Parted-fresh vs zs n x h s c in
      let (l, r, d) = split h null null vs zs c in
      let nl = last-not_null h null b a v us l in
      let nb = first-not_null h (last null vs) null b w ws r in
      let cell = node w (first null ws) (last null vs) in
      bind (set_next-here vs zs n x nn s.not_left s.not_right s.apart t b) (λ h1 t1.
        rw (load-eq h1 b cell nb t1.right.1) (
          bind (set_prev-here vs zs n x nn s.not_left s.not_right s.apart t1 (last null vs))
            (λ h2 t2. rw (load-eq h2 b cell nb t2.right.1) (
              bind (set_next-left n x vs zs s.not_left s.apart t2 nl n) (λ h3 t3.
                bind (set_prev-right n x vs zs s.not_right s.apart t3 nb n) (λ h4 t4. gives (
                  refl,
                  record {
                    chain = Chain-with vs zs n x h4 s t4;
                    at_head = refl;
                    at_tail = last-append null vs zs ∙ sym (last-append null vs ((n, x) ∷ zs));
                  },
                )))))))
