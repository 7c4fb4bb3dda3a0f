-- ===== src/LinkedList/Skips.antt =====
-- The neighbours of a node are led past it.
use eltex_summer.Base.{◌≡◌, refl, sym, ap, ◌∙◌, none, [], ◌∷◌, ◌++◌, arith}
use eltex_summer.Heap.{Ptr, null, node, Heap, Ends, ends, free}
use eltex_summer.Heap.Chain.{
  Cells, Gives, gives, Gives-eq, bind, first, last, IsList, load-eq, free-eq, last-append,
  frame-write, write_self, has-append,
}
use eltex_summer.Heap.Split.{
  Parted, Seam, seam_of_chain, Parted-of_Chain, Chain-without, set_next-left, set_prev-right,
  last-not_null, first-not_null,
}
use eltex_summer.LinkedList.{skip_from_prev, skip_from_next, unlink_found}

ends_eq : (e : Ends) (a b : Ptr) → e.head ≡ a → e.tail ≡ b → e ≡ ends a b
ends_eq e a b p q = ground (arith, p, q)

module _ {V : Type 0} where
  -- The neighbours of the node lead past it.
  abbrev pub Skipped : Cells V → Cells V → Ptr → V → Ends × Heap V → Type 0
  Skipped us ws n x (e, g) =
      Parted us ws n x (first null ws) (last null us) (first null ws) (last null us) g
      × (e ≡ ends (first null (us ++ ws)) (last null (us ++ ws)))

  -- The node is gone, and the others make the list.
  abbrev pub Deleted : Cells V → Cells V → Ptr → Ends × Heap V → Type 0
  Deleted us ws n (e, g) = (g n ≡ none) × IsList g e (us ++ ws)

  module _ (n : Ptr) (x : V) where
    last-behind :
        (us ws : Cells V) (b : Ptr) (w : V)
        → last null (us ++ (n, x) ∷ (b, w) ∷ ws) ≡ last null (us ++ (b, w) ∷ ws)
    last-behind us ws b w = last-append null us _ ∙ sym (last-append null us _)

    pub free-Deleted :
        (us ws : Cells V) (r : Ends × Heap V)
        → Seam us ws n
        → Skipped us ws n x r
        → Gives (λ g. Deleted us ws n (r.0, g)) (free r.1 n)
    free-Deleted us ws (e, g) s (t, q) =
        Gives-eq (free-eq g n (node x (first null ws) (last null us)) s.not_null t.here) (
          write_self g n none,
          record {
            chain =
                frame-write g null null (us ++ ws) n none
                  (has-append n us ws ∙ rw (s.not_left, s.not_right) refl)
                  (Chain-without us ws n x g s t);
            at_head = ap (λ (e : Ends). e.head) q;
            at_tail = ap (λ (e : Ends). e.tail) q;
          },
        )

    module _ (h : Heap V) (list : Ends) where
      pub skip_from_prev-Parted :
          (us ws : Cells V)
          → IsList h list (us ++ (n, x) ∷ ws)
          → Gives
              (λ (e, g).
                Parted us ws n x (first null ws) (last null us) (first null ws) n g
                × (e ≡ ends (first null (us ++ ws)) list.tail))
              (skip_from_prev h list n)
      unfolding skip_from_prev
      skip_from_prev-Parted [] ws l =
          let s = seam_of_chain [] ws n x h l.chain in
          let t = Parted-of_Chain [] ws n x h l.chain in
          rw (load-eq h n (node x (first null ws) null) s.not_null t.here)
            (gives (record { left = tt; here = t.here; right = t.right }, refl))
      skip_from_prev-Parted ((a, v) ∷ us) ws l =
          let vs = (a, v) ∷ us in
          let s = seam_of_chain vs ws n x h l.chain in
          let t = Parted-of_Chain vs ws n x h l.chain in
          let nl = last-not_null h null n a v us t.left in
          rw (load-eq h n (node x (first null ws) (last null vs)) s.not_null t.here, nl)
            (bind (set_next-left n x vs ws s.not_left s.apart t nl (first null ws))
              (λ g u. gives (u, ap (λ (p : Ptr). ends p list.tail) l.at_head)))

      pub skip_from_next-Skipped :
          (us ws : Cells V)
          → Seam us ws n
          → Parted us ws n x (first null ws) (last null us) (first null ws) n h
          → list.head ≡ first null (us ++ ws)
          → list.tail ≡ last null (us ++ (n, x) ∷ ws)
          → Gives (Skipped us ws n x) (skip_from_next h list n)
      unfolding skip_from_next
      skip_from_next-Skipped us [] s t e f =
          rw (load-eq h n (node x null (last null us)) s.not_null t.here) (
            gives (
              record { left = t.left; here = t.here; right = tt },
              ends_eq (ends list.head (last null us)) _ _ e (sym (last-append null us [])),
            ))
      skip_from_next-Skipped us ((b, w) ∷ ws) s t e f =
          let zs = (b, w) ∷ ws in
          let nb = first-not_null h n null b w ws t.right in
          rw (load-eq h n (node x b (last null us)) s.not_null t.here, nb)
            (bind (set_prev-right n x us zs s.not_right s.apart t nb (last null us))
              (λ g u. gives (u, ends_eq list _ _ e (f ∙ last-behind us ws b w))))

      pub unlink_found-Skipped :
          (us ws : Cells V)
          → IsList h list (us ++ (n, x) ∷ ws)
          → Gives (Skipped us ws n x) (unlink_found h list n)
      unfolding unlink_found
      unlink_found-Skipped [] [] l =
          let s = seam_of_chain [] [] n x h l.chain in
          let t = Parted-of_Chain [] [] n x h l.chain in
          rw (load-eq h n (node x null null) s.not_null t.here)
            (gives (record { left = tt; here = t.here; right = tt }, refl))
      unlink_found-Skipped [] ((b, w) ∷ ws) l =
          let zs = (b, w) ∷ ws in
          let s = seam_of_chain [] zs n x h l.chain in
          let t = Parted-of_Chain [] zs n x h l.chain in
          let nb = first-not_null h n null b w ws t.right in
          rw (load-eq h n (node x b null) s.not_null t.here, nb)
            (bind (set_prev-right n x [] zs s.not_right tt t nb null) (λ g u.
              gives (record { left = tt; here = u.here; right = u.right }, ap (ends b) l.at_tail)))
      unlink_found-Skipped ((a, v) ∷ us) [] l =
          let vs = (a, v) ∷ us in
          let s = seam_of_chain vs [] n x h l.chain in
          let t = Parted-of_Chain vs [] n x h l.chain in
          let nl = last-not_null h null n a v us t.left in
          rw (load-eq h n (node x null (last null vs)) s.not_null t.here, nl)
            (bind (set_next-left n x vs [] s.not_left s.apart t nl null) (λ g u. gives (
              record { left = u.left; here = u.here; right = tt },
              ends_eq (ends list.head (last null vs)) _ _ l.at_head (sym (last-append null vs [])),
            )))
      unlink_found-Skipped ((a, v) ∷ us) ((b, w) ∷ ws) l =
          let vs = (a, v) ∷ us in
          let zs = (b, w) ∷ ws in
          let c = node x b (last null vs) in
          let s = seam_of_chain vs zs n x h l.chain in
          let t = Parted-of_Chain vs zs n x h l.chain in
          let nl = last-not_null h null n a v us t.left in
          let nb = first-not_null h n null b w ws t.right in
          rw (load-eq h n c s.not_null t.here, nl, nb)
            (bind (set_next-left n x vs zs s.not_left s.apart t nl b) (λ g u.
              rw (load-eq g n c s.not_null u.here) (
                bind (set_prev-right n x vs zs s.not_right s.apart u nb (last null vs)) (λ k r.
                  gives (r, ends_eq list _ _ l.at_head (l.at_tail ∙ last-behind vs ws b w))))))
