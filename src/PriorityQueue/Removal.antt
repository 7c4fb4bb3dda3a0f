-- ===== src/PriorityQueue/Removal.antt =====
-- Taking an element out of the nodes takes it out of the sequence.
use eltex_summer.Base.{◌≡◌, refl, sym, ◌∙◌, none, some, [], ◌∷◌, ◌++◌}
use eltex_summer.Heap.{Ptr, null, node, Ends, load, set_prev}
use eltex_summer.Heap.Chain.{Cells, Gives, gives, bind, last, IsList, load-eq, last-append}
use eltex_summer.Heap.Split.{
  seam_of_chain, Parted-of_Chain, Chain-without, set_next-left, set_prev-right, last-not_null,
  first-not_null,
}
use eltex_summer.PriorityQueue.{QueueElement}
use eltex_summer.PriorityQueue.Nodes.{Store, unlink}

-- What the removal of the node `n` leaves: the pointer to it, its element in place, and the others.
pub record Removed (us ws : Cells QueueElement) (n : Ptr) (x : QueueElement)
    (r : Ptr × Ends × Store) : Type 0 where
  pub pointer : r.0 ≡ n
  pub element : (a b : Ptr) × (load r.2 n ≡ some (node x a b))
  pub others : IsList r.2 r.1 (us ++ ws)

pub unlink-only :
    (n : Ptr) (x : QueueElement) (h : Store) (q : Ends)
    → IsList h q ((n, x) ∷ [])
    → unlink h q n ≡ none
unfolding unlink set_prev load
unlink-only n x h q l = let (nn, e, o, c) = l.chain in rw (load-eq h n (node x null null) nn e) refl

module _ (n : Ptr) (x : QueueElement) (h : Store) (q : Ends) where
  pub unlink-head :
      (b : Ptr) (w : QueueElement) (ws : Cells QueueElement)
      → IsList h q ((n, x) ∷ (b, w) ∷ ws)
      → Gives (Removed [] ((b, w) ∷ ws) n x) (unlink h q n)
  unfolding unlink
  unlink-head b w ws l =
      let s = seam_of_chain [] ((b, w) ∷ ws) n x h l.chain in
      let t = Parted-of_Chain [] ((b, w) ∷ ws) n x h l.chain in
      let nb = first-not_null h n null b w ws t.right in
      rw (load-eq h n (node x b null) s.not_null t.here) (
        bind (set_prev-right n x [] ((b, w) ∷ ws) s.not_right tt t nb null) (λ g u. gives (record {
          pointer = refl;
          element = (b, null, load-eq g n (node x b null) s.not_null u.here);
          others = record { chain = u.right; at_head = refl; at_tail = l.at_tail };
        })))

  pub unlink-last :
      (a : Ptr) (v : QueueElement) (us : Cells QueueElement)
      → IsList h q (((a, v) ∷ us) ++ (n, x) ∷ [])
      → Gives (Removed ((a, v) ∷ us) [] n x) (unlink h q n)
  unfolding unlink
  unlink-last a v us l =
      let vs = (a, v) ∷ us in
      let s = seam_of_chain vs [] n x h l.chain in
      let t = Parted-of_Chain vs [] n x h l.chain in
      let nl = last-not_null h null n a v us t.left in
      rw (load-eq h n (node x null (last null vs)) s.not_null t.here, nl)
        (bind (set_next-left n x vs [] s.not_left s.apart t nl null) (λ g u. gives (record {
          pointer = refl;
          element =
              (null, last null vs, load-eq g n (node x null (last null vs)) s.not_null u.here);
          others = record {
            chain =
                Chain-without vs [] n x g s (record { left = u.left; here = u.here; right = tt });
            at_head = l.at_head;
            at_tail = sym (last-append null vs []);
          };
        })))

  pub unlink-middle :
      (a : Ptr) (v : QueueElement) (us : Cells QueueElement) (b : Ptr) (w : QueueElement)
      (ws : Cells QueueElement)
      → IsList h q (((a, v) ∷ us) ++ (n, x) ∷ (b, w) ∷ ws)
      → Gives (Removed ((a, v) ∷ us) ((b, w) ∷ ws) n x) (unlink h q n)
  unfolding unlink
  unlink-middle a v us b w ws l =
      let vs = (a, v) ∷ us in
      let zs = (b, w) ∷ ws in
      let c = node x b (last null vs) in
      let s = seam_of_chain vs zs n x h l.chain in
      let t = Parted-of_Chain vs zs n x h l.chain in
      let nl = last-not_null h null n a v us t.left in
      let nb = first-not_null h n null b w ws t.right in
      rw (load-eq h n c s.not_null t.here, nl, nb)
        (bind (set_next-left n x vs zs s.not_left s.apart t nl b) (λ g u.
          rw (load-eq g n c s.not_null u.here) (
            bind (set_prev-right n x vs zs s.not_right s.apart u nb (last null vs)) (λ k r.
              gives (record {
                pointer = refl;
                element = (b, last null vs, load-eq k n c s.not_null r.here);
                others = record {
                  chain = Chain-without vs zs n x k s r;
                  at_head = l.at_head;
                  at_tail =
                      l.at_tail ∙ last-append null vs ((n, x) ∷ zs) ∙ sym (last-append null vs zs);
                };
              })))))
