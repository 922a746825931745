-- ===== src/Book/V1/Snapshot.antt =====
-- `generateSnapshot` and `rebuildFromSnapshot`.
use libchronos.Base.{ℕ, ◌≡◌, refl, ap, sym, ◌∙◌, Bool, true, List, [], ◌∷◌, ◌++◌, All, subst}
use mathlib.Core.List.{append-nil, append_assoc}
use libchronos.Decimal.{Fixed, IsFixed, IsLine, ascending, descending}
use libchronos.Types.{PriceLevel}
use libchronos.Book.PriceMap.{assign, IsSorted}
use libchronos.Book.V1.{OrderBook, fill_map, rebuild_from_snapshot, update_hot_data}
use libchronos.Book.V1.Read.{generate_snapshot}
use libchronos.Book.V1.Refine.{IsBook, view}

module _ {D : Type 0} {before after same : D → D → Bool} (line : IsLine before after same) where
  open line use {before_asym}

  -- An entry behind all others goes to the end.
  assign-end :
      (l : PriceLevel D) (m : List (PriceLevel D))
      → All (λ x. before x.price l.price ≡ true) m
      → assign before l.price l.quantity m ≡ m ++ (l ∷ [])
  unfolding assign
  assign-end l [] all = refl
  assign-end l (x ∷ xs) all = rw all.0 (ap (◌∷◌ x) (assign-end l xs all.1))

  All-end :
      (p : D) (x : PriceLevel D) (m rest : List (PriceLevel D))
      → IsSorted before (m ++ (x ∷ rest))
      → All (λ y. before y.price x.price ≡ true) m
  All-end p x [] rest s = tt
  All-end p x (y ∷ ys) rest s = (first y ys rest s.0, All-end p x ys rest s.1)
    where
      first :
          (z : PriceLevel D) (m rest : List (PriceLevel D))
          → All (λ y. before z.price y.price ≡ true) (m ++ (x ∷ rest))
          → before z.price x.price ≡ true
      first z [] rest all = all.0
      first z (w ∷ ws) rest all = first z ws rest all.1

module _ {D : Type 0} ⦃fx : Fixed D⦄ {before after same : D → D → Bool}
    (line : IsLine before after same) where
  fill_map-sorted :
      (ls m : List (PriceLevel D)) → IsSorted before (m ++ ls) → fill_map before m ls ≡ m ++ ls
  unfolding fill_map
  fill_map-sorted [] m s = sym (append-nil m)
  fill_map-sorted (l ∷ ls) m s =
      ap (λ t. fill_map before t ls) (assign-end line l m (All-end line l.price l m ls s))
      ∙ fill_map-sorted ls (m ++ (l ∷ []))
          (subst (IsSorted before) (sym (append_assoc m (l ∷ []) ls)) s)
      ∙ append_assoc m (l ∷ []) ls

-- A book rebuilt from the snapshot of a valid book has the levels of that book.
pub rebuild-generate :
    {D : Type 0} ⦃fx : Fixed D⦄ (laws : IsFixed D) (b other : OrderBook D) (now_us : ℕ)
    → IsBook b
    → view (rebuild_from_snapshot other (generate_snapshot b) now_us) ≡ view b
unfolding rebuild_from_snapshot generate_snapshot update_hot_data
rebuild-generate laws b other now_us v = λ i. record {
  bids = fill_map-sorted (descending laws) b.bids [] v.bids_sorted i;
  asks = fill_map-sorted (ascending laws) b.asks [] v.asks_sorted i;
}
