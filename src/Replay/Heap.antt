-- ===== src/Replay/Heap.antt =====
-- What the priority queue of the standard library promises, and a list that does so.
use libchronos.Base.{
  ℕ, ◌≤◌, ◌≡◌, Option, none, some, List, [], ◌∷◌, All, if◌then◌else◌, leb, leb→le, arith, sym, ap,
  subst, refl, ◌∙◌, Option-cases, Bool-cases, inl, inr,
}
use libchronos.Replay.{HeapEntry}

abbrev pub Pairwise {ℓ} : {A : Type ℓ} → (A → A → Type 0) → List A → Type 0
Pairwise R [] = Unit
Pairwise R (x ∷ xs) = All (R x) xs × Pairwise R xs

-- `top` and `pop` of a min-heap: the entry that they take out is an earliest one, and the others are
-- those that were there before.
pub record IsHeap (pop : List HeapEntry → Option (HeapEntry × List HeapEntry)) : Type 1 where
  pub least :
      (h : List HeapEntry) (e : HeapEntry) (rest : List HeapEntry)
      → pop h ≡ some (e, rest)
      → All (λ y. e.timestamp ≤ y.timestamp) rest
  pub parts :
      (P : HeapEntry → Type 0) (h : List HeapEntry) (e : HeapEntry) (rest : List HeapEntry)
      → pop h ≡ some (e, rest)
      → All P h
      → P e × All P rest
  pub pairs :
      (R : HeapEntry → HeapEntry → Type 0)
      → ((x y : HeapEntry) → R x y → R y x)
      → (h : List HeapEntry) (e : HeapEntry) (rest : List HeapEntry) → pop h ≡ some (e, rest)
      → Pairwise R h
      → All (R e) rest × Pairwise R rest

-- A list that is searched for an earliest entry.
abbrev pub pop_min : List HeapEntry → Option (HeapEntry × List HeapEntry)
pop_min [] = none
pop_min (x ∷ xs) =
    let rest = pop_min xs in
    elim rest [
      | none ↦ some (x, [])
      | some (y, ys) ↦ if leb x.timestamp y.timestamp then some (x, y ∷ ys) else some (y, x ∷ ys)
    ]

record Taken (h : List HeapEntry) (e : HeapEntry) (rest : List HeapEntry) : Type 1 where
  early : All (λ y. e.timestamp ≤ y.timestamp) rest
  same : (P : HeapEntry → Type 0) → All P h → P e × All P rest
  apart :
      (R : HeapEntry → HeapEntry → Type 0)
      → ((x y : HeapEntry) → R x y → R y x)
      → Pairwise R h
      → All (R e) rest × Pairwise R rest

All-later :
    (t u : ℕ) (xs : List HeapEntry)
    → t ≤ u
    → All (λ y. u ≤ y.timestamp) xs
    → All (λ y. t ≤ y.timestamp) xs
All-later t u [] le v = v
All-later t u (x ∷ xs) le v = (omega (arith, le, v.0), All-later t u xs le v.1)

pop_min-Taken :
    (h : List HeapEntry) (e : HeapEntry) (rest : List HeapEntry)
    → pop_min h ≡ some (e, rest)
    → Taken h e rest
pop_min-Taken [] e rest q = absurd (ground (arith, q))
pop_min-Taken (x ∷ xs) e rest q = elim (Option-cases (pop_min xs)) [
  | inl none_left ↦
      let did : pop_min (x ∷ xs) ≡ some (x, []) = rw none_left refl in
      moved (x, []) (sym did ∙ q)
        record { early = tt; same = λ P v. (v.0, tt); apart = λ R flip v. (tt, tt) }
  | inr ((y, ys), found) ↦
      let i : Taken xs y ys = pop_min-Taken xs y ys found in
      elim (Bool-cases (leb x.timestamp y.timestamp)) [
        | inl first ↦
            let did : pop_min (x ∷ xs) ≡ some (x, y ∷ ys) = rw (found, first) refl in
            moved (x, y ∷ ys) (sym did ∙ q)
              record {
                early = (
                  leb→le x.timestamp y.timestamp first,
                  All-later x.timestamp y.timestamp ys (leb→le x.timestamp y.timestamp first)
                      i.early,
                );
                same = λ P v. (v.0, i.same P v.1);
                apart = λ R flip v. (i.same (R x) v.0, i.apart R flip v.1);
              }
        | inr later ↦
            let did : pop_min (x ∷ xs) ≡ some (y, x ∷ ys) = rw (found, later) refl in
            moved (y, x ∷ ys) (sym did ∙ q)
              record {
                early = (ground (arith, later), i.early);
                same = λ P v. ((i.same P v.1).0, (v.0, (i.same P v.1).1));
                apart = λ R flip v. (
                  (flip x y (i.same (R x) v.0).0, (i.apart R flip v.1).0),
                  ((i.same (R x) v.0).1, (i.apart R flip v.1).1),
                );
              }
      ]
]
  where
    moved :
        (p : HeapEntry × List HeapEntry)
        → some p ≡ some (e, rest)
        → Taken (x ∷ xs) p.0 p.1
        → Taken (x ∷ xs) e rest
    moved p eq v =
        subst (λ (r : HeapEntry × List HeapEntry). Taken (x ∷ xs) r.0 r.1)
          (ap (λ o. elim o [ none ↦ p | some r ↦ r ]) eq) v

pub pop_min-IsHeap : IsHeap pop_min
pop_min-IsHeap = record {
  least = λ h e rest q. (pop_min-Taken h e rest q).early;
  parts = λ P h e rest q. (pop_min-Taken h e rest q).same P;
  pairs = λ R flip h e rest q. (pop_min-Taken h e rest q).apart R flip;
}
