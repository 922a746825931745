-- ===== src/Queue/Fifo.antt =====
-- The queue when its calls run one after the other: each call returns, and the queue is a list of at
-- most `capacity` values.
use libchronos.Base.{
  dec_lt, ℕ, zero, suc, ◌+◌, ◌-◌, ◌%◌, ◌^◌, ◌≤◌, ◌<◌, ◌≡◌, refl, ap, ap₂, ◌∙◌, Bool, true, false,
  Option, none, some, List, [], ◌∷◌, ◌++◌, length, if◌then◌else◌, ltb, arith, Bool-cases, ltb→lt,
  ◌⊎◌, inl, inr, sym,
}
use libchronos.Base.Words.{inc64}
use libchronos.Queue.{MpmcQueue, try_push, try_pop, store_push, store_pop}
use libchronos.Queue.Slots.{slot-add, slot-inj, is_zero-diff, is_negative-diff}
use libchronos.Queue.Order.{slice, length-slice, slice-suc}

module _ {A : Type 0} where
  slice-ext :
      (f g : ℕ → Option A) (from n : ℕ)
      → ((k : ℕ) → from ≤ k → k < from + n → f k ≡ g k)
      → slice f from n ≡ slice g from n
  unfolding slice
  slice-ext f g from zero e = refl
  slice-ext f g from (suc n) e =
      ap₂ (λ a l. a ∷ l) (e from (omega arith) (omega arith))
        (slice-ext f g (suc from) n (λ k a b. e k (omega arith) (omega arith)))

module _ {A : Type 0} (capacity : ℕ) where
  -- No call is under way.
  pub record IsCalm (q : MpmcQueue A) : Type 0 where
    pub ordered : q.tail ≤ q.head
    pub room : q.head ≤ q.tail + capacity
    pub live : (p : ℕ) → q.tail ≤ p → p < q.head → q.seq (p % capacity) ≡ p + 1
    pub taken : (p : ℕ) → p < q.tail → q.head ≤ p + capacity → q.seq (p % capacity) ≡ p + capacity
    pub fresh : (p : ℕ) → q.head ≤ p → p < capacity → q.seq (p % capacity) ≡ p

  -- The values in the queue, oldest first.
  unfoldable pub values : MpmcQueue A → List (Option A)
  values q = slice (λ p. q.data_at (p % capacity)) q.tail (q.head - q.tail)

  -- What a call gives of a bounded queue of values.
  pub record Pushed (q : MpmcQueue A) (val : A) : Type 0 where
    pub done : Bool
    pub after : MpmcQueue A
    pub returns : try_push capacity q val ≡ some (done, after)
    pub calm : IsCalm after
    pub drawn : after.head ≤ q.head + 1
    pub room_left : done ≡ ltb (length (values q)) capacity
    pub entered : values after ≡ (if done then values q ++ (some val ∷ []) else values q)

  pub record Popped (q : MpmcQueue A) : Type 0 where
    pub value : Option A
    pub after : MpmcQueue A
    pub returns : try_pop capacity q ≡ some (value, after)
    pub calm : IsCalm after
    pub head_kept : after.head ≡ q.head
    pub left :
        ((values q ≡ []) × (values after ≡ []) × (value ≡ none)) ⊎ (values q ≡ value ∷ values after)

  pub Pushed-cases :
      (q : MpmcQueue A) (val : A) (p : Pushed q val)
      → ((p.done ≡ true)
          × (length (values q) < capacity)
          × (values p.after ≡ values q ++ (some val ∷ [])))
        ⊎ ((p.done ≡ false) × (capacity ≤ length (values q)) × (values p.after ≡ values q))
  Pushed-cases q val p = elim (Bool-cases p.done) [
    | inl pushed ↦ inl (
      pushed,
      ltb→lt (length (values q)) capacity (sym p.room_left ∙ pushed),
      p.entered ∙ ap (λ b. if b then values q ++ (some val ∷ []) else values q) pushed,
    )
    | inr full ↦ inr (
      full,
      ground (arith, p.room_left, full),
      p.entered ∙ ap (λ b. if b then values q ++ (some val ∷ []) else values q) full,
    )
  ]

module _ {A : Type 0} (capacity : ℕ) (two : 2 ≤ capacity) where
  pub length-values : (q : MpmcQueue A) → length (values capacity q) ≡ q.head - q.tail
  unfolding values
  length-values q = length-slice (λ p. q.data_at (p % capacity)) q.tail (q.head - q.tail)

  -- The sequence number at the head tells whether there is room.
  head-seq :
      (q : MpmcQueue A)
      → IsCalm capacity q
      → ((q.seq (q.head % capacity) ≡ q.head) × (q.head < q.tail + capacity))
        ⊎ ((q.seq (q.head % capacity) < q.head) × (q.head ≡ q.tail + capacity))
  head-seq q v = elim (dec_lt q.head capacity) [
    | yes lt ↦ inl (v.fresh q.head (omega arith) lt, omega arith)
    | no ge ↦ ground (
      arith,
      v.live (q.head - capacity),
      v.taken (q.head - capacity),
      slot-add capacity (q.head - capacity),
      back,
      v.ordered,
      v.room,
    )
  ]
    where
      back : capacity ≤ q.head → (q.head - capacity + capacity) % capacity ≡ q.head % capacity
      back le = ap (λ k. k % capacity) (omega arith)

  -- And the one at the tail, whether there is a value.
  tail-seq :
      (q : MpmcQueue A)
      → IsCalm capacity q
      → ((q.seq (q.tail % capacity) ≡ q.tail + 1) × (q.tail < q.head))
        ⊎ ((q.seq (q.tail % capacity) ≡ q.tail) × (q.tail ≡ q.head))
  tail-seq q v = ground (arith, v.live q.tail, v.ordered, head-seq q v, same)
    where
      same : q.head ≡ q.tail → q.seq (q.head % capacity) ≡ q.seq (q.tail % capacity)
      same e = ap (λ k. q.seq (k % capacity)) e

  pub push-IsCalm :
      (q : MpmcQueue A) (val : A)
      → IsCalm capacity q
      → q.head + capacity < 2 ^ 63
      → q.head < q.tail + capacity
      → IsCalm capacity (store_push capacity q val q.head)
  push-IsCalm q val v small space = record {
    ordered = omega (arith, v.ordered);
    room = omega (arith, v.ordered);
    live = λ p a b. ground (arith, v.live p, slot-inj capacity p q.head);
    taken = λ p a b. ground (arith, v.taken p, v.ordered, slot-inj capacity p q.head);
    fresh = λ p a b. ground (arith, v.fresh p, slot-inj capacity q.head p);
  }

  pub push-values :
      (q : MpmcQueue A) (val : A)
      → IsCalm capacity q
      → q.head + capacity < 2 ^ 63
      → q.head < q.tail + capacity
      → values capacity (store_push capacity q val q.head) ≡ values capacity q ++ (some val ∷ [])
  unfolding values
  push-values q val v small space =
      ap (slice at q.tail) (omega (arith, v.ordered))
      ∙ slice-suc at q.tail (q.head - q.tail)
      ∙ ap₂ (λ xs a. xs ++ (a ∷ []))
          (slice-ext at (λ p. q.data_at (p % capacity)) q.tail (q.head - q.tail) others) last
    where
      at : ℕ → Option A
      at p = (store_push capacity q val q.head).data_at (p % capacity)

      others :
          (k : ℕ) → q.tail ≤ k → k < q.tail + (q.head - q.tail) → at k ≡ q.data_at (k % capacity)
      others k a b = ground (arith, v.ordered, slot-inj capacity k q.head)

      at_head : at (q.tail + (q.head - q.tail)) ≡ at q.head
      at_head = ap at (omega (arith, v.ordered))

      last : at (q.tail + (q.head - q.tail)) ≡ some val
      last = at_head ∙ ground arith

  pop-IsCalm :
      (q : MpmcQueue A)
      → IsCalm capacity q
      → q.head + capacity < 2 ^ 63
      → q.tail < q.head
      → IsCalm capacity (store_pop capacity q q.tail)
  pop-IsCalm q v small below = record {
    ordered = omega (arith, v.ordered);
    room = omega (arith, v.room);
    live = λ p a b. ground (arith, v.live p, v.room, slot-inj capacity q.tail p);
    taken = λ p a b. ground (arith, v.taken p, v.ordered, slot-inj capacity p q.tail, old p);
    fresh = λ p a b. ground (arith, v.fresh p, slot-inj capacity q.tail p);
  }
    where
      old : (p : ℕ) → p ≡ q.tail → p % capacity ≡ q.tail % capacity
      old p e = ap (λ k. k % capacity) e

  pop-values :
      (q : MpmcQueue A)
      → q.head + capacity < 2 ^ 63
      → q.tail < q.head
      → values capacity q
        ≡ q.data_at (q.tail % capacity) ∷ values capacity (store_pop capacity q q.tail)
  unfolding values slice
  pop-values q small below =
      ap (slice at q.tail) {x = q.head - q.tail} {y = suc (q.head - inc64 q.tail)} (omega arith)
      ∙ ap (λ k. at q.tail ∷ slice at k (q.head - inc64 q.tail)) (omega arith)
    where
      at : ℕ → Option A
      at p = q.data_at (p % capacity)

  -- On a queue of at least two slots on which no call is under way, and with fewer than
  -- 2 ^ 63 - capacity tickets drawn, try_push returns: true exactly where fewer than `capacity` values
  -- are queued, and then the value stands behind them; otherwise the queued values stay the same. It
  -- draws at most one ticket.
  pub try_push-Pushed :
      (q : MpmcQueue A) (val : A)
      → IsCalm capacity q
      → q.head + capacity < 2 ^ 63
      → Pushed capacity q val
  unfolding try_push
  try_push-Pushed q val v small = elim (head-seq q v) [
    | inl (free, space) ↦ record {
      done = true;
      after = store_push capacity q val q.head;
      returns = ground (arith, is_zero-diff (q.seq (q.head % capacity)) q.head, free);
      drawn = omega arith;
      calm = push-IsCalm q val v small space;
      room_left = ground (arith, length-values q, v.ordered);
      entered = push-values q val v small space;
    }
    | inr (late, full) ↦ record {
      done = false;
      after = q;
      returns = ground (
        arith,
        is_zero-diff (q.seq (q.head % capacity)) q.head,
        is_negative-diff (q.seq (q.head % capacity)) q.head,
        late,
      );
      calm = v;
      drawn = omega arith;
      room_left = ground (arith, length-values q);
      entered = refl;
    }
  ]

  -- On such a queue try_pop returns: the oldest value, which is then gone; or nothing, where the queue
  -- is empty.
  pub try_pop-Popped :
      (q : MpmcQueue A) → IsCalm capacity q → q.head + capacity < 2 ^ 63 → Popped capacity q
  unfolding try_pop
  try_pop-Popped q v small = elim (tail-seq q v) [
    | inl (full, below) ↦ record {
      value = q.data_at (q.tail % capacity);
      after = store_pop capacity q q.tail;
      returns = ground (arith, is_zero-diff (q.seq (q.tail % capacity)) (inc64 q.tail), full);
      head_kept = refl;
      calm = pop-IsCalm q v small below;
      left = inr (pop-values q small below);
    }
    | inr (empty, e) ↦ record {
      value = none;
      after = q;
      returns = ground (
        arith,
        is_zero-diff (q.seq (q.tail % capacity)) (inc64 q.tail),
        is_negative-diff (q.seq (q.tail % capacity)) (inc64 q.tail),
        empty,
      );
      calm = v;
      head_kept = refl;
      left = inl (none_left e, none_left e, refl);
    }
  ]
    where
      none_left : q.tail ≡ q.head → values capacity q ≡ []
      none_left e = ground (arith, length-values q)
