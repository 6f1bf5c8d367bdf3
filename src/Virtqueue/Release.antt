-- ===== src/Virtqueue/Release.antt =====
-- `release` of kernel/src/virtqueue.rs after `new`.
use the_rack.Base.{ℕ, ◌≡◌, refl, subst, Result, ok, panic, arith, ◌∷◌}
use the_rack.Frames.Allocator.{Memory, free}
use the_rack.Frames.Allocator.Inv.{Inv}
use the_rack.Frames.Allocator.Release.{IsHeld, Released, FreeReturns, free-FreeReturns}
use the_rack.Frames.Allocator.RoundTrip.{SameMap}
use the_rack.Virtio.{Trace, Device, wrote}
use the_rack.Virtqueue.{Queue, success, new, release, queue_sel, queue_ready}
use the_rack.Virtqueue.Ring.{AreBytes}
use the_rack.Virtqueue.Building.{NewReturns, Built, new-NewReturns}

-- The queue's frame goes back, and the device is told before that the queue is not ready.
ReleaseReturns : Memory → ℕ → Trace → Result (Trace × Memory) → Type 0
ReleaseReturns m index t panic = ⊥
ReleaseReturns m index t (ok (t', o)) =
    (t' ≡ wrote queue_ready 0 ∷ wrote queue_sel index ∷ t) × SameMap m o

module _ (m n : Memory) (index : ℕ) (q : Queue) (t t' : Trace) (b : Built m index q t n) where
  held : IsHeld n q.frame b.place
  held = record {
    placed = omega (arith, b.placed, b.took.marks.base_same);
    inside = omega (arith, b.inside, b.took.marks.length_same);
    held = ground (arith, b.took.marks.reads b.place);
  }

  released :
      (r : Result Memory)
      → free q.frame n ≡ r
      → FreeReturns n q.frame r
      → ReleaseReturns m index t' (release q index t' n)
  unfolding ReleaseReturns release
  released panic e absent = absurd (absent b.place held)
  released (ok o) e (j, held', r) =
      let same : j ≡ b.place = omega (arith, held.placed, held'.placed) in
      let r' = subst (Released 1 n o) same r in
      rw e (
        refl,
        record {
          taken_same = λ i. ground (arith, b.took.marks.reads i, r'.marks.reads i, b.took.was_free);
          free_same = omega (arith, b.took.counted, r'.counted);
          reserved_same = ground (arith, b.took.reserved_same, r'.reserved_same);
          inv = r'.inv;
        },
      )

-- A queue that `new` built on a valid state can be released at once: `release` does not panic, tells
-- the device that the queue is not ready, and restores the allocator's map, both its counters and
-- the validity of the state.
pub new-release :
    (device : Device) (index : ℕ) (t t' : Trace) (m n : Memory) (q : Queue)
    → Inv m
    → AreBytes m
    → new device index t m ≡ ok (success q, t', n)
    → (o : Memory) × (release q index t' n
        ≡ ok (wrote queue_ready 0 ∷ wrote queue_sel index ∷ t', o))
      × SameMap m o
unfolding ReleaseReturns
new-release device index t t' m n q inv bytes ran =
    let (enough, b) =
      subst (NewReturns device index t m) ran (new-NewReturns device index t m inv bytes) in
    go (release q index t' n) refl
      (released m n index q t' t' b (free q.frame n) refl (free-FreeReturns n q.frame b.inv))
  where
    go :
        (r : Result (Trace × Memory))
        → release q index t' n ≡ r
        → ReleaseReturns m index t' r
        → (o : Memory) × (release q index t' n
            ≡ ok (wrote queue_ready 0 ∷ wrote queue_sel index ∷ t', o))
          × SameMap m o
    go panic e never = absurd never
    go (ok (s, o)) e (told, same) = (o, subst (λ x. release q index t' n ≡ ok (x, o)) told e, same)
