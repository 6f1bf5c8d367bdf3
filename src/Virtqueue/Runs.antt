-- ===== src/Virtqueue/Runs.antt =====
-- A queue of kernel/src/virtqueue.rs over time: the driver's operations and the device's writes, in
-- any order, as steps of the abstract queue of free descriptors and requests in flight.
use the_rack.Base.{
  ℕ, ◌+◌, ◌%◌, ◌≤◌, ◌<◌, ◌≡◌, ◌≢◌, ◌==◌, Bool-cases, refl, subst, inl, inr, Option, some, List, [],
  ◌∷◌, ◌++◌, length, arith, Result, ok, panic,
}
use the_rack.Frames.Allocator.{Memory, Frame}
use the_rack.Virtqueue.{
  Buffer, Queue, success, failure, add, take_used, queue_size, used_offset, used_length, used_head,
  used_index, Outcome,
}
use the_rack.Virtqueue.Ring.{AreBytes}
use the_rack.Virtqueue.Chain.{take, drop, take-++-drop}
use the_rack.Virtqueue.Filling.{AllWf}
use the_rack.Virtqueue.Adding.{AddReturns, add-AddReturns}
use the_rack.Virtqueue.Taking.{Finished, take_used-Taken, take_used-none}
use the_rack.Virtqueue.Represents.{Request, Represents, Represents-same}

-- A step of the abstract queue.
pub data Spec : List ℕ → List Request → List ℕ → List Request → Type 0 where
  submit :
      (free : List ℕ) (requests : List Request) (head : ℕ) (buffers : List Buffer)
      → 0 < length buffers
      → length buffers ≤ length free
      → Spec free requests
          (drop (length buffers) free)
          (record { head = head; slots = take (length buffers) free; buffers = buffers } ∷ requests)
  finish :
      (free : List ℕ) (before after : List Request) (r : Request)
      → Spec free (before ++ r ∷ after) (r.slots ++ free) (before ++ after)
  idle : (free : List ℕ) (requests : List Request) → Spec free requests free requests

-- The device writes anywhere but in the driver's half of the rings.
pub record DeviceStep (frame : Frame) (m n : Memory) : Type 0 where
  pub own : (a : ℕ) → frame ≤ a → a < frame + used_offset → n.bytes a ≡ m.bytes a
  pub bytes_fit : AreBytes n

-- A step of the driver or of the device.
pub data Step : Queue → Memory → Queue → Memory → Type 0 where
  driver_adds :
      (q q' : Queue) (m n : Memory) (buffers : List Buffer) (head : ℕ)
      → AllWf buffers
      → add q buffers m ≡ ok (success head, q', n)
      → Step q m q' n
  driver_takes :
      (q q' : Queue) (m n : Memory) (answer : Option (ℕ × ℕ))
      → take_used q m ≡ ok (answer, q', n)
      → Step q m q' n
  device_writes : (q : Queue) (m n : Memory) → DeviceStep q.frame m n → Step q m q n

-- The next entry of the used ring, if the device has written one, names a request in flight.
unfoldable pub IsHonest : Queue → Memory → List Request → Type 0
IsHonest q m requests =
    q.last_used ≢ used_index q.frame m
    → (before : List Request) × (after : List Request) × (r : Request) × (requests
        ≡ before ++ r ∷ after)
      × Finished q m r

-- The abstract queue makes a step to one that `q` in `n` represents.
pub Follows : List ℕ → List Request → Queue → Memory → Type 0
Follows free requests q n =
    (free' : List ℕ) × (requests' : List Request) × Spec free requests free' requests'
    × Represents q n free' requests'

module _ (q : Queue) (m : Memory) (free : List ℕ) (requests : List Request)
    (h : Represents q m free requests) where
  AddFollows : Result (Outcome ℕ × Queue × Memory) → Type 0
  AddFollows (ok (success head, q', n)) = Follows free requests q' n
  AddFollows r = Unit

  add_follows :
      (buffers : List Buffer)
      → (r : Result (Outcome ℕ × Queue × Memory)) → AddReturns q buffers m free requests r
      → AddFollows r
  unfolding AddFollows Follows
  add_follows buffers panic a = tt
  add_follows buffers (ok (failure e, q', n)) a = tt
  add_follows buffers (ok (success head, q', n)) a =
      (_, _, submit free requests head buffers a.nonempty a.enough, a.represents)

  TakeFollows : Result (Option (ℕ × ℕ) × Queue × Memory) → Type 0
  TakeFollows panic = ⊥
  TakeFollows (ok (answer, q', n)) = Follows free requests q' n

  take_follows : IsHonest q m requests → TakeFollows (take_used q m)
  unfolding IsHonest Follows TakeFollows
  take_follows honest = elim (Bool-cases (q.last_used == used_index q.frame m)) [
    | inl level ↦ rw (take_used-none q m (ground arith)) (free, requests, idle free requests, h)
    | inr ahead ↦
        let (before, after, r, e, f) = honest (ground arith) in
        let (q', n, ran, t) =
          take_used-Taken q m free before after r (subst (Represents q m free) e h) f in
        rw (ran, e) (r.slots ++ free, before ++ after, finish free before after r, t.represents)
  ]

-- Refinement. The abstract queue is a list of free descriptors and the requests in flight; it may
-- move the front of the free list into a new request, free the descriptors of a request in flight,
-- or stay. Where a queue represents such a state and the device names only requests in flight,
-- whatever step the driver makes by `add` or `take_used`, or the device by writing outside the
-- driver's half of the rings, the abstract queue can make a step too, after which the queue
-- represents its state again.
pub Step-Follows :
    (q q' : Queue) (m n : Memory) (free : List ℕ) (requests : List Request)
    → Represents q m free requests
    → IsHonest q m requests
    → Step q m q' n
    → Follows free requests q' n
unfolding AddFollows TakeFollows Follows
Step-Follows q q' m n free requests h honest (driver_adds _ _ _ _ buffers head wf ran) =
    subst (AddFollows q m free requests h) ran
      (add_follows q m free requests h buffers _ (add-AddReturns q buffers m free requests h wf))
Step-Follows q q' m n free requests h honest (driver_takes _ _ _ _ answer ran) =
    subst (TakeFollows q m free requests h) ran (take_follows q m free requests h honest)
Step-Follows q q' m n free requests h honest (device_writes _ _ _ d) =
    (free, requests, idle free requests, Represents-same q m n free requests d.own d.bytes_fit h)

-- A request that was queued and then finished by the device, before any other, gives the queue
-- back as it was: the same free list in the same order, the same requests in flight and the same
-- free count.
pub add-take_used :
    (q q' : Queue) (m n o : Memory) (free : List ℕ) (requests : List Request)
    (buffers : List Buffer) (head : ℕ)
    → Represents q m free requests
    → AllWf buffers
    → add q buffers m ≡ ok (success head, q', n)
    → DeviceStep q.frame n o
    → q.last_used ≢ used_index q.frame o
    → used_head q.frame (q.last_used % queue_size) o ≡ head
    → (p : Queue) × (l : Memory) × (take_used q' o
        ≡ ok (some (head, used_length q.frame (q.last_used % queue_size) o), p, l))
      × Represents p l free requests
      × (p.free_count ≡ q.free_count)
add-take_used q q' m n o free requests buffers head h wf ran d ahead names =
    let a =
      subst (AddReturns q buffers m free requests) ran
        (add-AddReturns q buffers m free requests h wf) in
    let r : Request = record {
      head = head;
      slots = take (length buffers) free;
      buffers = buffers;
    } in
    let queued =
      Represents-same q' n o (drop (length buffers) free) (r ∷ requests) (rw a.same_frame d.own)
        d.bytes_fit a.represents in
    let f : Finished q' o r = record {
      ahead = rw (a.same_frame, a.last_same) ahead;
      names = rw (a.same_frame, a.last_same) names;
    } in
    let (p, l, ran', t) =
      take_used-Taken q' o (drop (length buffers) free) [] requests r queued f in
    let back =
      subst (λ xs. Represents p l xs requests) (take-++-drop (length buffers) free) t.represents in
    let same : used_length q'.frame (q'.last_used % queue_size) o
        ≡ used_length q.frame (q.last_used % queue_size) o =
      rw (a.same_frame, a.last_same) refl in
    (
      p,
      l,
      subst (λ w. take_used q' o ≡ ok (some (head, w), p, l)) same ran',
      back,
      omega (arith, back.counted, h.counted),
    )
