-- ===== src/Virtqueue/Taking.antt =====
-- `take_used` and `recycle` of kernel/src/virtqueue.rs: a finished request and its descriptors.
use the_rack.Base.{
  ℕ, ◌+◌, ◌-◌, ◌*◌, ◌%◌, ◌^◌, ◌≤◌, ◌<◌, ◌≡◌, ◌≢◌, refl, ◌⊎◌, true, false, none, some, List, ◌∷◌,
  ◌++◌, length, arith, ok, if◌then◌else◌, ◌==◌, ltb,
}
use the_rack.Frames.Allocator.{Memory}
use the_rack.Virtqueue.{
  Queue, queue_size, recycle, take_used, used_index, used_head, used_length, chain_end,
  longest_walk, add_u16, rem, write_descriptor_next,
}
use the_rack.Virtqueue.Ring.{write_descriptor_next-Writes, descriptor_next-write_descriptor_next}
use the_rack.Virtqueue.Chain.{
  FreeList-same, Chain-length, Chain-head, occurrences, occurrences-++, length-++,
}
use the_rack.Virtqueue.Walking.{EndsAt, chain_end-EndsAt}
use the_rack.Virtqueue.Represents.{
  Request, Represents, IsInFlight, in_flight, slots_in_flight, AllInFlight, AllInFlight-same,
  in_flight-++, slots_in_flight-++, AllInFlight-++,
}

-- `q'` and `n` are `q` and `m` after the request `r` came back: its slots are free again and `rest`
-- are in flight, the used ring is read on by one, and of memory only the descriptors changed.
pub record Taken (q : Queue) (m : Memory) (free : List ℕ) (r : Request) (rest : List Request)
    (q' : Queue) (n : Memory) : Type 0 where
  pub represents : Represents q' n (r.slots ++ free) rest
  pub moved : q'.last_used ≡ (q.last_used + 1) % 2 ^ 16
  pub apart : (a : ℕ) → (a < q.frame) ⊎ (q.frame + queue_size * 16 ≤ a) → n.bytes a ≡ m.bytes a
  pub same_frame : q'.frame ≡ q.frame

module _ (q : Queue) (m : Memory) (free : List ℕ) (before after : List Request) (r : Request)
    (h : Represents q m free (before ++ r ∷ after)) where
  part :
      (x : ℕ)
      → occurrences x (r.slots ++ free) + in_flight x (before ++ after)
        ≡ (if ltb x queue_size then 1 else 0)
  part x =
      omega (arith, h.partition x, in_flight-++ before after r x, occurrences-++ x r.slots free)

  whole : length r.slots + length free + slots_in_flight (before ++ after) ≡ queue_size
  whole = omega (arith, h.total, slots_in_flight-++ before after r)

  here : IsInFlight q.frame m r
  here = (AllInFlight-++ before after r q.frame m h.chains).0

  others : AllInFlight q.frame m (before ++ after)
  others = (AllInFlight-++ before after r q.frame m h.chains).1

  sized : length r.slots ≡ length r.buffers
  sized = Chain-length q.frame m r.head r.slots r.buffers here.chain

  head_used : 0 < occurrences r.head r.slots
  head_used = Chain-head q.frame m r.head r.slots r.buffers here.nonempty here.chain

  -- The queue that `recycle` leaves.
  recycled : Queue
  recycled = record q { free_head = r.head; free_count = q.free_count + length r.buffers }

  module _ (last : ℕ) (e : EndsAt q.frame m r.head r.slots last) where
    joined : Memory
    joined = write_descriptor_next q.frame last q.free_head m

    inside : last < queue_size
    inside = ground (arith, part last, e.member, occurrences-++ last r.slots free)

    joined-Represents : Represents recycled joined (r.slots ++ free) (before ++ after)
    unfolding recycled joined
    joined-Represents =
        let w = write_descriptor_next-Writes q.frame last q.free_head m in
        let next = descriptor_next-write_descriptor_next q.frame last q.free_head m h.head_fits in
        let absent : (x : ℕ) → 0 < occurrences x free + in_flight x (before ++ after) → x ≢ last =
          λ x k same.
            ground (arith, same, part last, part x, e.member, occurrences-++ last r.slots free) in
        let free_list =
          FreeList-same q.frame m joined q.free_head free
            (λ x k. w.others x (absent x (omega arith))) h.free_list in
        record {
          sized = h.sized;
          counted = omega (arith, h.counted, sized, length-++ r.slots free);
          head_fits = ground (arith, part r.head, occurrences-++ r.head r.slots free, head_used);
          last_fits = h.last_fits;
          bytes_fit = w.bytes_fit h.bytes_fit;
          free_list = e.joins joined free w.others (rw next free_list);
          chains =
              AllInFlight-same q.frame m joined (before ++ after)
                (λ x k. w.others x (absent x (omega arith))) others;
          partition = part;
          total = omega (arith, whole, length-++ r.slots free);
        }

  fits : add_u16 q.free_count (length r.buffers) ≡ ok (q.free_count + length r.buffers)
  unfolding add_u16
  fits = ground (arith, h.counted, whole, sized)

  long_enough : length r.buffers ≤ longest_walk
  unfolding longest_walk
  long_enough = omega (arith, whole, sized)

  recycle_lem :
      (last : ℕ)
      → chain_end longest_walk r.head 1 q.frame m ≡ ok (last, 1 + (length r.buffers - 1))
      → recycle r.head q m ≡ ok (recycled, write_descriptor_next q.frame last q.free_head m)
  unfolding recycle recycled
  recycle_lem last ran =
      let walked : 1 + (length r.buffers - 1) ≡ length r.buffers = omega (arith, here.nonempty) in
      let count : add_u16 q.free_count (length r.buffers) ≡ ok (q.free_count + length r.buffers) =
        fits in
      rw (ran, walked, count) refl

  walk :
      (last : ℕ) × (chain_end longest_walk r.head 1 q.frame m
        ≡ ok (last, 1 + (length r.buffers - 1)))
      × EndsAt q.frame m r.head r.slots last
  walk =
      chain_end-EndsAt q.frame m r.buffers r.slots longest_walk r.head 1 here.nonempty long_enough
        (λ a. ground (arith, part a, occurrences-++ a r.slots free)) here.chain

  -- What `recycle` answers at the head of a request in flight.
  recycle-Represents :
      (n : Memory) × (recycle r.head q m ≡ ok (recycled, n))
      × Represents recycled n (r.slots ++ free) (before ++ after)
      × ((a : ℕ) → (a < q.frame) ⊎ (q.frame + queue_size * 16 ≤ a) → n.bytes a ≡ m.bytes a)
  unfolding joined
  recycle-Represents =
      let (last, ran, e) = walk in
      let w = write_descriptor_next-Writes q.frame last q.free_head m in
      (
        joined last e,
        recycle_lem last ran,
        joined-Represents last e,
        λ a k. w.apart a (omega (arith, inside last e)),
      )

-- The device's next entry of the used ring names `r`.
pub record Finished (q : Queue) (m : Memory) (r : Request) : Type 0 where
  pub ahead : q.last_used ≢ used_index q.frame m
  pub names : used_head q.frame (q.last_used % queue_size) m ≡ r.head

-- On a queue that represents a free list and the requests in flight, `take_used` finds nothing and
-- changes nothing when it has read as far as the device's index.
pub take_used-none :
    (q : Queue) (m : Memory) → q.last_used ≡ used_index q.frame m → take_used q m ≡ ok (none, q, m)
unfolding take_used
take_used-none q m h =
    let level : (q.last_used == used_index q.frame m) ≡ true = ground (arith, h) in rw level refl

module _ (q : Queue) (m : Memory) (free : List ℕ) (before after : List Request) (r : Request)
    (h : Represents q m free (before ++ r ∷ after)) (f : Finished q m r) where
  -- The queue with its entry read.
  read_on : Queue
  read_on = record q { last_used = (q.last_used + 1) % 2 ^ 16 }

  read_on-Represents : Represents read_on m free (before ++ r ∷ after)
  unfolding read_on
  read_on-Represents = record {
    sized = h.sized;
    counted = h.counted;
    head_fits = h.head_fits;
    last_fits = omega arith;
    bytes_fit = h.bytes_fit;
    free_list = h.free_list;
    chains = h.chains;
    partition = h.partition;
    total = h.total;
  }

  position : rem q.last_used q.size ≡ ok (q.last_used % queue_size)
  unfolding rem
  position = rw h.sized refl

  take_used_lem :
      (q' : Queue) (n : Memory)
      → recycle r.head read_on m ≡ ok (q', n)
      → take_used q m ≡ ok (some (r.head, used_length q.frame (q.last_used % queue_size) m), q', n)
  unfolding take_used read_on
  take_used_lem q' n ran =
      let ahead : (q.last_used == used_index q.frame m) ≡ false = ground (arith, f.ahead) in
      rw (ahead, position, f.names, ran) refl

  -- When the device has finished a request in flight, wherever it is among them, `take_used` does not
  -- panic: it returns the request's head and the length that the device wrote; the request's
  -- descriptors come to the front of the free list and the others stay in flight, described as
  -- before; the place in the used ring goes up by one modulo 2^16, and outside the descriptors no
  -- byte changes.
  pub take_used-Taken :
      (q' : Queue) × (n : Memory) × (take_used q m
        ≡ ok (some (r.head, used_length q.frame (q.last_used % queue_size) m), q', n))
      × Taken q m free r (before ++ after) q' n
  unfolding read_on recycled
  take_used-Taken =
      let (n, ran, represents, apart) =
        recycle-Represents read_on m free before after r read_on-Represents in
      (
        recycled read_on m free before after r read_on-Represents,
        n,
        take_used_lem _ n ran,
        record { represents = represents; moved = refl; apart = apart; same_frame = refl },
      )
