-- ===== src/Virtqueue/Adding.antt =====
-- `add` of kernel/src/virtqueue.rs: queueing a request.
use the_rack.Base.{
  ℕ, ◌+◌, ◌-◌, ◌*◌, ◌%◌, ◌^◌, ◌≤◌, ◌<◌, ◌≡◌, refl, sym, ◌∙◌, ◌⊎◌, inl, inr, false, List, [], ◌∷◌,
  ◌++◌, length, arith, Result, ok, panic, if◌then◌else◌, ◌==◌, ltb, Bool-cases, sub_u64,
}
use the_rack.Frames.Allocator.{Memory}
use the_rack.Virtqueue.{
  Buffer, Queue, empty, full, Outcome, success, failure, queue_size, u16_mod, avail_offset,
  used_offset, add, fill_chain, publish, read_field, available_index,
}
use the_rack.Virtqueue.Ring.{SameSlot, SameSlot-trans, available_index-same}
use the_rack.Virtqueue.Chain.{
  FreeList-same, Chain-same, occurrences, occurrences-++, length-++, take, drop, take-++-drop,
  length-take,
}
use the_rack.Virtqueue.Filling.{AllWf, IsApart, Filled, fill_chain-Filled}
use the_rack.Virtqueue.Publish.{Published, publish-Published, Published-SameSlot}
use the_rack.Virtqueue.Represents.{
  Request, Represents, in_flight, slots_in_flight, AllInFlight, AllInFlight-same,
}

-- `q'` and `n` are `q` and `m` after the request `buffers` with head `head` was queued: it took the
-- front of the free list, it is the next entry of the available ring, and of memory only the
-- descriptors and that ring changed.
pub record Added (q : Queue) (m : Memory) (free : List ℕ) (requests : List Request)
    (buffers : List Buffer) (head : ℕ) (q' : Queue) (n : Memory) : Type 0 where
  pub nonempty : 0 < length buffers
  pub enough : length buffers ≤ length free
  pub represents :
      Represents q' n
        (drop (length buffers) free)
        (record { head = head; slots = take (length buffers) free; buffers = buffers } ∷ requests)
  pub entry :
      read_field 2 q.frame (avail_offset + 4 + available_index q.frame m % queue_size * 2) n ≡ head
  pub moved : available_index q.frame n ≡ (available_index q.frame m + 1) % 2 ^ 16
  pub apart : (a : ℕ) → (a < q.frame) ⊎ (q.frame + used_offset ≤ a) → n.bytes a ≡ m.bytes a
  pub same_frame : q'.frame ≡ q.frame
  pub last_same : q'.last_used ≡ q.last_used

-- What `add` may return: never a panic; an error for no buffers, or for more than there are free
-- descriptors, with the state as it was; and otherwise the request is queued.
abbrev pub AddReturns :
    Queue
    → List Buffer
    → Memory
    → List ℕ
    → List Request
    → Result (Outcome ℕ × Queue × Memory)
    → Type 0
AddReturns q buffers m free requests panic = ⊥
AddReturns q buffers m free requests (ok (failure e, q', n)) =
    (q' ≡ q)
    × (n ≡ m)
    × (((e ≡ empty) × (length buffers ≡ 0)) ⊎ ((e ≡ full) × (length free < length buffers)))
AddReturns q buffers m free requests (ok (success head, q', n)) =
    Added q m free requests buffers head q' n

module _ (q : Queue) (buffers : List Buffer) (m : Memory) (free : List ℕ) (requests : List Request)
    (h : Represents q m free requests) (wf : AllWf buffers) where
  IsApart-front : (xs ys : List ℕ) → free ≡ xs ++ ys → IsApart xs ys
  unfolding IsApart
  IsApart-front xs ys e a p =
      let part : occurrences a (xs ++ ys) + in_flight a requests
          ≡ (if ltb a queue_size then 1 else 0) =
        rw (← e) (h.partition a) in
      (ground (arith, occurrences-++ a xs ys), ground (arith, occurrences-++ a xs ys))

  -- The queue that `add` leaves.
  added : Queue
  added = record q {
    free_head = (fill_chain buffers q.free_head q.free_head q.frame m).1;
    free_count = q.free_count - length buffers;
  }

  module _ (nonempty : 0 < length buffers) (room : length buffers ≤ length free) where
    add_lem :
        (n : Memory)
        → publish q.free_head q (fill_chain buffers q.free_head q.free_head q.frame m).0 ≡ ok n
        → add q buffers m ≡ ok (success q.free_head, added, n)
    unfolding add added
    add_lem n ran =
        let some_buffer : (length buffers == 0) ≡ false = ground arith in
        let enough : ltb q.free_count (length buffers) ≡ false = ground (arith, h.counted) in
        let count : sub_u64 q.free_count (length buffers % u16_mod)
            ≡ ok (q.free_count - length buffers) =
          ground (arith, h.counted, h.total) in
        rw (some_buffer, enough, count, ran) refl

    module _ (xs ys : List ℕ) (front : free ≡ xs ++ ys) (sized : length xs ≡ length buffers)
        (r : Memory × ℕ) (filled : Filled q.frame m r q.free_head xs ys buffers) (n : Memory)
        (p : Published q.frame r.0 n q.free_head) where
      kept : (x : ℕ) → occurrences x xs ≡ 0 → x < queue_size → SameSlot q.frame m n x
      kept x e l =
          SameSlot-trans q.frame m r.0 n x (filled.others x e)
            (Published-SameSlot q.frame r.0 n q.free_head p x l)

      part :
          (x : ℕ)
          → occurrences x xs + occurrences x ys + in_flight x requests
            ≡ (if ltb x queue_size then 1 else 0)
      part x =
          let whole : occurrences x (xs ++ ys) + in_flight x requests
              ≡ (if ltb x queue_size then 1 else 0) =
            rw (← front) (h.partition x) in
          omega (arith, whole, occurrences-++ x xs ys)

      represents :
          Represents
            (record q { free_head = r.1; free_count = q.free_count - length buffers })
            n
            ys
            (record { head = q.free_head; slots = xs; buffers = buffers } ∷ requests)
      unfolding AllInFlight
      represents =
          let whole : length xs + length ys + slots_in_flight requests ≡ queue_size =
            rw (← length-++ xs ys, ← front) h.total in
          let ring = Published-SameSlot q.frame r.0 n q.free_head p in
          record {
            sized = h.sized;
            counted = omega (arith, h.counted, whole, h.total);
            head_fits = filled.head_fits;
            last_fits = h.last_fits;
            bytes_fit = p.bytes_fit;
            free_list =
                FreeList-same q.frame r.0 n r.1 ys (λ x k. ring x (ground (arith, part x)))
                  filled.free_list;
            chains = (
              record {
                nonempty = nonempty;
                chain =
                    Chain-same q.frame r.0 n q.free_head xs buffers
                      (λ x k. ring x (ground (arith, part x))) filled.chain;
              },
              AllInFlight-same q.frame m n requests
                  (λ x k. kept x (ground (arith, part x)) (ground (arith, part x))) h.chains,
            );
            partition = λ x. omega (arith, part x);
            total = omega (arith, whole);
          }

    pub add-Added :
        (q' : Queue) × (n : Memory) × (add q buffers m ≡ ok (success q.free_head, q', n))
        × Added q m free requests buffers q.free_head q' n
    unfolding added
    add-Added =
        let xs = take (length buffers) free in
        let ys = drop (length buffers) free in
        let front : free ≡ xs ++ ys = sym (take-++-drop (length buffers) free) in
        let sized = length-take (length buffers) free room in
        let apart = IsApart-front xs ys front in
        let r = fill_chain buffers q.free_head q.free_head q.frame m in
        let filled : Filled q.frame m r q.free_head xs ys buffers =
          fill_chain-Filled q.frame buffers xs ys q.free_head q.free_head m nonempty sized wf
            h.bytes_fit apart (rw (← front) h.free_list) in
        let (n, ran, p) =
          publish-Published q r.0 q.free_head h.sized h.head_fits filled.bytes_fit in
        let before : available_index q.frame r.0 ≡ available_index q.frame m =
          available_index-same q.frame m r.0 (λ a k. filled.apart a (inr k)) in
        (
          added,
          n,
          add_lem n ran,
          record {
            nonempty = nonempty;
            enough = room;
            represents = represents xs ys front sized r filled n p;
            entry = rw (← before) p.entry;
            moved = rw (← before) p.moved;
            apart = λ a k. p.apart a (omega arith) ∙ filled.apart a (omega arith);
            same_frame = refl;
            last_same = refl;
          },
        )

-- `add` on a queue that represents a free list and the requests in flight, for buffers of machine
-- types, does not panic. For no buffers, or more than there are free descriptors, it says so and
-- changes nothing. Otherwise the request takes the front of the free list: its descriptors describe
-- the buffers in order, chained by NEXT; the other requests are described as before; its head is
-- the next entry of the available ring, whose index goes up by one modulo 2^16; and outside the
-- descriptors and that ring no byte changes.
pub add-AddReturns :
    (q : Queue) (buffers : List Buffer) (m : Memory) (free : List ℕ) (requests : List Request)
    → Represents q m free requests
    → AllWf buffers
    → AddReturns q buffers m free requests (add q buffers m)
unfolding add
add-AddReturns q [] m free requests h wf = (refl, refl, inl (refl, refl))
add-AddReturns q (b ∷ bs) m free requests h wf =
    let some_buffer : (length (b ∷ bs) == 0) ≡ false = ground arith in
    elim (Bool-cases (ltb q.free_count (length (b ∷ bs)))) [
      | inl many ↦ rw (add, some_buffer, many) (refl, refl, inr (refl, ground (arith, h.counted)))
      | inr few ↦
          let (q', n, ran, a) =
            add-Added q (b ∷ bs) m free requests h wf (omega arith) (ground (arith, h.counted)) in
          rw ran a
    ]
