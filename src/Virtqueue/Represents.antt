-- ===== src/Virtqueue/Represents.antt =====
-- What a queue of kernel/src/virtqueue.rs stands for: a list of free descriptors and the requests
-- in flight.
use the_rack.Base.{
  ℕ, ◌+◌, ◌^◌, ◌≤◌, ◌<◌, ◌≡◌, refl, List, [], ◌∷◌, ◌++◌, length, arith, if◌then◌else◌, ltb,
}
use the_rack.Frames.Allocator.{Memory, Frame}
use the_rack.Virtqueue.{Buffer, Queue, queue_size, used_offset}
use the_rack.Virtqueue.Ring.{SameSlot, AreBytes}
use the_rack.Virtqueue.Chain.{FreeList, Chain, Chain-same, FreeList-same, occurrences}

pub record Request : Type 0 where
  pub head : ℕ
  pub slots : List ℕ
  pub buffers : List Buffer

abbrev pub in_flight : ℕ → List Request → ℕ
in_flight a [] = 0
in_flight a (r ∷ rs) = occurrences a r.slots + in_flight a rs

abbrev pub slots_in_flight : List Request → ℕ
slots_in_flight [] = 0
slots_in_flight (r ∷ rs) = length r.slots + slots_in_flight rs

-- The descriptors of a request describe it.
pub record IsInFlight (frame : Frame) (m : Memory) (r : Request) : Type 0 where
  pub nonempty : 0 < length r.buffers
  pub chain : Chain frame m r.head r.slots r.buffers

unfoldable pub AllInFlight : Frame → Memory → List Request → Type 0
AllInFlight frame m [] = Unit
AllInFlight frame m (r ∷ rs) = IsInFlight frame m r × AllInFlight frame m rs

-- The free list holds `free`, each request in flight is described by its chain, and every
-- descriptor of the table is in exactly one of these.
pub record Represents (q : Queue) (m : Memory) (free : List ℕ) (requests : List Request)
    : Type 0 where
  pub sized : q.size ≡ queue_size
  pub counted : q.free_count ≡ length free
  pub head_fits : q.free_head < 2 ^ 16
  pub last_fits : q.last_used < 2 ^ 16
  pub bytes_fit : AreBytes m
  pub free_list : FreeList q.frame m q.free_head free
  pub chains : AllInFlight q.frame m requests
  pub partition :
      (i : ℕ) → occurrences i free + in_flight i requests ≡ (if ltb i queue_size then 1 else 0)
  pub total : length free + slots_in_flight requests ≡ queue_size

pub IsInFlight-same :
    (frame : Frame) (m n : Memory) (r : Request)
    → ((x : ℕ) → 0 < occurrences x r.slots → SameSlot frame m n x)
    → IsInFlight frame m r
    → IsInFlight frame n r
IsInFlight-same frame m n r same h = record {
  nonempty = h.nonempty;
  chain = Chain-same frame m n r.head r.slots r.buffers same h.chain;
}

pub AllInFlight-same :
    (frame : Frame) (m n : Memory) (rs : List Request)
    → ((x : ℕ) → 0 < in_flight x rs → SameSlot frame m n x)
    → AllInFlight frame m rs
    → AllInFlight frame n rs
unfolding AllInFlight
AllInFlight-same frame m n [] same h = tt
AllInFlight-same frame m n (r ∷ rs) same (h, hs) = (
  IsInFlight-same frame m n r (λ x p. same x (omega arith)) h,
  AllInFlight-same frame m n rs (λ x p. same x (omega arith)) hs,
)

-- A request apart from those before and after it.
module _ (before after : List Request) (r : Request) where
  pub in_flight-++ :
      (a : ℕ)
      → in_flight a (before ++ r ∷ after) ≡ occurrences a r.slots + in_flight a (before ++ after)
  in_flight-++ a = go before
    where
      go :
          (before : List Request)
          → in_flight a (before ++ r ∷ after)
            ≡ occurrences a r.slots + in_flight a (before ++ after)
      go [] = refl
      go (s ∷ before) = let rest = go before in omega arith

  pub slots_in_flight-++ :
      slots_in_flight (before ++ r ∷ after) ≡ length r.slots + slots_in_flight (before ++ after)
  slots_in_flight-++ = go before
    where
      go :
          (before : List Request)
          → slots_in_flight (before ++ r ∷ after)
            ≡ length r.slots + slots_in_flight (before ++ after)
      go [] = refl
      go (s ∷ before) = let rest = go before in omega arith

  pub AllInFlight-++ :
      (frame : Frame) (m : Memory)
      → AllInFlight frame m (before ++ r ∷ after)
      → IsInFlight frame m r × AllInFlight frame m (before ++ after)
  unfolding AllInFlight
  AllInFlight-++ frame m = go before
    where
      go :
          (before : List Request)
          → AllInFlight frame m (before ++ r ∷ after)
          → IsInFlight frame m r × AllInFlight frame m (before ++ after)
      go [] h = h
      go (s ∷ before) (h, hs) = let (here, rest) = go before hs in (here, (h, rest))

-- What a write outside the driver's half of the rings leaves.
pub Represents-same :
    (q : Queue) (m n : Memory) (free : List ℕ) (requests : List Request)
    → ((a : ℕ) → q.frame ≤ a → a < q.frame + used_offset → n.bytes a ≡ m.bytes a)
    → AreBytes n
    → Represents q m free requests
    → Represents q n free requests
unfolding SameSlot
Represents-same q m n free requests same bytes h =
    let slot : (x : ℕ) → 0 < occurrences x free + in_flight x requests → SameSlot q.frame m n x =
      λ x k a p r. same a (omega arith) (ground (arith, h.partition x)) in
    record {
      sized = h.sized;
      counted = h.counted;
      head_fits = h.head_fits;
      last_fits = h.last_fits;
      bytes_fit = bytes;
      free_list =
          FreeList-same q.frame m n q.free_head free (λ x k. slot x (omega arith)) h.free_list;
      chains = AllInFlight-same q.frame m n requests (λ x k. slot x (omega arith)) h.chains;
      partition = h.partition;
      total = h.total;
    }
