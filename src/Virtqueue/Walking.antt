-- ===== src/Virtqueue/Walking.antt =====
-- The walk of `recycle` of kernel/src/virtqueue.rs to the end of a chain, and the chain as the front
-- of a free list.
use the_rack.Base.{
  ℕ, zero, suc, ◌+◌, ◌-◌, ◌≤◌, ◌<◌, ◌≡◌, ◌≢◌, refl, ap, ◌∙◌, Bool, true, false, List, [], ◌∷◌, ◌++◌,
  length, arith, ok, ltb,
}
use the_rack.Base.Bits.{bit}
use the_rack.Frames.Allocator.{Memory, Frame}
use the_rack.Virtqueue.{Buffer, chain_end, descriptor_next, descriptor_flags, next_bit}
use the_rack.Virtqueue.Ring.{SameSlot, Describes, bit-flags_of, descriptor_next-same}
use the_rack.Virtqueue.Chain.{FreeList, Chain, occurrences}

-- `last` ends the chain `xs`: once it names a free list and no other slot changed, the chain and
-- that list are one free list.
pub record EndsAt (frame : Frame) (m : Memory) (head : ℕ) (xs : List ℕ) (last : ℕ) : Type 0 where
  pub member : 0 < occurrences last xs
  pub joins :
      (n : Memory) (free : List ℕ)
      → ((y : ℕ) → y ≢ last → SameSlot frame m n y)
      → FreeList frame n (descriptor_next frame last n) free
      → FreeList frame n head (xs ++ free)

abbrev pub IsOnce : List ℕ → Type 0
IsOnce xs = (a : ℕ) → occurrences a xs ≤ 1

pub flagged :
    (frame : Frame) (m : Memory) (x : ℕ) (b : Buffer) (chained : Bool)
    → Describes frame m x b chained
    → bit (descriptor_flags frame x m) next_bit ≡ chained
flagged frame m x b chained d = ap (λ t. bit t next_bit) d.flags ∙ bit-flags_of b chained

module _ (frame : Frame) (m : Memory) where
  pub chain_end-EndsAt :
      (bs : List Buffer) (xs : List ℕ) (fuel head walked : ℕ)
      → 0 < length bs
      → length bs ≤ fuel
      → IsOnce xs
      → Chain frame m head xs bs
      → (last : ℕ) × (chain_end fuel head walked frame m ≡ ok (last, walked + (length bs - 1)))
        × EndsAt frame m head xs last
  unfolding Chain chain_end FreeList
  chain_end-EndsAt [] xs fuel head walked h l once c = absurd (omega arith)
  chain_end-EndsAt (b ∷ bs) xs zero head walked h l once c = absurd (omega arith)
  chain_end-EndsAt (b ∷ bs) [] (suc fuel) head walked h l once c = absurd c
  chain_end-EndsAt (b ∷ []) (x ∷ y ∷ xs) (suc fuel) head walked h l once (at, d, c) = absurd c
  chain_end-EndsAt (b ∷ []) (x ∷ []) (suc fuel) head walked h l once (at, d, c) =
      let final = flagged frame m x b false d in
      let none_after : walked + (1 - 1) ≡ walked = omega arith in
      (
        x,
        rw (at, final, none_after) refl,
        record { member = ground arith; joins = λ n free same list. (at, list) },
      )
  chain_end-EndsAt (b ∷ c ∷ bs) (x ∷ xs) (suc fuel) head walked h l once (at, d, rest) =
      let chained : ltb 0 (length (c ∷ bs)) ≡ true = ground arith in
      let more : bit (descriptor_flags frame x m) next_bit ≡ true =
        flagged frame m x b _ d ∙ chained in
      let (last, ran, e) =
        chain_end-EndsAt (c ∷ bs) xs fuel (descriptor_next frame x m) (walked + 1) (omega arith)
          (omega arith) (λ a. omega (arith, once a)) rest in
      let count : walked + (length (b ∷ c ∷ bs) - 1) ≡ walked + 1 + (length (c ∷ bs) - 1) =
        omega arith in
      (
        last,
        rw (at, more, count) ran,
        record {
          member = omega (arith, e.member);
          joins = λ n free same list.
              let apart : x ≢ last = λ is_last. ground (arith, once x, e.member, is_last) in
              (at, rw (descriptor_next-same frame m n x (same x apart)) (e.joins n free same list));
        },
      )
