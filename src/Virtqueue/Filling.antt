-- ===== src/Virtqueue/Filling.antt =====
-- The loop of `add` of kernel/src/virtqueue.rs: it turns the front of the free list into a chain.
use the_rack.Base.{
  ℕ, ◌+◌, ◌*◌, ◌^◌, ◌≤◌, ◌<◌, ◌≡◌, ◌≢◌, refl, ◌∙◌, ◌⊎◌, true, false, List, [], ◌∷◌, ◌++◌, length,
  arith, sym, subst, ltb,
}
use the_rack.Frames.Allocator.{Memory, Frame}
use the_rack.Virtqueue.{Buffer, queue_size, fill_chain, write_descriptor, descriptor_next}
use the_rack.Virtqueue.Ring.{
  SameSlot, SameSlot-trans, IsWf, AreBytes, write_descriptor-Writes, write_descriptor-Describes,
  descriptor_next-write_descriptor, descriptor_next-lt, Describes-same, descriptor_next-same,
}
use the_rack.Virtqueue.Chain.{FreeList, Chain, FreeList-same, occurrences, occurrences-++}

unfoldable pub AllWf : List Buffer → Type 0
AllWf [] = Unit
AllWf (b ∷ bs) = IsWf b × AllWf bs

-- The slots `xs` of the free list became the chain of `bs`, and `ys` are left on it.
pub record Filled (frame : Frame) (m : Memory) (r : Memory × ℕ) (index : ℕ) (xs ys : List ℕ)
    (bs : List Buffer) : Type 0 where
  pub chain : Chain frame r.0 index xs bs
  pub free_list : FreeList frame r.0 r.1 ys
  pub others : (x : ℕ) → occurrences x xs ≡ 0 → SameSlot frame m r.0 x
  pub apart : (a : ℕ) → (a < frame) ⊎ (frame + queue_size * 16 ≤ a) → r.0.bytes a ≡ m.bytes a
  pub bytes_fit : AreBytes r.0
  pub head_fits : r.1 < 2 ^ 16

-- Each slot of `xs` is in the table and is there once, and none is in `ys`.
unfoldable pub IsApart : List ℕ → List ℕ → Type 0
IsApart xs ys = (a : ℕ) → 0 < occurrences a xs → (a < queue_size) × (occurrences a (xs ++ ys) ≡ 1)

IsApart-tail : (x : ℕ) (xs ys : List ℕ) → IsApart (x ∷ xs) ys → IsApart xs ys
unfolding IsApart
IsApart-tail x xs ys h a p =
    let (inside, once) = h a (ground arith) in (inside, ground (arith, occurrences-++ a xs ys))

opened :
    (x : ℕ) (xs ys : List ℕ)
    → IsApart (x ∷ xs) ys
    → (x < queue_size) × (occurrences x (xs ++ ys) ≡ 0)
unfolding IsApart
opened x xs ys h = let (inside, once) = h x (ground arith) in (inside, ground arith)

-- The last buffer: its slot `x` ends the chain, and the free list goes on from what it named.
fill_last :
    (frame : Frame) (b : Buffer) (x : ℕ) (ys : List ℕ) (free_head : ℕ) (m : Memory)
    → IsWf b
    → AreBytes m
    → IsApart (x ∷ []) ys
    → FreeList frame m (descriptor_next frame x m) ys
    → Filled frame m (fill_chain (b ∷ []) free_head x frame m) x (x ∷ []) ys (b ∷ [])
unfolding fill_chain Chain IsApart
fill_last frame b x ys free_head m wf bytes apart list =
    let next = descriptor_next frame x m in
    let w = write_descriptor-Writes frame x next b false m in
    let (inside, once) = apart x (ground arith) in
    let absent : (y : ℕ) → 0 < occurrences y ys → y ≢ x = λ y p same. ground (arith, same) in
    record {
      chain = (refl, write_descriptor-Describes frame x next b false m wf, tt);
      free_list = FreeList-same frame m _ next ys (λ y p. w.others y (absent y p)) list;
      others = λ y p. w.others y (λ same. ground (arith, same));
      apart = λ a p. w.apart a (omega arith);
      bytes_fit = w.bytes_fit bytes;
      head_fits = descriptor_next-lt frame x m bytes;
    }

-- A buffer before the last: its slot `x` names the chain of the others.
module _ (frame : Frame) (b c : Buffer) (bs : List Buffer) (x : ℕ) (xs ys : List ℕ)
    (m : Memory) where
  Filled-more :
      (r : Memory × ℕ)
      → IsWf b
      → AreBytes m
      → IsApart (x ∷ xs) ys
      → (let next = descriptor_next frame x m in
          Filled frame (write_descriptor frame x b next true m) r next xs ys (c ∷ bs))
      → Filled frame m r x (x ∷ xs) ys (b ∷ c ∷ bs)
  unfolding Chain
  Filled-more r wf bytes apart f =
      let next = descriptor_next frame x m in
      let n = write_descriptor frame x b next true m in
      let w = write_descriptor-Writes frame x next b true m in
      let chained : ltb 0 (length (c ∷ bs)) ≡ true = ground arith in
      let (inside, absent) = opened x xs ys apart in
      let here = f.others x (omega (arith, occurrences-++ x xs ys)) in
      let follows : descriptor_next frame x r.0 ≡ next =
        descriptor_next-same frame n r.0 x here
        ∙ descriptor_next-write_descriptor frame x next b true m
            (descriptor_next-lt frame x m bytes) in
      let describes =
        Describes-same frame n r.0 x b true here
          (write_descriptor-Describes frame x next b true m wf) in
      record {
        chain = (refl, rw chained describes, rw follows f.chain);
        free_list = f.free_list;
        others = λ y p.
            SameSlot-trans frame m n r.0 y (w.others y (λ same. ground (arith, same)))
              (f.others y (ground arith));
        apart = λ a p. f.apart a p ∙ w.apart a (omega arith);
        bytes_fit = f.bytes_fit;
        head_fits = f.head_fits;
      }

  fill_more :
      (free_head : ℕ)
      → fill_chain (b ∷ c ∷ bs) free_head x frame m
        ≡ fill_chain
            (c ∷ bs)
            free_head
            (descriptor_next frame x m)
            frame
            (write_descriptor frame x b (descriptor_next frame x m) true m)
  unfolding fill_chain
  fill_more free_head =
      let chained : ltb 0 (length (c ∷ bs)) ≡ true = ground arith in rw chained refl

module _ (frame : Frame) where
  pub fill_chain-Filled :
      (bs : List Buffer) (xs ys : List ℕ) (free_head index : ℕ) (m : Memory)
      → 0 < length bs
      → length xs ≡ length bs
      → AllWf bs
      → AreBytes m
      → IsApart xs ys
      → FreeList frame m index (xs ++ ys)
      → Filled frame m (fill_chain bs free_head index frame m) index xs ys bs
  unfolding AllWf FreeList
  fill_chain-Filled [] xs ys free_head index m h e wf bytes apart list = absurd (omega arith)
  fill_chain-Filled (b ∷ bs) [] ys free_head index m h e wf bytes apart list = absurd (omega arith)
  fill_chain-Filled (b ∷ []) (x ∷ y ∷ xs) ys free_head index m h e wf bytes apart list =
      absurd (omega arith)
  fill_chain-Filled (b ∷ []) (x ∷ []) ys free_head index m h e (wf, wfs) bytes apart (at, list) =
      subst (λ i. Filled frame m (fill_chain (b ∷ []) free_head i frame m) i (x ∷ []) ys (b ∷ []))
        (sym at) (fill_last frame b x ys free_head m wf bytes apart list)
  fill_chain-Filled (b ∷ c ∷ bs) (x ∷ xs) ys free_head index m h e (wf, wfs) bytes apart
        (at, list) =
      let next = descriptor_next frame x m in
      let n = write_descriptor frame x b next true m in
      let w = write_descriptor-Writes frame x next b true m in
      let (inside, once) = opened x xs ys apart in
      let kept =
        FreeList-same frame m n next (xs ++ ys) (λ y p. w.others y (λ same. ground (arith, same)))
          list in
      subst
        (λ i.
          Filled frame m (fill_chain (b ∷ c ∷ bs) free_head i frame m) i (x ∷ xs) ys (b ∷ c ∷ bs))
        (sym at)
        (rw (fill_more frame b c bs x xs ys m free_head) (
          Filled-more frame b c bs x xs ys m _ wf bytes apart (
            fill_chain-Filled (c ∷ bs) xs ys free_head next n (omega arith) (omega arith) wfs
              (w.bytes_fit bytes) (IsApart-tail x xs ys apart) kept)))
