-- ===== src/Virtqueue/Threading.antt =====
-- The loop of `new` of kernel/src/virtqueue.rs: every descriptor goes on the free list.
use the_rack.Base.{
  ℕ, zero, suc, ◌+◌, ◌*◌, ◌≤◌, ◌<◌, ◌≡◌, refl, ap, ◌∙◌, ◌⊎◌, List, [], ◌∷◌, ◌&&◌, leb, length,
  arith, if◌then◌else◌, ltb,
}
use the_rack.Frames.Allocator.{Memory, Frame}
use the_rack.Frames.Allocator.Inv.{Inv}
use the_rack.Virtqueue.{queue_size, thread_free, write_descriptor_next, descriptor_next}
use the_rack.Virtqueue.Ring.{
  SameSlot, AreBytes, write_descriptor_next-Writes, descriptor_next-write_descriptor_next,
  descriptor_next-same,
}
use the_rack.Virtqueue.Chain.{FreeList, occurrences}

abbrev pub range : ℕ → ℕ → List ℕ
range index zero = []
range index (suc n) = index ∷ range (index + 1) n

pub length-range : (index n : ℕ) → length (range index n) ≡ n
length-range index zero = refl
length-range index (suc n) = ap suc (length-range (index + 1) n)

occurrences-range :
    (a index n : ℕ)
    → occurrences a (range index n) ≡ (if leb index a && ltb a (index + n) then 1 else 0)
occurrences-range a index zero = ground arith
occurrences-range a index (suc n) = ground (arith, occurrences-range a (index + 1) n)

pub occurrences-range_whole : (a n : ℕ) → occurrences a (range 0 n) + 0 ≡ (if ltb a n then 1 else 0)
occurrences-range_whole a n = ground (arith, occurrences-range a 0 n)

-- The descriptors from `index` on are threaded, and the memory is otherwise the same.
pub record Threaded (frame : Frame) (m n : Memory) (count index : ℕ) : Type 0 where
  pub free_list : FreeList frame n index (range index count)
  pub below : (j : ℕ) → j < index → SameSlot frame m n j
  pub apart :
      (a : ℕ)
      → (a < frame + index * 16) ⊎ (frame + (index + count) * 16 ≤ a)
      → n.bytes a ≡ m.bytes a
  pub bytes_fit : AreBytes m → AreBytes n
  pub inv : Inv m → Inv n
  pub bitmap_same : n.bitmap ≡ m.bitmap
  pub base_same : n.ram_base ≡ m.ram_base
  pub length_same : n.ram_length ≡ m.ram_length
  pub image_same : n.image_end ≡ m.image_end

Inv-write_descriptor_next :
    (frame : Frame) (index next : ℕ) (m : Memory)
    → Inv m
    → Inv (write_descriptor_next frame index next m)
unfolding write_descriptor_next
Inv-write_descriptor_next frame index next m h = record {
  wf = h.wf;
  base_aligned = h.base_aligned;
  length_aligned = h.length_aligned;
  fits = h.fits;
  no_wrap = h.no_wrap;
  beyond = h.beyond;
  counted = h.counted;
}

module _ (frame : Frame) where
  pub thread_free-Threaded :
      (count index : ℕ) (m : Memory)
      → index + count ≤ queue_size
      → Threaded frame m (thread_free count index frame m) count index
  unfolding thread_free write_descriptor_next FreeList SameSlot
  thread_free-Threaded zero index m h = record {
    free_list = tt;
    below = λ j l a p r. refl;
    apart = λ a p. refl;
    bytes_fit = λ b. b;
    inv = λ i. i;
    bitmap_same = refl;
    base_same = refl;
    length_same = refl;
    image_same = refl;
  }
  thread_free-Threaded (suc count) index m h =
      let n = write_descriptor_next frame index (index + 1) m in
      let w = write_descriptor_next-Writes frame index (index + 1) m in
      let rest = thread_free-Threaded count (index + 1) n (omega arith) in
      let o = thread_free count (index + 1) frame n in
      let follows : descriptor_next frame index o ≡ index + 1 =
        descriptor_next-same frame n o index (rest.below index (omega arith))
        ∙ descriptor_next-write_descriptor_next frame index (index + 1) m (omega arith) in
      record {
        free_list = (refl, rw follows rest.free_list);
        below = λ j l a p r. rest.below j (omega arith) a p r ∙ w.others j (omega arith) a p r;
        apart = λ a p. rest.apart a (omega arith) ∙ w.apart a (omega arith);
        bytes_fit = λ b. rest.bytes_fit (w.bytes_fit b);
        inv = λ i. rest.inv (Inv-write_descriptor_next frame index (index + 1) m i);
        bitmap_same = rest.bitmap_same;
        base_same = rest.base_same;
        length_same = rest.length_same;
        image_same = rest.image_same;
      }
