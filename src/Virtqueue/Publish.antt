-- ===== src/Virtqueue/Publish.antt =====
-- The end of `add` of kernel/src/virtqueue.rs: the available ring.
use the_rack.Base.{ℕ, ◌+◌, ◌*◌, ◌%◌, ◌^◌, ◌≤◌, ◌<◌, ◌≡◌, refl, ap, ◌∙◌, ◌⊎◌, inl, inr, arith, ok}
use the_rack.Base.Words.{write_word, read_word-write_word, read_word-write_word_apart}
use the_rack.Frames.Allocator.{Memory, Frame}
use the_rack.Virtqueue.{
  Queue, queue_size, avail_offset, used_offset, publish, rem, available_index, read_field,
  write_field,
}
use the_rack.Virtqueue.Ring.{SameSlot, AreBytes}

-- The head is the entry of the ring at the old index, and the index is one more; only the ring changes.
pub record Published (frame : Frame) (m n : Memory) (head : ℕ) : Type 0 where
  pub entry :
      read_field 2 frame (avail_offset + 4 + available_index frame m % queue_size * 2) n ≡ head
  pub moved : available_index frame n ≡ (available_index frame m + 1) % 2 ^ 16
  pub apart :
      (a : ℕ) → (a < frame + avail_offset) ⊎ (frame + used_offset ≤ a) → n.bytes a ≡ m.bytes a
  pub bytes_fit : AreBytes n

module _ (q : Queue) (m : Memory) (head : ℕ) where
  -- The state that `publish` leaves.
  published : Memory
  published =
      let ring =
        write_field 2 q.frame (avail_offset + 4 + available_index q.frame m % queue_size * 2) head
          m in
      write_field 2 q.frame (avail_offset + 2) ((available_index q.frame ring + 1) % 2 ^ 16) ring

  publish_lem : q.size ≡ queue_size → publish head q m ≡ ok published
  unfolding publish published rem
  publish_lem h = rw h refl

  published-Published : head < 2 ^ 16 → AreBytes m → Published q.frame m published head
  unfolding published available_index read_field write_word AreBytes
  published-Published h bytes = record {
    entry =
        read_word-write_word_apart 2 2 _ _ _ _ (inr (omega arith))
        ∙ read_word-write_word 2 _ _ head (omega arith);
    moved =
        read_word-write_word 2 _ _ _ (omega arith)
        ∙ ap (λ t. (t + 1) % 2 ^ 16) (read_word-write_word_apart 2 2 _ _ _ _ (inl (omega arith)));
    apart = λ a p. ground arith;
    bytes_fit = λ a. ground (arith, bytes a);
  }

  pub publish-Published :
      q.size ≡ queue_size
      → head < 2 ^ 16
      → AreBytes m
      → (n : Memory) × (publish head q m ≡ ok n) × Published q.frame m n head
  publish-Published h k bytes = (published, publish_lem h, published-Published k bytes)

pub Published-SameSlot :
    (frame : Frame) (m n : Memory) (head : ℕ)
    → Published frame m n head
    → (x : ℕ) → x < queue_size
    → SameSlot frame m n x
unfolding SameSlot
Published-SameSlot frame m n head p x h a k l = p.apart a (inl (omega arith))
