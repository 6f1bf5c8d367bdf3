-- ===== src/Frames/Bitmap/Bit.antt =====
-- What `is_set`, `set` and `clear` of `Bitmap` do to the bits, and the relation `Marks` that the
-- range operations are proved against.
use the_rack.Base.{
  ℕ, ◌+◌, ◌/◌, ◌%◌, ◌^◌, ◌<◌, ◌≡◌, refl, Bool, true, false, ◌&&◌, Result, ok, arith, if◌then◌else◌,
  ◌==◌, leb, ltb, length, get_or, length-set, get_or-set, get_elem?-eq-get_or, bit_and, bit_or,
  u64_mod, length-replicate, get_or-replicate,
}
use the_rack.Base.{set as list_set}
use the_rack.Base.Bits.{
  bit, not_bits, bit-bit_or, bit-bit_and, bit-pow, bit-not_bits, bit_or-lt, bit_and-lt, test_bit,
  bit-zero, pow-lt,
}
use the_rack.Frames.Bitmap.{Bitmap, new, is_set, set, clear, bitmap_words, max_frames}

-- Whether the frame at an index is taken.
unfoldable pub taken : Bitmap → ℕ → Bool
taken b i = bit (get_or b.bits (i / 64) 0) (i % 64)

pub record IsWf (b : Bitmap) : Type 0 where
  pub sized : length b.bits ≡ bitmap_words
  pub words : (i : ℕ) → get_or b.bits i 0 < u64_mod

-- `c` is `b` with the bits from `s` up to `e` made `v`, and nothing else changed.
pub record Marks (v : Bool) (s e : ℕ) (b c : Bitmap) : Type 0 where
  pub wf : IsWf c
  pub free_same : c.free ≡ b.free
  pub reserved_same : c.reserved ≡ b.reserved
  pub reads : (i : ℕ) → taken c i ≡ (if leb s i && ltb i e then v else taken b i)

pub new-IsWf : IsWf new
unfolding new
new-IsWf = record {
  sized = length-replicate {A = ℕ} bitmap_words 0;
  words = λ i. omega (arith, get_or-replicate {A = ℕ} bitmap_words i 0);
}

pub taken-new : (i : ℕ) → taken new i ≡ false
unfolding new taken
taken-new i = ground (arith, get_or-replicate {A = ℕ} bitmap_words (i / 64) 0, bit-zero (i % 64))

pub is_set_lem : (b : Bitmap) (i : ℕ) → IsWf b → i < max_frames → is_set b i ≡ ok (taken b i)
unfolding is_set taken
is_set_lem b i wf h =
    ground
      (arith, get_elem?-eq-get_or b.bits (i / 64) 0, test_bit (get_or b.bits (i / 64) 0) (i % 64))

module _ (b : Bitmap) (i word : ℕ) (v : Bool) (wf : IsWf b) (h : i < max_frames)
    (fits : word < u64_mod)
    (new_bits : (k : ℕ)
      → k < 64
      → bit word k ≡ (if i % 64 == k then v else bit (get_or b.bits (i / 64) 0) k)) where
  write_word-Marks : Marks v i (i + 1) b (record b { bits = list_set b.bits (i / 64) word })
  unfolding taken
  write_word-Marks = record {
    wf = record {
      sized = ground (arith, length-set b.bits (i / 64) word);
      words = λ j. ground (arith, get_or-set b.bits (i / 64) j word 0, wf.words j);
    };
    free_same = refl;
    reserved_same = refl;
    reads = λ j.
        ground (arith, get_or-set b.bits (i / 64) (j / 64) word 0, new_bits (j % 64) (omega arith));
  }

-- A one-bit operation returns at every index of the bitmap, and makes that bit `v`.
abbrev pub Marking : Bool → (Bitmap → ℕ → Result Bitmap) → Type 0
Marking v op =
    (b : Bitmap) (i : ℕ)
    → IsWf b
    → i < max_frames
    → (c : Bitmap) × (op b i ≡ ok c) × Marks v i (i + 1) b c

pub set-Marking : Marking true set
unfolding set
set-Marking b i wf h = (
  _,
  ground (arith, get_elem?-eq-get_or b.bits (i / 64) 0),
  write_word-Marks b i (bit_or (get_or b.bits (i / 64) 0) (2 ^ (i % 64))) true wf h
      (bit_or-lt 64 _ _ (wf.words (i / 64)) (pow-lt (i % 64) 64 (omega arith)))
      (λ k l.
        ground (arith, bit-bit_or (get_or b.bits (i / 64) 0) (2 ^ (i % 64)) k, bit-pow (i % 64) k)),
)

pub clear-Marking : Marking false clear
unfolding clear
clear-Marking b i wf h = (
  _,
  ground (arith, get_elem?-eq-get_or b.bits (i / 64) 0),
  write_word-Marks b i (bit_and (get_or b.bits (i / 64) 0) (not_bits 64 (2 ^ (i % 64)))) false wf h
      (bit_and-lt 64 _ _ (wf.words (i / 64)))
      (λ k l. ground (
        arith,
        bit-bit_and (get_or b.bits (i / 64) 0) (not_bits 64 (2 ^ (i % 64))) k,
        bit-not_bits 64 (2 ^ (i % 64)) k (pow-lt (i % 64) 64 (omega arith)) l,
        bit-pow (i % 64) k,
      )),
)
