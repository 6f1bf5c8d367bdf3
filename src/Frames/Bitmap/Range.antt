-- ===== src/Frames/Bitmap/Range.antt =====
-- `set_range` and `clear_range` of `Bitmap` mark exactly their range, whatever its alignment.
use the_rack.Base.{
  ℕ, zero, suc, ◌+◌, ◌-◌, ◌*◌, ◌/◌, ◌%◌, ◌≤◌, ◌<◌, min, ◌≡◌, refl, Bool, true, false, ◌&&◌, List,
  [], ◌∷◌, subst, Result, ok, arith, if◌then◌else◌, ◌==◌, leb, ltb, length, get_or, ◌>>=◌,
  Bool-cases, inl, inr, u64_mod,
}
use the_rack.Base.Bits.{bit, bit-zero, bit_max}
use the_rack.Frames.Bitmap.{
  Bitmap, set, clear, each, each_to_word, fill, fill_words, set_range, clear_range,
  next_multiple_of_64, max_frames, bitmap_words, u64_max,
}
use the_rack.Frames.Bitmap.Bit.{taken, IsWf, Marks, Marking, set-Marking, clear-Marking}

Marks-refl : (v : Bool) (s e : ℕ) (b : Bitmap) → e ≤ s → IsWf b → Marks v s e b b
Marks-refl v s e b h wf = record {
  wf = wf;
  free_same = refl;
  reserved_same = refl;
  reads = λ i. ground arith;
}

-- Two adjacent ranges make one.
Marks-trans :
    (v : Bool) (s m e : ℕ) (b c d : Bitmap)
    → s ≤ m
    → m ≤ e
    → Marks v s m b c
    → Marks v m e c d
    → Marks v s e b d
Marks-trans v s m e b c d h k p q = record {
  wf = q.wf;
  free_same = ground arith;
  reserved_same = ground arith;
  reads = λ i. ground (arith, p.reads i, q.reads i);
}

module _ (v : Bool) (op : Bitmap → ℕ → Result Bitmap) (marking : Marking v op) where
  pub each-Marks :
      (n i j : ℕ) (b : Bitmap)
      → i + n ≡ j
      → j ≤ max_frames
      → IsWf b
      → (c : Bitmap) × (each op n i b ≡ ok c) × Marks v i j b c
  unfolding each
  each-Marks zero i j b e h wf = (b, refl, Marks-refl v i j b (omega arith) wf)
  each-Marks (suc n) i j b e h wf =
      let (c, ran, marks) = marking b i wf (omega arith) in
      let (d, ran', marks') = each-Marks n (i + 1) j c (omega arith) h marks.wf in
      (d, rw ran ran', Marks-trans v i (i + 1) j b c d (omega arith) (omega arith) marks marks')

  each_to_word-Marks :
      (n i j : ℕ) (b : Bitmap)
      → i + n ≡ j
      → j ≤ max_frames
      → IsWf b
      → (c : Bitmap) × (each_to_word op n i b ≡ ok c)
        × Marks v i (min j (next_multiple_of_64 i)) b c
  unfolding each_to_word
  each_to_word-Marks zero i j b e h wf = (b, refl, Marks-refl v i _ b (omega arith) wf)
  each_to_word-Marks (suc n) i j b e h wf = elim (Bool-cases (i % 64 == 0)) [
    | inl whole ↦ (b, rw whole refl, Marks-refl v i _ b (ground arith) wf)
    | inr part ↦
        let (c, ran, marks) = marking b i wf (omega arith) in
        let (d, ran', marks') = each_to_word-Marks n (i + 1) j c (omega arith) h marks.wf in
        let same : min j (next_multiple_of_64 (i + 1)) ≡ min j (next_multiple_of_64 i) =
          ground arith in
        (
          d,
          rw (part, ran) ran',
          Marks-trans v i (i + 1) _ b c d (omega arith) (ground arith) marks (rw same at marks'),
        )
  ]

length-fill : (xs : List ℕ) (s n w : ℕ) → length (fill xs s n w) ≡ length xs
unfolding fill
length-fill [] s n w = refl
length-fill (x ∷ xs) zero zero w = refl
length-fill (x ∷ xs) zero (suc n) w = ground (arith, length-fill xs zero n w)
length-fill (x ∷ xs) (suc s) n w = ground (arith, length-fill xs s n w)

get_or-fill :
    (xs : List ℕ) (s n w j : ℕ)
    → s + n ≤ length xs
    → get_or (fill xs s n w) j 0 ≡ (if leb s j && ltb j (s + n) then w else get_or xs j 0)
unfolding fill
get_or-fill [] s n w j h = ground arith
get_or-fill (x ∷ xs) zero zero w j h = ground arith
get_or-fill (x ∷ xs) zero (suc n) w zero h = ground arith
get_or-fill (x ∷ xs) zero (suc n) w (suc j) h = ground (arith, get_or-fill xs zero n w j)
get_or-fill (x ∷ xs) (suc s) n w zero h = ground arith
get_or-fill (x ∷ xs) (suc s) n w (suc j) h = ground (arith, get_or-fill xs s n w j)

fill_words-Marks :
    (v : Bool) (b : Bitmap) (s e w : ℕ)
    → IsWf b
    → s ≤ e
    → e ≤ bitmap_words
    → w < u64_mod
    → ((k : ℕ) → k < 64 → bit w k ≡ v)
    → (c : Bitmap) × (fill_words b s e w ≡ ok c) × Marks v (s * 64) (e * 64) b c
unfolding fill_words taken
fill_words-Marks v b s e w wf h k fits uniform = (
  record b { bits = fill b.bits s (e - s) w },
  ground (arith, wf.sized),
  record {
    wf = record {
      sized = ground (arith, length-fill b.bits s (e - s) w, wf.sized);
      words = λ i. ground (arith, get_or-fill b.bits s (e - s) w i, wf.words i, wf.sized);
    };
    free_same = refl;
    reserved_same = refl;
    reads = λ i.
        ground (
          arith,
          get_or-fill b.bits s (e - s) w (i / 64),
          wf.sized,
          uniform (i % 64) (omega arith),
        );
  },
)

-- The body that `set_range` and `clear_range` share: single bits up to a word's boundary, whole
-- words, and single bits again.
marked : (Bitmap → ℕ → Result Bitmap) → ℕ → ℕ → ℕ → Bitmap → Result Bitmap
marked op w start stop b = do
  b ← each_to_word op (stop - start) start b
  let first_whole_word = next_multiple_of_64 start
  if leb stop first_whole_word then ok b else do
    b ← fill_words b (first_whole_word / 64) (stop / 64) w
    each op (stop - stop / 64 * 64) (stop / 64 * 64) b

module _ (v : Bool) (op : Bitmap → ℕ → Result Bitmap) (marking : Marking v op) (w : ℕ)
    (fits : w < u64_mod) (uniform : (k : ℕ) → k < 64 → bit w k ≡ v) where
  whole_words-Marks :
      (s e : ℕ) (b c : Bitmap)
      → s ≤ e
      → e ≤ max_frames
      → next_multiple_of_64 s < e
      → Marks v s (min e (next_multiple_of_64 s)) b c
      → (d : Bitmap) × ((fill_words c (next_multiple_of_64 s / 64) (e / 64) w
            >>= each op (e - e / 64 * 64) (e / 64 * 64))
          ≡ ok d)
        × Marks v s e b d
  whole_words-Marks s e b c h k longer head =
      let first = next_multiple_of_64 s in
      let head' : Marks v s (first / 64 * 64) b c =
        subst (λ m. Marks v s m b c) (omega arith) head in
      let (d, ran, middle) =
        fill_words-Marks v c (first / 64) (e / 64) w head.wf (omega arith) (omega arith) fits
          uniform in
      let (g, ran', tail) =
        each-Marks v op marking (e - e / 64 * 64) (e / 64 * 64) e d (omega arith) k middle.wf in
      let front =
        Marks-trans v s (first / 64 * 64) (e / 64 * 64) b c d (omega arith) (omega arith) head'
          middle in
      (g, rw ran ran', Marks-trans v s (e / 64 * 64) e b d g (omega arith) (omega arith) front tail)

  marked-Marks :
      (s e : ℕ) (b : Bitmap)
      → s ≤ e
      → e ≤ max_frames
      → IsWf b
      → (c : Bitmap) × (marked op w s e b ≡ ok c) × Marks v s e b c
  unfolding marked
  marked-Marks s e b h k wf =
      let (c, ran, head) = each_to_word-Marks v op marking (e - s) s e b (omega arith) k wf in
      elim (Bool-cases (leb e (next_multiple_of_64 s))) [
        | inl short ↦ (c, rw (ran, short) refl, subst (λ m. Marks v s m b c) (ground arith) head)
        | inr long ↦
            let (d, ran', marks) = whole_words-Marks s e b c h k (ground arith) head in
            (d, rw (ran, long) ran', marks)
      ]

-- `set_range` returns on every range inside the bitmap, takes exactly the frames of the range, and
-- changes neither counter.
pub set_range-Marks :
    (s e : ℕ) (b : Bitmap)
    → s ≤ e
    → e ≤ max_frames
    → IsWf b
    → (c : Bitmap) × (set_range s e b ≡ ok c) × Marks true s e b c
unfolding set_range marked
set_range-Marks s e b h k wf =
    marked-Marks true set set-Marking u64_max (omega arith) (bit_max 64) s e b h k wf

-- `clear_range` returns on every range inside the bitmap, frees exactly the frames of the range,
-- and changes neither counter.
pub clear_range-Marks :
    (s e : ℕ) (b : Bitmap)
    → s ≤ e
    → e ≤ max_frames
    → IsWf b
    → (c : Bitmap) × (clear_range s e b ≡ ok c) × Marks false s e b c
unfolding clear_range marked
clear_range-Marks s e b h k wf =
    marked-Marks false clear clear-Marking 0 (omega arith) (λ k l. bit-zero k) s e b h k wf
