-- ===== src/Frames/Bitmap/Search.antt =====
-- `first_clear` of `Bitmap` finds the lowest clear bit.
use the_rack.Base.{
  ℕ, zero, suc, ◌+◌, ◌-◌, ◌*◌, ◌/◌, ◌%◌, ◌^◌, ◌≤◌, ◌<◌, ◌≡◌, ◌≢◌, refl, Bool, true, false, List, [],
  ◌∷◌, arith, ◌==◌, ltb, length, get_or, Bool-cases, inl, inr, u64_mod, Option, some, none,
}
use native.Mathlib.Nat.{pow-suc}
use the_rack.Base.Bits.{bit, bit_max}
use the_rack.Frames.Bitmap.{
  Bitmap, trailing_ones, first_clear_from, first_clear, max_frames, u64_max,
}
use the_rack.Frames.Bitmap.Bit.{taken, IsWf}

-- The bit at an index of an array of words.
at : List ℕ → ℕ → Bool
at ws i = bit (get_or ws (i / 64) 0) (i % 64)

-- Position `t` is the lowest clear bit among the first `n` of `f`.
pub record IsLowest (f : ℕ → Bool) (n t : ℕ) : Type 0 where
  pub within : t < n
  pub is_clear : f t ≡ false
  pub all_set_below : (j : ℕ) → j < t → f j ≡ true

trailing_ones-IsLowest :
    (n w : ℕ) → w < 2 ^ n → w ≢ 2 ^ n - 1 → IsLowest (bit w) n (trailing_ones n w)
unfolding trailing_ones bit
trailing_ones-IsLowest zero w h k = absurd (k (omega arith))
trailing_ones-IsLowest (suc n) w h k = elim (Bool-cases (w % 2 == 1)) [
  | inl odd ↦
      let rest =
        trailing_ones-IsLowest n (w / 2) (omega (arith, pow-suc 2 n))
          (ground (arith, pow-suc 2 n)) in
      rw odd (record {
        within = omega (arith, rest.within);
        is_clear = rest.is_clear;
        all_set_below = elim [ zero ↦ λ l. odd | suc j ↦ λ l. rest.all_set_below j (omega arith) ];
      })
  | inr even ↦
      rw even (record { within = omega arith; is_clear = even; all_set_below = λ j l. elim l [ ] })
]

at-cons_below : (w : ℕ) (ws : List ℕ) (i : ℕ) → i < 64 → at (w ∷ ws) i ≡ bit w i
unfolding at
at-cons_below w ws i h =
    let first : i / 64 ≡ 0 = omega arith in
    let same : i % 64 ≡ i = omega arith in rw (first, same) refl

at-cons_above : (w : ℕ) (ws : List ℕ) (i : ℕ) → 64 ≤ i → at (w ∷ ws) i ≡ at ws (i - 64)
unfolding at
at-cons_above w ws i h =
    let later : i / 64 ≡ suc ((i - 64) / 64) = omega arith in
    let same : i % 64 ≡ (i - 64) % 64 = omega arith in rw (later, same) refl

-- What the search may answer, and what each answer says.
abbrev Found : List ℕ → ℕ → Option ℕ → Type 0
Found ws k none = (i : ℕ) → i < length ws * 64 → at ws i ≡ true
Found ws k (some r) = (t : ℕ) × (r ≡ k * 64 + t) × IsLowest (at ws) (length ws * 64) t

full_word : (w : ℕ) (ws : List ℕ) (i : ℕ) → w ≡ u64_max → i < 64 → at (w ∷ ws) i ≡ true
full_word w ws i full h = rw (at-cons_below w ws i h, full) (bit_max 64 i h)

-- A full word is passed over, and the answer for the rest stands.
Found-cons :
    (w k : ℕ) (ws : List ℕ) (o : Option ℕ) → w ≡ u64_max → Found ws (k + 1) o → Found (w ∷ ws) k o
Found-cons w k ws none full found = λ i h. elim (Bool-cases (ltb i 64)) [
  | inl low ↦ full_word w ws i full (ground arith)
  | inr high ↦ rw (at-cons_above w ws i (ground arith)) (found (i - 64) (ground arith))
]
Found-cons w k ws (some r) full (t, e, lowest) = (
  64 + t,
  omega arith,
  record {
    within = omega (arith, lowest.within);
    is_clear = ground (arith, at-cons_above w ws (64 + t), lowest.is_clear, back);
    all_set_below = λ j h. elim (Bool-cases (ltb j 64)) [
      | inl low ↦ full_word w ws j full (ground arith)
      | inr high ↦
          rw (at-cons_above w ws j (ground arith)) (lowest.all_set_below (j - 64) (ground arith))
    ];
  },
)
  where
    back : 64 + t - 64 ≡ t
    back = omega arith

first_clear_from-Found :
    (k : ℕ) (ws : List ℕ) → ((i : ℕ) → get_or ws i 0 < u64_mod) → Found ws k (first_clear_from k ws)
unfolding first_clear_from
first_clear_from-Found k [] wf = λ i h. absurd (omega arith)
first_clear_from-Found k (w ∷ ws) wf = elim (Bool-cases (w == u64_max)) [
  | inl full ↦
      rw full
        (Found-cons w k ws _ (ground arith) (first_clear_from-Found (k + 1) ws (λ i. wf (suc i))))
  | inr vacant ↦
      let lowest = trailing_ones-IsLowest 64 w (wf 0) (ground arith) in
      let t = trailing_ones 64 w in
      rw vacant (
        t,
        refl,
        record {
          within = omega (arith, lowest.within);
          is_clear = rw (at-cons_below w ws t lowest.within) lowest.is_clear;
          all_set_below = λ j h.
              rw (at-cons_below w ws j (omega (arith, lowest.within))) (lowest.all_set_below j h);
        },
      )
]

-- What `first_clear` may answer.
abbrev pub FirstClear : Bitmap → Option ℕ → Type 0
FirstClear b none = (i : ℕ) → i < max_frames → taken b i ≡ true
FirstClear b (some i) = IsLowest (taken b) max_frames i

-- On a bitmap of its full length, `first_clear` answers nothing only when every bit is set, and otherwise
-- the lowest bit that is clear.
pub first_clear-FirstClear : (b : Bitmap) → IsWf b → FirstClear b (first_clear b)
unfolding first_clear taken at
first_clear-FirstClear b wf =
    go (first_clear_from 0 b.bits) (first_clear_from-Found 0 b.bits wf.words)
  where
    size : length b.bits * 64 ≡ max_frames
    size = omega (arith, wf.sized)

    go : (o : Option ℕ) → Found b.bits 0 o → FirstClear b o
    go none found = λ i h. found i (omega (arith, size))
    go (some r) (t, e, lowest) = let here : r ≡ t = omega arith in rw here (rw size at lowest)
