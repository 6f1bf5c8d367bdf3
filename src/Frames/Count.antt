-- ===== src/Frames/Count.antt =====
-- Counting the frames that are not taken, for any view of which frames are.
use the_rack.Base.{
  ℕ, zero, suc, ◌+◌, ◌-◌, ◌≤◌, ◌<◌, ◌≡◌, refl, sym, subst, Bool, ◌==◌, true, false, arith,
  if◌then◌else◌, ltb, Bool-cases, inl, inr,
}

-- How many of the first `n` frames are not taken.
pub vacant : ℕ → (ℕ → Bool) → ℕ
vacant zero f = 0
vacant (suc n) f = if f n then vacant n f else suc (vacant n f)

pub vacant-congr :
    (n : ℕ) (f g : ℕ → Bool) → ((i : ℕ) → i < n → f i ≡ g i) → vacant n f ≡ vacant n g
unfolding vacant
vacant-congr zero f g h = refl
vacant-congr (suc n) f g h =
    ground (arith, h n (omega arith), vacant-congr n f g (λ i l. h i (omega arith)))

-- Two views of the first `n` frames that agree but on a range, which the first has free and the
-- second taken.
pub record Takes (n s e : ℕ) (f g : ℕ → Bool) : Type 0 where
  pub was_free : (i : ℕ) → s ≤ i → i < e → f i ≡ false
  pub now_taken : (i : ℕ) → s ≤ i → i < e → g i ≡ true
  pub before : (i : ℕ) → i < s → g i ≡ f i
  pub after : (i : ℕ) → e ≤ i → i < n → g i ≡ f i

Takes-shrink : (n s : ℕ) (f g : ℕ → Bool) → Takes (suc n) s (suc n) f g → Takes n s n f g
Takes-shrink n s f g t = record {
  was_free = λ i h k. t.was_free i h (omega arith);
  now_taken = λ i h k. t.now_taken i h (omega arith);
  before = t.before;
  after = λ i h k. absurd (omega arith);
}

Takes-below : (n s e : ℕ) (f g : ℕ → Bool) → Takes (suc n) s e f g → Takes n s e f g
Takes-below n s e f g t = record {
  was_free = t.was_free;
  now_taken = t.now_taken;
  before = t.before;
  after = λ i h k. t.after i h (omega arith);
}

-- Taking a range takes its length off the count.
pub vacant-Takes :
    (n s e : ℕ) (f g : ℕ → Bool)
    → s ≤ e
    → e ≤ n
    → Takes n s e f g
    → vacant n f ≡ vacant n g + (e - s)
unfolding vacant
vacant-Takes zero s e f g h k t = omega arith
vacant-Takes (suc n) s e f g h k t = elim (Bool-cases (ltb n e)) [
  | inl last ↦
      let all : e ≡ suc n = ground arith in
      let t' : Takes (suc n) s (suc n) f g = subst (λ m. Takes (suc n) s m f g) all t in
      elim (Bool-cases (ltb n s)) [
        | inl empty ↦
            ground (arith, vacant-congr (suc n) f g (λ i l. sym (t.before i (ground arith))))
        | inr some_taken ↦ ground (
          arith,
          t'.was_free n (ground arith) (omega arith),
          t'.now_taken n (ground arith) (omega arith),
          vacant-Takes n s n f g (ground arith) (omega arith) (Takes-shrink n s f g t'),
        )
      ]
  | inr beyond ↦ ground (
    arith,
    t.after n (ground arith) (omega arith),
    vacant-Takes n s e f g h (ground arith) (Takes-below n s e f g t),
  )
]

-- A free frame makes the count positive.
pub vacant_pos : (n i : ℕ) (f : ℕ → Bool) → i < n → f i ≡ false → 0 < vacant n f
unfolding vacant
vacant_pos zero i f h k = absurd (omega arith)
vacant_pos (suc n) i f h k = elim (Bool-cases (i == n)) [
  | inl same ↦ let e : n ≡ i = ground arith in rw (e, k) (omega arith)
  | inr other ↦ ground (arith, vacant_pos n i f)
]

pub vacant_full : (n : ℕ) (f : ℕ → Bool) → ((i : ℕ) → i < n → f i ≡ true) → vacant n f ≡ 0
unfolding vacant
vacant_full zero f h = refl
vacant_full (suc n) f h =
    ground (arith, h n (omega arith), vacant_full n f (λ i l. h i (omega arith)))

pub vacant-le : (n : ℕ) (f : ℕ → Bool) → vacant n f ≤ n
unfolding vacant
vacant-le zero f = omega arith
vacant-le (suc n) f = ground (arith, vacant-le n f)

-- Frames past the first `m` that are all taken do not count.
pub vacant_grow :
    (k m : ℕ) (f : ℕ → Bool)
    → ((i : ℕ) → m ≤ i → i < m + k → f i ≡ true)
    → vacant (m + k) f ≡ vacant m f
unfolding vacant
vacant_grow zero m f h = let e : m + 0 ≡ m = omega arith in rw e refl
vacant_grow (suc k) m f h =
    let e : m + suc k ≡ suc (m + k) = omega arith in
    rw (e, vacant)
      (ground (
        arith,
        h (m + k) (omega arith) (omega arith),
        vacant_grow k m f (λ i a b. h i a (omega arith)),
      ))

pub vacant_empty : (n : ℕ) (f : ℕ → Bool) → ((i : ℕ) → i < n → f i ≡ false) → vacant n f ≡ n
unfolding vacant
vacant_empty zero f h = refl
vacant_empty (suc n) f h =
    ground (arith, h n (omega arith), vacant_empty n f (λ i l. h i (omega arith)))
