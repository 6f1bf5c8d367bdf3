-- ===== src/Virtqueue/Chain.antt =====
-- The lists that run through the descriptor table of kernel/src/virtqueue.rs: the free list and
-- the chain of a request. They depend only on the slots they hold.
use the_rack.Base.{
  ℕ, zero, suc, ◌+◌, ◌≤◌, ◌<◌, ◌≡◌, refl, List, [], ◌∷◌, ◌++◌, length, arith, if◌then◌else◌, ◌==◌,
  ltb, ap,
}
use the_rack.Frames.Allocator.{Memory, Frame}
use the_rack.Virtqueue.{Buffer, descriptor_next}
use the_rack.Virtqueue.Ring.{SameSlot, Describes, Describes-same, descriptor_next-same}

abbrev pub occurrences : ℕ → List ℕ → ℕ
occurrences a [] = 0
occurrences a (x ∷ xs) = (if x == a then 1 else 0) + occurrences a xs

pub occurrences-++ :
    (a : ℕ) (xs ys : List ℕ) → occurrences a (xs ++ ys) ≡ occurrences a xs + occurrences a ys
occurrences-++ a [] ys = omega arith
occurrences-++ a (x ∷ xs) ys = omega (arith, occurrences-++ a xs ys)

pub length-++ : (xs ys : List ℕ) → length (xs ++ ys) ≡ length xs + length ys
length-++ [] ys = omega arith
length-++ (x ∷ xs) ys = omega (arith, length-++ xs ys)

-- The first `n` elements, and the others.
abbrev pub take : ℕ → List ℕ → List ℕ
take zero xs = []
take (suc n) [] = []
take (suc n) (x ∷ xs) = x ∷ take n xs

abbrev pub drop : ℕ → List ℕ → List ℕ
drop zero xs = xs
drop (suc n) [] = []
drop (suc n) (x ∷ xs) = drop n xs

pub take-++-drop : (n : ℕ) (xs : List ℕ) → take n xs ++ drop n xs ≡ xs
take-++-drop zero xs = refl
take-++-drop (suc n) [] = refl
take-++-drop (suc n) (x ∷ xs) = ap (λ t. x ∷ t) (take-++-drop n xs)

pub length-take : (n : ℕ) (xs : List ℕ) → n ≤ length xs → length (take n xs) ≡ n
length-take zero xs h = refl
length-take (suc n) [] h = absurd (omega arith)
length-take (suc n) (x ∷ xs) h = ap suc (length-take n xs (omega arith))

-- The list from `head` on, by `next`; what its last descriptor names is not read.
unfoldable pub FreeList : Frame → Memory → ℕ → List ℕ → Type 0
FreeList frame m head [] = Unit
FreeList frame m head (x ∷ xs) = (head ≡ x) × FreeList frame m (descriptor_next frame x m) xs

-- The slots of a request describe its buffers in order, and each but the last says NEXT.
unfoldable pub Chain : Frame → Memory → ℕ → List ℕ → List Buffer → Type 0
Chain frame m head [] [] = Unit
Chain frame m head [] (b ∷ bs) = ⊥
Chain frame m head (x ∷ xs) [] = ⊥
Chain frame m head (x ∷ xs) (b ∷ bs) =
    (head ≡ x)
    × Describes frame m x b (ltb 0 (length bs))
    × Chain frame m (descriptor_next frame x m) xs bs

module _ (frame : Frame) (m n : Memory) where
  pub FreeList-same :
      (head : ℕ) (xs : List ℕ)
      → ((x : ℕ) → 0 < occurrences x xs → SameSlot frame m n x)
      → FreeList frame m head xs
      → FreeList frame n head xs
  unfolding FreeList
  FreeList-same head [] same h = tt
  FreeList-same head (x ∷ xs) same (at, rest) =
      let next = descriptor_next-same frame m n x (same x (ground arith)) in
      (
        at,
        rw next (FreeList-same (descriptor_next frame x m) xs (λ y p. same y (ground arith)) rest),
      )

  pub Chain-same :
      (head : ℕ) (xs : List ℕ) (bs : List Buffer)
      → ((x : ℕ) → 0 < occurrences x xs → SameSlot frame m n x)
      → Chain frame m head xs bs
      → Chain frame n head xs bs
  unfolding Chain
  Chain-same head [] [] same h = tt
  Chain-same head [] (b ∷ bs) same h = absurd h
  Chain-same head (x ∷ xs) [] same h = absurd h
  Chain-same head (x ∷ xs) (b ∷ bs) same (at, d, rest) =
      let here = same x (ground arith) in
      let next = descriptor_next-same frame m n x here in
      (
        at,
        Describes-same frame m n x b _ here d,
        rw next (Chain-same (descriptor_next frame x m) xs bs (λ y p. same y (ground arith)) rest),
      )

pub Chain-length :
    (frame : Frame) (m : Memory) (head : ℕ) (xs : List ℕ) (bs : List Buffer)
    → Chain frame m head xs bs
    → length xs ≡ length bs
unfolding Chain
Chain-length frame m head [] [] h = refl
Chain-length frame m head [] (b ∷ bs) h = absurd h
Chain-length frame m head (x ∷ xs) [] h = absurd h
Chain-length frame m head (x ∷ xs) (b ∷ bs) (at, d, rest) =
    omega (arith, Chain-length frame m (descriptor_next frame x m) xs bs rest)

pub Chain-head :
    (frame : Frame) (m : Memory) (head : ℕ) (xs : List ℕ) (bs : List Buffer)
    → 0 < length bs
    → Chain frame m head xs bs
    → 0 < occurrences head xs
unfolding Chain
Chain-head frame m head xs [] h c = absurd (omega arith)
Chain-head frame m head [] (b ∷ bs) h c = absurd c
Chain-head frame m head (x ∷ xs) (b ∷ bs) h (at, d, c) = ground (arith, at)
