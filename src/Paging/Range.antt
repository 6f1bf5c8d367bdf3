-- ===== src/Paging/Range.antt =====
-- The permission checks of kernel/src/paging.rs, byte by byte.
use the_rack.Base.{
  ℕ, zero, suc, ◌+◌, ◌*◌, ◌/◌, ◌%◌, ◌^◌, ◌≤◌, ◌<◌, ◌≡◌, ◌⊎◌, ◌↔◌, inl, inr, refl, Bool, true, ◌||◌,
  some, ◌==◌, ltb, arith, Bool-cases, Option-cases,
}
use the_rack.Frames.Allocator.{Memory, Frame}
use the_rack.Paging.{
  kernel_base, page_size, page_of, ap_shift, ap_rw_all, ap_ro_all, lookup, allowed_pages,
  user_range, user_readable, user_writable,
}

-- The page of address `a` is mapped, with access bits that `allowed` accepts.
abbrev pub Permits : Frame → (ℕ → Bool) → Memory → ℕ → Type 0
Permits root allowed m a =
    (entry : ℕ) × (lookup root (page_of a) m ≡ some entry)
    × (allowed (entry / 2 ^ ap_shift % 2 ^ 2) ≡ true)

-- What the tables have to say of every byte of `va..va + len`.
abbrev pub RangePermits : Frame → ℕ → ℕ → (ℕ → Bool) → Memory → Type 0
RangePermits root va len allowed m =
    (len ≡ 0)
    ⊎ ((va + len ≤ kernel_base) × ((a : ℕ) → va ≤ a → a < va + len → Permits root allowed m a))

module _ (root : Frame) (stop : ℕ) (allowed : ℕ → Bool) (m : Memory) where
  abbrev PagesPermit : ℕ → Type 0
  PagesPermit page = (a : ℕ) → page ≤ a → a < stop → Permits root allowed m a

  first_page : (page : ℕ) → page % page_size ≡ 0 → page_of page ≡ page
  first_page page aligned = omega arith

  PagesPermit-cons :
      (page entry : ℕ)
      → page % page_size ≡ 0
      → lookup root page m ≡ some entry
      → allowed (entry / 2 ^ ap_shift % 2 ^ 2) ≡ true
      → PagesPermit (page + page_size)
      → PagesPermit page
  PagesPermit-cons page entry aligned found ok_here rest a p q =
      elim (Bool-cases (ltb a (page + page_size))) [
        | inl here ↦ let same : page_of a ≡ page = ground arith in (entry, rw same found, ok_here)
        | inr later ↦ rest a (ground arith) q
      ]

  allowed_pages_sound :
      (fuel page : ℕ)
      → page % page_size ≡ 0
      → allowed_pages fuel root page stop allowed m ≡ true
      → PagesPermit page
  unfolding allowed_pages
  allowed_pages_sound zero page aligned h a p q = cc
  allowed_pages_sound (suc fuel) page aligned h a p q =
      let go =
        λ (entry : ℕ) (found : lookup root page m ≡ some entry)
            (ok_here : allowed (entry / 2 ^ ap_shift % 2 ^ 2) ≡ true)
            (rest : allowed_pages fuel root (page + page_size) stop allowed m ≡ true).
          PagesPermit-cons page entry aligned found ok_here
            (allowed_pages_sound fuel (page + page_size) (omega arith) rest) a p q in
      elim (Option-cases (lookup root page m)) [
        | inl unmapped ↦ absurd (ground arith)
        | inr (entry, found) ↦ go entry found (ground arith) (ground arith)
      ]

  allowed_pages_complete :
      (fuel page : ℕ)
      → page % page_size ≡ 0
      → page < stop + page_size
      → stop + page_size ≤ page + fuel * page_size
      → PagesPermit page
      → allowed_pages fuel root page stop allowed m ≡ true
  unfolding allowed_pages
  allowed_pages_complete zero page aligned near enough h = absurd (omega arith)
  allowed_pages_complete (suc fuel) page aligned near enough h = elim (Bool-cases (ltb page stop)) [
    | inr past ↦ rw past refl
    | inl more ↦
        let (entry, found, ok_here) = h page (omega arith) (ground arith) in
        let found' : lookup root page m ≡ some entry = rw (first_page page aligned) at found in
        let rest =
          allowed_pages_complete fuel (page + page_size) (omega arith) (ground arith) (omega arith)
            (λ a p q. h a (omega arith) q) in
        rw (more, found', ok_here) rest
  ]

user_range_sound :
    (root : Frame) (va len : ℕ) (allowed : ℕ → Bool) (m : Memory)
    → user_range root va len allowed m ≡ true
    → RangePermits root va len allowed m
unfolding user_range
user_range_sound root va len allowed m h = elim (Bool-cases (len == 0)) [
  | inl empty ↦ inl (ground arith)
  | inr some_bytes ↦
      let walked : allowed_pages (len / page_size + 3) root (page_of va) (va + len) allowed m
          ≡ true =
        ground arith in
      inr (
        ground arith,
        λ a p q.
            allowed_pages_sound root (va + len) allowed m (len / page_size + 3) (page_of va)
              (omega arith) walked a (omega arith) q,
      )
]

user_range_complete :
    (root : Frame) (va len : ℕ) (allowed : ℕ → Bool) (m : Memory)
    → RangePermits root va len allowed m
    → user_range root va len allowed m ≡ true
unfolding user_range
user_range_complete root va len allowed m (inl empty) = ground arith
user_range_complete root va len allowed m (inr (below, permits)) = elim (Bool-cases (len == 0)) [
  | inl empty ↦ rw empty refl
  | inr some_bytes ↦
      let walked : allowed_pages (len / page_size + 3) root (page_of va) (va + len) allowed m
          ≡ true =
        allowed_pages_complete root (va + len) allowed m (len / page_size + 3) (page_of va)
          (omega arith) (ground arith) (omega arith)
          (whole_pages (permits va (omega arith) (ground arith))) in
      ground arith
]
  where
    -- The bytes before `va` in its page are permitted as `va` is.
    whole_pages :
        Permits root allowed m va
        → (a : ℕ) → page_of va ≤ a
        → a < va + len
        → Permits root allowed m a
    whole_pages (entry, found, ok_here) a p q = elim (Bool-cases (ltb a va)) [
      | inl before ↦
          let same : page_of a ≡ page_of va = ground arith in (entry, rw same found, ok_here)
      | inr inside ↦ permits a (ground arith) q
    ]

-- `user_readable` accepts a range exactly if it is empty, or ends below the kernel's half and each of
-- its bytes is mapped with one of the two encodings that let EL0 read.
pub user_readable_iff :
    (root : Frame) (va len : ℕ) (m : Memory)
    → (user_readable root va len m ≡ true)
      ↔ RangePermits root va len (λ ap. ap == ap_rw_all || ap == ap_ro_all) m
unfolding user_readable
user_readable_iff root va len m =
    (user_range_sound root va len _ m, user_range_complete root va len _ m)

-- `user_writable` accepts a range exactly if it is empty, or ends below the kernel's half and each of
-- its bytes is mapped with the one encoding that lets EL0 write.
pub user_writable_iff :
    (root : Frame) (va len : ℕ) (m : Memory)
    → (user_writable root va len m ≡ true) ↔ RangePermits root va len (λ ap. ap == ap_rw_all) m
unfolding user_writable
user_writable_iff root va len m =
    (user_range_sound root va len _ m, user_range_complete root va len _ m)
