-- ===== src/Fdt/Walk/Bounds.antt =====
-- The reads of kernel/src/fdt.rs: what they return lies inside the blob.
use the_rack.Base.{
  ℕ, zero, suc, ◌+◌, ◌-◌, ◌≤◌, ◌<◌, ◌≡◌, refl, subst, ap, ◌∙◌, inl, inr, Bool, Option, none, some,
  List, arith, min, Bool-cases, Option-cases, ltb, leb, ◌==◌, ok,
}
use the_rack.Fdt.{
  Blob, Slice, u32_mod, u32_at, bytes_at, find_nul, str_at, string, contents, add_u32,
}

-- `P` holds of what a read returns, if it returns something.
abbrev pub Gives {ℓ} : {A : Type ℓ} → (A → Type 0) → Option A → Type 0
Gives P none = Unit
Gives P (some a) = P a

pub Gives-map {ℓ} :
    {A : Type ℓ} (P Q : A → Type 0) (o : Option A) → ((a : A) → P a → Q a) → Gives P o → Gives Q o
Gives-map P Q none f h = tt
Gives-map P Q (some a) f h = f a h

-- The slice lies inside the blob.
pub record IsInside (b : Blob) (s : Slice) : Type 0 where
  pub after_start : b.va ≤ s.start
  pub before_end : s.start + s.size ≤ b.va + b.header.totalsize

pub add_u32-ok : (a b : ℕ) → a + b < u32_mod → add_u32 a b ≡ ok (a + b)
unfolding add_u32
add_u32-ok a b h = ground arith

module _ (bytes : ℕ → ℕ) (b : Blob) where
  pub u32_at-Gives :
      (offset : ℕ) → Gives (λ v. offset + 4 ≤ b.header.totalsize) (u32_at bytes b offset)
  unfolding u32_at
  u32_at-Gives offset = ground arith

  pub bytes_at-Gives :
      (offset len : ℕ)
      → Gives
          (λ s. (s.start ≡ b.va + offset) × (s.size ≡ len) × (offset + len ≤ b.header.totalsize))
          (bytes_at bytes b offset len)
  unfolding bytes_at
  bytes_at-Gives offset len = elim (Bool-cases (ltb (offset + len) u32_mod)) [
    | inr wraps ↦ rw (wraps, bytes_at) tt
    | inl fits ↦ elim (Bool-cases (ltb b.header.totalsize (offset + len))) [
      | inl out ↦ rw (fits, out, bytes_at) tt
      | inr within ↦ rw (fits, within, bytes_at) (refl, refl, ground arith)
    ]
  ]

  pub find_nul-Gives :
      (fuel offset limit : ℕ)
      → Gives
          (λ stop. (offset ≤ stop) × (stop < limit) × (bytes (b.va + stop) ≡ 0))
          (find_nul bytes b fuel offset limit)
  unfolding find_nul
  find_nul-Gives zero offset limit = tt
  find_nul-Gives (suc fuel) offset limit = elim (Bool-cases (ltb offset limit)) [
    | inr past ↦ rw past tt
    | inl below ↦ elim (Bool-cases (bytes (b.va + offset) == 0)) [
      | inl found ↦ rw (below, found) (omega arith, ground arith, ground arith)
      | inr other ↦
          rw (below, other)
            (Gives-map _ _ (find_nul bytes b fuel (offset + 1) limit)
              (λ stop h. (omega (arith, h.0), h.1, h.2)) (find_nul-Gives fuel (offset + 1) limit))
    ]
  ]

  module _ (is_utf8 : List ℕ → Bool) where
    pub str_at-Gives :
        (offset limit : ℕ)
        → Gives
            (λ s.
              (s.start ≡ b.va + offset)
              × (offset + s.size < limit)
              × (offset + s.size < b.header.totalsize)
              × (bytes (s.start + s.size) ≡ 0))
            (str_at bytes b is_utf8 offset limit)
    unfolding str_at
    str_at-Gives offset limit =
        let top = min limit b.header.totalsize in
        elim (Bool-cases (leb top offset)) [
          | inl past ↦ rw past tt
          | inr below ↦ elim (Option-cases (find_nul bytes b (top - offset) offset top)) [
            | inl e ↦ rw (below, e) tt
            | inr (stop, e) ↦
                let found =
                  subst (Gives (λ stop. (offset ≤ stop) × (stop < top) × (bytes (b.va + stop) ≡ 0)))
                    e (find_nul-Gives (top - offset) offset top) in
                elim (Option-cases (bytes_at bytes b offset (stop - offset))) [
                  | inl none_there ↦ rw (below, e, none_there) tt
                  | inr (s, there) ↦
                      let inside =
                        subst
                          (Gives (λ s.
                            (s.start ≡ b.va + offset)
                            × (s.size ≡ stop - offset)
                            × (offset + (stop - offset) ≤ b.header.totalsize)))
                          there (bytes_at-Gives offset (stop - offset)) in
                      let at : s.start + s.size ≡ b.va + stop = omega (arith, inside, found) in
                      let ends : bytes (s.start + s.size) ≡ 0 = ap bytes at ∙ found.2 in
                      elim (Bool-cases (is_utf8 (contents bytes s.start s.size))) [
                        | inr bad ↦ rw (below, e, there, bad) tt
                        | inl good ↦
                            rw (below, e, there, good) (inside.0, ground arith, ground arith, ends)
                      ]
                ]
          ]
        ]

    pub string-Gives :
        (name_offset : ℕ)
        → b.header.off_dt_strings + b.header.size_dt_strings ≤ b.header.totalsize
        → Gives
            (λ s.
              (b.va + b.header.off_dt_strings ≤ s.start)
              × (s.start + s.size < b.va + b.header.off_dt_strings + b.header.size_dt_strings))
            (string bytes b is_utf8 name_offset)
    unfolding string
    string-Gives name_offset sound =
        let first = b.header.off_dt_strings + name_offset in
        let last = b.header.off_dt_strings + b.header.size_dt_strings in
        elim (Bool-cases (ltb first u32_mod)) [
          | inr wraps ↦ rw (wraps, string) tt
          | inl fits ↦ elim (Bool-cases (ltb last u32_mod)) [
            | inr wraps ↦ rw (fits, wraps, string) tt
            | inl fits' ↦ elim (Bool-cases (leb last first)) [
              | inl past ↦ rw (fits, fits', past, string) tt
              | inr before ↦
                  rw (fits, fits', before, string)
                    (Gives-map _ _ (str_at bytes b is_utf8 first last)
                      (λ s h. (omega (arith, h.0), omega (arith, h.0, h.1)))
                      (str_at-Gives first last))
            ]
          ]
        ]
