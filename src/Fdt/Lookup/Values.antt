-- ===== src/Fdt/Lookup/Values.antt =====
-- The properties, windows and tests of a node in kernel/src/fdt.rs end on any blob with a sound header,
-- and what they return lies inside it.
use the_rack.Base.{
  ℕ, zero, suc, ◌+◌, ◌-◌, ◌≤◌, ◌<◌, ◌≡◌, refl, subst, inl, inr, Bool, false, Option, none, some,
  List, arith, Bool-cases, Option-cases, Result-cases, ◌==◌, ◌||◌, leb, ltb, Result, ok, panic,
  ◌>>=◌,
}
use the_rack.Fdt.{Blob, Slice, contents, str_at}
use the_rack.Fdt.Probe.{IsSound}
use the_rack.Fdt.Walk.{Node, next_property, same_bytes}
use the_rack.Fdt.Walk.Bounds.{Gives, IsInside, add_u32-ok, str_at-Gives}
use the_rack.Fdt.Walk.Steps.{Returned}
use the_rack.Fdt.Walk.Next.{NextPropertyReturns, next_property-NextPropertyReturns}
use the_rack.Fdt.Lookup.{
  properties, find_property, property_of, reg, reg_name, regions, regions_from, is_wanted,
  compatible_name,
}

-- A value that was found lies inside the blob.
abbrev pub ValueReturns : Blob → Result (Option Slice) → Type 0
ValueReturns b panic = ⊥
ValueReturns b (ok o) = Gives (IsInside b) o

module _ (bytes : ℕ → ℕ) (is_utf8 : List ℕ → Bool) (b : Blob) (sound : IsSound b.header) where
  find_property-ValueReturns :
      (fuel offset : ℕ) (name : List ℕ)
      → b.header.totalsize - offset < fuel
      → ValueReturns b (find_property bytes is_utf8 b fuel offset name)
  unfolding find_property
  find_property-ValueReturns zero offset name h = absurd (omega arith)
  find_property-ValueReturns (suc fuel) offset name h =
      go (λ after l. find_property-ValueReturns fuel after name l)
        (next_property bytes is_utf8 b (b.header.totalsize + 1) offset) refl
        (next_property-NextPropertyReturns bytes is_utf8 b sound (b.header.totalsize + 1) offset
          (omega arith))
    where
      go :
          ((after : ℕ)
            → b.header.totalsize - after < fuel
            → ValueReturns b (find_property bytes is_utf8 b fuel after name))
          → (r : Result (Option (Slice × Slice) × ℕ))
          → next_property bytes is_utf8 b (b.header.totalsize + 1) offset ≡ r
          → NextPropertyReturns bytes is_utf8 b sound offset r
          → ValueReturns b (find_property bytes is_utf8 b (suc fuel) offset name)
      go ih panic ran never = absurd never
      go ih (ok (none, after)) ran n = rw (ran, find_property) tt
      go ih (ok (some (f, value), after)) ran (moves, below, inside, value_inside) =
          elim (Bool-cases (same_bytes (contents bytes f.start f.size) name)) [
            | inl same ↦ rw (ran, same, find_property) value_inside
            | inr other ↦ rw (ran, other, find_property) (ih after (omega arith))
          ]

  properties-Returned :
      (n : Node) → n.offset + 4 ≤ b.header.totalsize → Returned (properties bytes is_utf8 b n)
  unfolding properties
  properties-Returned n h =
      let start = add_u32-ok n.offset 4 (omega (arith, sound.small)) in
      elim (Option-cases (str_at bytes b is_utf8 (n.offset + 4) b.header.totalsize)) [
        | inl e ↦ rw (start, e, properties, Returned, ◌>>=◌) tt
        | inr (name, e) ↦
            let s =
              subst
                (Gives (λ s.
                  (s.start ≡ b.va + (n.offset + 4))
                  × (n.offset + 4 + s.size < b.header.totalsize)
                  × (n.offset + 4 + s.size < b.header.totalsize)
                  × (bytes (s.start + s.size) ≡ 0)))
                e (str_at-Gives bytes b is_utf8 (n.offset + 4) b.header.totalsize) in
            let last = add_u32-ok (n.offset + 4) name.size (omega (arith, sound.small, s)) in
            let after = add_u32-ok (n.offset + 4 + name.size) 1 (omega (arith, sound.small, s)) in
            rw (start, e, last, after, properties, Returned, ◌>>=◌) tt
      ]

  -- The search for a property of a node whose token lies in a blob with a sound header does not
  -- panic and ends, and the value that it returns lies inside the blob.
  pub property_of-ValueReturns :
      (n : Node) (name : List ℕ)
      → n.offset + 4 ≤ b.header.totalsize
      → ValueReturns b (property_of bytes is_utf8 b n name)
  unfolding property_of
  property_of-ValueReturns n name h = elim (Result-cases (properties bytes is_utf8 b n)) [
    | inl never ↦ absurd (subst Returned never (properties-Returned n h))
    | inr (offset, ran) ↦
        rw (ran, property_of, ◌>>=◌)
          (find_property-ValueReturns (b.header.totalsize + 2) offset name (omega arith))
  ]

  pub reg-Returned :
      (n : Node) (index : ℕ)
      → n.offset + 4 ≤ b.header.totalsize
      → Returned (reg bytes is_utf8 b n index)
  unfolding reg
  reg-Returned n index h =
      elim (Bool-cases (ltb 2 n.address_cells || ltb 2 n.size_cells || n.address_cells == 0)) [
        | inl wide ↦ rw (wide, reg) tt
        | inr fits ↦
            go fits (property_of bytes is_utf8 b n reg_name) refl
              (property_of-ValueReturns n reg_name h)
      ]
    where
      go :
          (ltb 2 n.address_cells || ltb 2 n.size_cells || n.address_cells == 0) ≡ false
          → (r : Result (Option Slice)) → property_of bytes is_utf8 b n reg_name ≡ r
          → ValueReturns b r
          → Returned (reg bytes is_utf8 b n index)
      go fits panic ran never = absurd never
      go fits (ok none) ran v = rw (fits, ran, reg) tt
      go fits (ok (some s)) ran v = rw (fits, ran, reg) tt

  regions_from-Returned :
      (room found : ℕ) (n : Node)
      → n.offset + 4 ≤ b.header.totalsize
      → Returned (regions_from bytes is_utf8 b room found n)
  unfolding regions_from
  regions_from-Returned zero found n h = tt
  regions_from-Returned (suc room) found n h =
      go (regions_from-Returned room (found + 1) n h) (reg bytes is_utf8 b n found) refl
        (reg-Returned n found h)
    where
      go :
          Returned (regions_from bytes is_utf8 b room (found + 1) n)
          → (r : Result (Option (ℕ × ℕ))) → reg bytes is_utf8 b n found ≡ r
          → Returned r
          → Returned (regions_from bytes is_utf8 b (suc room) found n)
      go ih panic ran never = absurd never
      go ih (ok none) ran one = rw (ran, regions_from, ◌>>=◌) tt
      go ih (ok (some region)) ran one =
          elim (Result-cases (regions_from bytes is_utf8 b room (found + 1) n)) [
            | inl never ↦ absurd (subst Returned never ih)
            | inr (later, e) ↦ rw (ran, e, regions_from, ◌>>=◌) tt
          ]

  -- The regions of a node whose token lies in a blob with a sound header are read without a panic.
  pub regions-Returned :
      (n : Node) (room : ℕ)
      → n.offset + 4 ≤ b.header.totalsize
      → Returned (regions bytes is_utf8 b n room)
  unfolding regions
  regions-Returned n room h = regions_from-Returned room 0 n h

  pub is_wanted-Returned :
      (n : Node) (wanted : List ℕ) (after : ℕ)
      → n.offset + 4 ≤ b.header.totalsize
      → Returned (is_wanted bytes is_utf8 b n wanted after)
  unfolding is_wanted
  is_wanted-Returned n wanted after h = elim (Bool-cases (leb n.offset after)) [
    | inl early ↦ rw (early, is_wanted) tt
    | inr late ↦
        go late (property_of bytes is_utf8 b n compatible_name) refl
          (property_of-ValueReturns n compatible_name h)
  ]
    where
      go :
          leb n.offset after ≡ false
          → (r : Result (Option Slice)) → property_of bytes is_utf8 b n compatible_name ≡ r
          → ValueReturns b r
          → Returned (is_wanted bytes is_utf8 b n wanted after)
      go late panic ran never = absurd never
      go late (ok none) ran v = rw (late, ran, is_wanted) tt
      go late (ok (some s)) ran v = rw (late, ran, is_wanted) tt
