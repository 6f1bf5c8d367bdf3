-- ===== src/Fdt/MemoryMap/Children.antt =====
-- The nodes that `memory_map` of kernel/src/fdt.rs reads.
use the_rack.Base.{
  ℕ, zero, suc, ◌+◌, ◌-◌, ◌≤◌, ◌<◌, ◌≡◌, refl, subst, inl, inr, Bool, false, Option, none, some,
  List, arith, Bool-cases, Option-cases, Result-cases, ◌==◌, leb, Result, ok, panic,
}
use the_rack.Fdt.{Blob, Slice}
use the_rack.Fdt.Probe.{IsSound}
use the_rack.Fdt.Walk.{Walker, Node, Step, node, property, next}
use the_rack.Fdt.Walk.Steps.{IsOpen, IsReported, Returned}
use the_rack.Fdt.Walk.Next.{NextReturns, next-NextReturns}
use the_rack.Fdt.Lookup.{property_of, reg, reg_name}
use the_rack.Fdt.Lookup.Values.{ValueReturns, property_of-ValueReturns, reg-Returned}
use the_rack.Fdt.MemoryMap.{MemoryMap, child_reservations, note_memory}
use the_rack.Fdt.MemoryMap.Reserving.{IsMapped, MapReturns, reserve-IsMapped}

module _ (bytes : ℕ → ℕ) (is_utf8 : List ℕ → Bool) (b : Blob) (sound : IsSound b.header) where
  module _ (parent : Node) where
    child_round :
        (fuel : ℕ) (w w' : Walker) (n : Node) (name : Slice) (m : MemoryMap)
        → next bytes is_utf8 b w ≡ ok (some (node n name), w')
        → n.offset + 4 ≤ b.header.totalsize
        → IsMapped b m
        → ((m' : MemoryMap)
            → IsMapped b m'
            → MapReturns b (child_reservations bytes is_utf8 b fuel w' parent m'))
        → MapReturns b (child_reservations bytes is_utf8 b (suc fuel) w parent m)
    unfolding child_reservations
    child_round fuel w w' n name m ran inside k rest =
        elim (Bool-cases (leb n.offset parent.offset)) [
          | inl early ↦ rw (ran, early, child_reservations) (rest m k)
          | inr c1 ↦ elim (Bool-cases (leb n.depth parent.depth)) [
            | inl over ↦ rw (ran, c1, over, child_reservations) k
            | inr c2 ↦ elim (Bool-cases (n.depth == parent.depth + 1)) [
              | inr deeper ↦ rw (ran, c1, c2, deeper, child_reservations) (rest m k)
              | inl child ↦ elim (Result-cases (reg bytes is_utf8 b n 0)) [
                | inl never ↦
                    absurd (subst Returned never (reg-Returned bytes is_utf8 b sound n 0 inside))
                | inr (found, e) ↦ elim (Option-cases found) [
                  | inl nothing ↦
                      let none_there = subst (λ o. reg bytes is_utf8 b n 0 ≡ ok o) nothing e in
                      rw (ran, c1, c2, child, none_there, child_reservations) (rest m k)
                  | inr ((base, size), something) ↦
                      let there = subst (λ o. reg bytes is_utf8 b n 0 ≡ ok o) something e in
                      rw (ran, c1, c2, child, there, child_reservations)
                        (rest _ (reserve-IsMapped b base size m k))
                ]
              ]
            ]
          ]
        ]

    pub child_reservations-MapReturns :
        (fuel : ℕ) (w : Walker) (m : MemoryMap)
        → IsOpen bytes is_utf8 b sound w
        → w.stop - w.offset < fuel
        → IsMapped b m
        → MapReturns b (child_reservations bytes is_utf8 b fuel w parent m)
    unfolding child_reservations IsReported
    child_reservations-MapReturns zero w m o h k = absurd (omega arith)
    child_reservations-MapReturns (suc fuel) w m o h k =
        go (λ w' m' o' l k'. child_reservations-MapReturns fuel w' m' o' l k')
          (next bytes is_utf8 b w) refl (next-NextReturns bytes is_utf8 b sound w o)
      where
        go :
            ((w' : Walker) (m' : MemoryMap)
              → IsOpen bytes is_utf8 b sound w'
              → w'.stop - w'.offset < fuel
              → IsMapped b m'
              → MapReturns b (child_reservations bytes is_utf8 b fuel w' parent m'))
            → (r : Result (Option Step × Walker)) → next bytes is_utf8 b w ≡ r
            → NextReturns bytes is_utf8 b sound w r
            → MapReturns b (child_reservations bytes is_utf8 b (suc fuel) w parent m)
        go ih panic ran never = absurd never
        go ih (ok (none, w')) ran n = rw (ran, child_reservations) k
        go ih (ok (some (property name value), w')) ran (o', moves, stop, below, reported) =
            rw (ran, child_reservations) (ih w' m o' (omega (arith, stop)) k)
        go ih (ok (some (node n name), w')) ran (o', moves, stop, below, reported) =
            child_round fuel w w' n name m ran reported.1 k
              (λ m' k'. ih w' m' o' (omega (arith, stop)) k')

  pub note_memory-MapReturns :
      (n : Node) (m : MemoryMap)
      → n.offset + 4 ≤ b.header.totalsize
      → IsMapped b m
      → MapReturns b (note_memory bytes is_utf8 b n m)
  unfolding note_memory
  note_memory-MapReturns n m inside k = elim (Result-cases (reg bytes is_utf8 b n 0)) [
    | inl never ↦ absurd (subst Returned never (reg-Returned bytes is_utf8 b sound n 0 inside))
    | inr (found, e) ↦ elim (Option-cases found) [
      | inl nothing ↦
          let none_there = subst (λ o. reg bytes is_utf8 b n 0 ≡ ok o) nothing e in
          rw (none_there, note_memory) k
      | inr ((base, size), something) ↦
          let there = subst (λ o. reg bytes is_utf8 b n 0 ≡ ok o) something e in
          elim (Bool-cases (size == 0)) [
            | inl nil ↦ rw (there, nil, note_memory) k
            | inr some_size ↦
                go there some_size (property_of bytes is_utf8 b n reg_name) refl
                  (property_of-ValueReturns bytes is_utf8 b sound n reg_name inside)
          ]
    ]
  ]
    where
      go :
          {base size : ℕ}
          → reg bytes is_utf8 b n 0 ≡ ok (some (base, size))
          → (size == 0) ≡ false
          → (r : Result (Option Slice)) → property_of bytes is_utf8 b n reg_name ≡ r
          → ValueReturns b r
          → MapReturns b (note_memory bytes is_utf8 b n m)
      go there some_size panic ran never = absurd never
      go there some_size (ok o) ran v =
          rw (there, some_size, ran, note_memory)
            (record { first = k.first; some_reserved = k.some_reserved; fits = k.fits })
