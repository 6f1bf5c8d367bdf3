-- ===== src/Fdt/Walk/Next.antt =====
-- `Walker::next` and `Properties::next` of kernel/src/fdt.rs: they end, and what they report lies
-- inside the blob.
use the_rack.Base.{
  ℕ, zero, suc, ◌+◌, ◌-◌, ◌≤◌, ◌<◌, ◌≡◌, refl, subst, ◌∙◌, inl, inr, Bool, true, false, Option,
  none, some, List, arith, Bool-cases, Option-cases, ◌==◌, Result, ok, panic, ◌>>=◌,
}
use the_rack.Fdt.{Blob, Slice, u32_at}
use the_rack.Fdt.Probe.{IsSound}
use the_rack.Fdt.Walk.{
  Walker, Step, node, property, Turn, again, answer, Found, fdt_nop, fdt_prop, turn, rounds, next,
  next_property, read_property,
}
use the_rack.Fdt.Walk.Bounds.{Gives, IsInside, add_u32-ok, u32_at-Gives}
use the_rack.Fdt.Walk.Steps.{
  IsOpen, IsReported, TurnReturns, turn-Returns, PropertyReturns, read_property-Returns,
}

module _ (bytes : ℕ → ℕ) (is_utf8 : List ℕ → Bool) (b : Blob) (sound : IsSound b.header) where
  -- What `next` may answer.
  abbrev pub NextReturns : Walker → Result (Option Step × Walker) → Type 0
  NextReturns w panic = ⊥
  NextReturns w (ok (none, w')) = IsOpen bytes is_utf8 b sound w'
  NextReturns w (ok (some s, w')) =
      IsOpen bytes is_utf8 b sound w'
      × (w.offset + 4 ≤ w'.offset)
      × (w'.stop ≡ w.stop)
      × (w.offset < w.stop)
      × IsReported bytes is_utf8 b sound w s

  further :
      (w w' : Walker)
      → w.offset + 4 ≤ w'.offset
      → w'.stop ≡ w.stop
      → w.offset < w.stop
      → (r : Result (Option Step × Walker)) → NextReturns w' r
      → NextReturns w r
  unfolding IsReported
  further w w' h e l panic n = n
  further w w' h e l (ok (none, w'')) n = n
  further w w' h e l (ok (some (node m name), w''))
        (o, moves, stop, below, (after, token, deep, shallow, name_inside)) =
      (o, omega arith, stop ∙ e, l, (omega arith, token, deep, shallow, name_inside))
  further w w' h e l (ok (some (property name value), w'')) (o, moves, stop, below, rest) =
      (o, omega arith, stop ∙ e, l, rest)

  rounds-NextReturns :
      (fuel : ℕ) (w : Walker)
      → IsOpen bytes is_utf8 b sound w
      → w.stop - w.offset < fuel
      → NextReturns w (rounds bytes is_utf8 b fuel w)
  unfolding rounds TurnReturns
  rounds-NextReturns zero w o h = absurd (omega arith)
  rounds-NextReturns (suc fuel) w o h =
      go (λ w' o' l. rounds-NextReturns fuel w' o' l) (turn bytes is_utf8 b w) refl
        (turn-Returns bytes is_utf8 b sound w o)
    where
      go :
          ((w' : Walker)
            → IsOpen bytes is_utf8 b sound w'
            → w'.stop - w'.offset < fuel
            → NextReturns w' (rounds bytes is_utf8 b fuel w'))
          → (r : Result Turn) → turn bytes is_utf8 b w ≡ r
          → TurnReturns bytes is_utf8 b sound w r
          → NextReturns w (rounds bytes is_utf8 b (suc fuel) w)
      go ih panic e never = absurd never
      go ih (ok (answer none w')) e t = rw (e, rounds) t
      go ih (ok (answer (some s) w')) e t = rw (e, rounds) t
      go ih (ok (again w')) e (o', moves, stop, below) =
          rw (e, rounds) (further w w' moves stop below _ (ih w' o' (omega (arith, stop))))

  -- On any blob with a sound header, whatever its bytes, `next` of a walker that is inside the depth
  -- limit and ends in the blob does not panic, and it ends within its rounds. Either the walk is
  -- over, or it reports a node or a property: the walker moves on by four bytes or more, keeps its
  -- end and stays inside the limits, a node's depth is between 1 and 15, and the node's token, its
  -- name and the property's name and value lie inside the blob.
  pub next-NextReturns :
      (w : Walker) → IsOpen bytes is_utf8 b sound w → NextReturns w (next bytes is_utf8 b w)
  unfolding next
  next-NextReturns w o = rounds-NextReturns (w.stop - w.offset + 1) w o (omega arith)

  -- What `Properties::next` may answer.
  abbrev pub NextPropertyReturns : ℕ → Result (Option (Slice × Slice) × ℕ) → Type 0
  NextPropertyReturns offset panic = ⊥
  NextPropertyReturns offset (ok (none, after)) = Unit
  NextPropertyReturns offset (ok (some (name, value), after)) =
      (offset + 12 ≤ after) × (offset < b.header.totalsize) × IsInside b name × IsInside b value

  further_property :
      (offset : ℕ) (r : Result (Option (Slice × Slice) × ℕ))
      → NextPropertyReturns (offset + 4) r
      → NextPropertyReturns offset r
  further_property offset panic n = n
  further_property offset (ok (none, after)) n = n
  further_property offset (ok (some (name, value), after)) (moves, below, n, v) =
      (omega arith, omega arith, n, v)

  one_property :
      (fuel offset token : ℕ)
      → u32_at bytes b offset ≡ some token
      → (token == fdt_nop) ≡ false
      → (token == fdt_prop) ≡ true
      → offset + 4 ≤ b.header.totalsize
      → NextPropertyReturns offset (next_property bytes is_utf8 b (suc fuel) offset)
  unfolding next_property PropertyReturns
  one_property fuel offset token e t1 t2 inside =
      go (read_property bytes is_utf8 b offset) refl
        (read_property-Returns bytes is_utf8 b sound offset inside)
    where
      go :
          (r : Result (Option Found))
          → read_property bytes is_utf8 b offset ≡ r
          → PropertyReturns b offset r
          → NextPropertyReturns offset (next_property bytes is_utf8 b (suc fuel) offset)
      go panic ran never = absurd never
      go (ok none) ran h = rw (e, t1, t2, ran, next_property) tt
      go (ok (some f)) ran h =
          rw (e, t1, t2, ran, next_property)
            (omega (arith, h.moves), omega arith, h.name_inside, h.value_inside)

  -- On any blob with a sound header, the search for the next property from any offset does not panic
  -- and ends: a round for each byte of the blob after the offset, and one more, is enough. A property
  -- that it finds moves the offset on by twelve bytes or more, and its name and value lie inside the
  -- blob.
  pub next_property-NextPropertyReturns :
      (fuel offset : ℕ)
      → b.header.totalsize - offset < fuel
      → NextPropertyReturns offset (next_property bytes is_utf8 b fuel offset)
  unfolding next_property
  next_property-NextPropertyReturns zero offset h = absurd (omega arith)
  next_property-NextPropertyReturns (suc fuel) offset h =
      elim (Option-cases (u32_at bytes b offset)) [
        | inl e ↦ rw (e, next_property) tt
        | inr (token, e) ↦
            let inside =
              subst (Gives (λ v. offset + 4 ≤ b.header.totalsize)) e
                (u32_at-Gives bytes b offset) in
            elim (Bool-cases (token == fdt_nop)) [
              | inl nop ↦
                  rw
                    (e, nop, add_u32-ok offset 4 (omega (arith, sound.small)), next_property, ◌>>=◌)
                    (further_property offset _
                      (next_property-NextPropertyReturns fuel (offset + 4) (omega arith)))
              | inr t1 ↦ elim (Bool-cases (token == fdt_prop)) [
                | inl prop ↦ one_property fuel offset token e t1 prop inside
                | inr t2 ↦ rw (e, t1, t2, next_property) tt
              ]
            ]
      ]
