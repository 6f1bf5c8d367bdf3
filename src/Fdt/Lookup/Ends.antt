-- ===== src/Fdt/Lookup/Ends.antt =====
-- The search for a compatible node in kernel/src/fdt.rs, on any blob with a sound header.
use the_rack.Base.{
  ℕ, zero, suc, ◌+◌, ◌-◌, ◌≤◌, ◌<◌, ◌≡◌, refl, sym, subst, Bool, true, false, Option, none, some,
  List, arith, Result, ok, panic,
}
use the_rack.Fdt.{Blob, Slice}
use the_rack.Fdt.Probe.{IsSound}
use the_rack.Fdt.Walk.{Walker, Node, Step, node, property, walk, max_depth, next}
use the_rack.Fdt.Walk.Steps.{IsOpen, IsReported, Returned}
use the_rack.Fdt.Walk.Next.{NextReturns, next-NextReturns}
use the_rack.Fdt.Lookup.Entries.{IsMatch, Tells, is_wanted-Tells}
use the_rack.Fdt.Lookup.Values.{is_wanted-Returned}
use the_rack.Fdt.Lookup.{is_wanted, find_from, find_compatible_after}

module _ (bytes : ℕ → ℕ) (is_utf8 : List ℕ → Bool) (b : Blob) (sound : IsSound b.header) where
  pub walk-IsOpen : IsOpen bytes is_utf8 b sound (walk b)
  unfolding walk
  walk-IsOpen = record { shallow = omega arith; bounded = omega (arith, sound.struct_inside) }

  module _ (wanted : List ℕ) (after : ℕ) where
    abbrev pub Matches : Node → Type 0
    Matches n = IsMatch bytes is_utf8 b wanted after n

    abbrev pub IsPassed : Step → Type 0
    IsPassed (property name value) = Unit
    IsPassed (node n name) = Matches n → ⊥

    -- The walk goes from one place to another and reports no match between them.
    pub data Passes : Walker → Walker → Type 0 where
      here : {w : Walker} → Passes w w
      past :
          {w w' w'' : Walker} (step : Step)
          → next bytes is_utf8 b w ≡ ok (some step, w')
          → IsPassed step
          → Passes w' w''
          → Passes w w''

    -- A match that the walk reports, the first of it.
    pub record First (w : Walker) (n : Node) : Type 0 where
      pub inside : n.offset + 4 ≤ b.header.totalsize
      pub deep : 0 < n.depth
      pub shallow : n.depth < max_depth
      pub matches : Matches n
      pub at : Walker
      pub beyond : Walker
      pub name : Slice
      pub passes : Passes w at
      pub reported : next bytes is_utf8 b at ≡ ok (some (node n name), beyond)

    -- The walk ends, and reports no match.
    pub record NoMatch (w : Walker) : Type 0 where
      pub at : Walker
      pub beyond : Walker
      pub passes : Passes w at
      pub ends : next bytes is_utf8 b at ≡ ok (none, beyond)

    -- What the search may answer, from a place of the walk.
    abbrev pub FindReturns : Walker → Result (Option Node) → Type 0
    FindReturns w panic = ⊥
    FindReturns w (ok none) = NoMatch w
    FindReturns w (ok (some n)) = First w n

    further :
        (w w' : Walker) (step : Step) (r : Result (Option Node))
        → next bytes is_utf8 b w ≡ ok (some step, w')
        → IsPassed step
        → FindReturns w' r
        → FindReturns w r
    further w w' step panic ran passed never = never
    further w w' step (ok none) ran passed rest = record {
      at = rest.at;
      beyond = rest.beyond;
      passes = past step ran passed rest.passes;
      ends = rest.ends;
    }
    further w w' step (ok (some n)) ran passed rest = record {
      inside = rest.inside;
      deep = rest.deep;
      shallow = rest.shallow;
      matches = rest.matches;
      at = rest.at;
      beyond = rest.beyond;
      name = rest.name;
      passes = past step ran passed rest.passes;
      reported = rest.reported;
    }

    -- A round of the loop at a node.
    node_round :
        (fuel : ℕ) (w w' : Walker) (n : Node) (name : Slice)
        → next bytes is_utf8 b w ≡ ok (some (node n name), w')
        → IsReported bytes is_utf8 b sound w (node n name)
        → FindReturns w' (find_from bytes is_utf8 b fuel w' wanted after)
        → FindReturns w (find_from bytes is_utf8 b (suc fuel) w wanted after)
    unfolding find_from IsReported
    node_round fuel w w' n name ran (moved, inside, deep, shallow, name_inside) rest =
        go (is_wanted bytes is_utf8 b n wanted after) refl
          (is_wanted-Tells bytes is_utf8 b wanted after n)
          (is_wanted-Returned bytes is_utf8 b sound n wanted after inside)
      where
        go :
            (r : Result Bool)
            → is_wanted bytes is_utf8 b n wanted after ≡ r
            → Tells bytes is_utf8 b wanted after n r
            → Returned r
            → FindReturns w (find_from bytes is_utf8 b (suc fuel) w wanted after)
        go panic e tells never = absurd never
        go (ok true) e tells returned =
            rw (ran, e, find_from)
              (record {
                inside = inside;
                deep = deep;
                shallow = shallow;
                matches = tells;
                at = w;
                beyond = w';
                name = name;
                passes = here;
                reported = ran;
              })
        go (ok false) e tells returned =
            let later =
              further w w' (node n name) (find_from bytes is_utf8 b fuel w' wanted after) ran tells
                rest in
            let same : find_from bytes is_utf8 b (suc fuel) w wanted after
                ≡ find_from bytes is_utf8 b fuel w' wanted after =
              rw (ran, e, find_from) refl in
            subst (FindReturns w) (sym same) later

    find_from-FindReturns :
        (fuel : ℕ) (w : Walker)
        → IsOpen bytes is_utf8 b sound w
        → w.stop - w.offset < fuel
        → FindReturns w (find_from bytes is_utf8 b fuel w wanted after)
    unfolding find_from
    find_from-FindReturns zero w o h = absurd (omega arith)
    find_from-FindReturns (suc fuel) w o h =
        go (λ w' o' l. find_from-FindReturns fuel w' o' l) (next bytes is_utf8 b w) refl
          (next-NextReturns bytes is_utf8 b sound w o)
      where
        go :
            ((w' : Walker)
              → IsOpen bytes is_utf8 b sound w'
              → w'.stop - w'.offset < fuel
              → FindReturns w' (find_from bytes is_utf8 b fuel w' wanted after))
            → (r : Result (Option Step × Walker)) → next bytes is_utf8 b w ≡ r
            → NextReturns bytes is_utf8 b sound w r
            → FindReturns w (find_from bytes is_utf8 b (suc fuel) w wanted after)
        go ih panic ran never = absurd never
        go ih (ok (none, w')) ran n =
            rw (ran, find_from) (record { at = w; beyond = w'; passes = here; ends = ran })
        go ih (ok (some (property name value), w')) ran (o', moves, stop, below, reported) =
            let same : find_from bytes is_utf8 b (suc fuel) w wanted after
                ≡ find_from bytes is_utf8 b fuel w' wanted after =
              rw (ran, find_from) refl in
            subst (FindReturns w) (sym same) (
              further w w' (property name value) (find_from bytes is_utf8 b fuel w' wanted after)
                ran tt (ih w' o' (omega (arith, stop))))
        go ih (ok (some (node n name), w')) ran (o', moves, stop, below, reported) =
            node_round fuel w w' n name ran reported (ih w' o' (omega (arith, stop)))

    -- On any blob with a sound header, whatever its bytes, the search for a compatible node does not
    -- panic and ends. It finds nothing only if the walk ends and reports no node that starts after the
    -- given offset and has the string among the entries of its "compatible" list. A node that it
    -- finds is one, the first that the walk reports; its token lies in the blob, and its depth is
    -- between 1 and 15.
    pub find_compatible_after-FindReturns :
        FindReturns (walk b) (find_compatible_after bytes is_utf8 b wanted after)
    unfolding find_compatible_after walk
    find_compatible_after-FindReturns =
        find_from-FindReturns (b.header.totalsize + 1) (walk b) walk-IsOpen
          (omega (arith, sound.struct_inside))
