-- ===== src/Fdt/MemoryMap/Paths.antt =====
-- `find_node` and `reg` of kernel/src/fdt.rs end on any blob with a sound header.
use the_rack.Base.{
  ℕ, zero, suc, ◌+◌, ◌-◌, ◌≤◌, ◌<◌, ◌≡◌, refl, subst, inl, inr, Bool, true, Option, none, some,
  List, arith, Bool-cases, Result-cases, ◌==◌, ◌&&◌, ltb, Result, ok, panic, ◌>>=◌, ◌>>◌, length,
  sub_u64,
}
use the_rack.Fdt.{Blob, Slice, contents}
use the_rack.Fdt.Probe.{IsSound}
use the_rack.Fdt.Walk.{Walker, Node, Step, node, property, walk, max_depth, next}
use the_rack.Fdt.Walk.Steps.{IsOpen, IsReported, Returned}
use the_rack.Fdt.Walk.Next.{NextReturns, next-NextReturns}
use the_rack.Fdt.Lookup.Ends.{walk-IsOpen}
use the_rack.Fdt.MemoryMap.{on_this_path, find_path, find_node}

-- A node that was found has its token in the blob.
abbrev pub NodeReturns : Blob → Result (Option Node) → Type 0
NodeReturns b panic = ⊥
NodeReturns b (ok none) = Unit
NodeReturns b (ok (some n)) =
    (n.offset + 4 ≤ b.header.totalsize) × (0 < n.depth) × (n.depth < max_depth)

module _ (bytes : ℕ → ℕ) (is_utf8 : List ℕ → Bool) (b : Blob) (sound : IsSound b.header) where
  on_this_path-Returned :
      (parts : List (List ℕ)) (on_path : ℕ → Bool) (n : Node) (name : List ℕ)
      → 0 < n.depth
      → n.depth < max_depth
      → Returned (on_this_path bytes is_utf8 b parts on_path n name)
  unfolding on_this_path
  on_this_path-Returned parts on_path n name h l = elim (Bool-cases (n.depth == 1)) [
    | inl top ↦ rw (top, on_this_path) tt
    | inr lower ↦
        let part : sub_u64 n.depth 2 ≡ ok (n.depth - 2) = ground arith in
        rw (lower, part, on_this_path, ◌>>=◌) tt
  ]

  node_round :
      (fuel : ℕ) (w w' : Walker) (parts : List (List ℕ)) (on_path : ℕ → Bool) (n : Node)
      (name : Slice)
      → next bytes is_utf8 b w ≡ ok (some (node n name), w')
      → IsReported bytes is_utf8 b sound w (node n name)
      → ((on_path' : ℕ → Bool) → NodeReturns b (find_path bytes is_utf8 b fuel w' parts on_path'))
      → NodeReturns b (find_path bytes is_utf8 b (suc fuel) w parts on_path)
  unfolding find_path IsReported
  node_round fuel w w' parts on_path n name ran (moved, inside, deep, shallow, name_inside) rest =
      let text = contents bytes name.start name.size in
      let room : ltb n.depth max_depth ≡ true = ground (arith, shallow) in
      elim (Result-cases (on_this_path bytes is_utf8 b parts on_path n text)) [
        | inl never ↦
            absurd (subst Returned never (on_this_path-Returned parts on_path n text deep shallow))
        | inr (matched, e) ↦ elim (Bool-cases (matched && n.depth == length parts + 1)) [
          | inl found ↦ rw (ran, e, room, found, find_path, ◌>>◌) (inside, deep, shallow)
          | inr other ↦ rw (ran, e, room, other, find_path, ◌>>◌) (rest _)
        ]
      ]

  find_path-NodeReturns :
      (fuel : ℕ) (w : Walker) (parts : List (List ℕ)) (on_path : ℕ → Bool)
      → IsOpen bytes is_utf8 b sound w
      → w.stop - w.offset < fuel
      → NodeReturns b (find_path bytes is_utf8 b fuel w parts on_path)
  unfolding find_path
  find_path-NodeReturns zero w parts on_path o h = absurd (omega arith)
  find_path-NodeReturns (suc fuel) w parts on_path o h =
      go (λ w' p o' l. find_path-NodeReturns fuel w' parts p o' l) (next bytes is_utf8 b w) refl
        (next-NextReturns bytes is_utf8 b sound w o)
    where
      go :
          ((w' : Walker) (p : ℕ → Bool)
            → IsOpen bytes is_utf8 b sound w'
            → w'.stop - w'.offset < fuel
            → NodeReturns b (find_path bytes is_utf8 b fuel w' parts p))
          → (r : Result (Option Step × Walker)) → next bytes is_utf8 b w ≡ r
          → NextReturns bytes is_utf8 b sound w r
          → NodeReturns b (find_path bytes is_utf8 b (suc fuel) w parts on_path)
      go ih panic ran never = absurd never
      go ih (ok (none, w')) ran n = rw (ran, find_path) tt
      go ih (ok (some (property name value), w')) ran (o', moves, stop, below, reported) =
          rw (ran, find_path) (ih w' on_path o' (omega (arith, stop)))
      go ih (ok (some (node n name), w')) ran (o', moves, stop, below, reported) =
          node_round fuel w w' parts on_path n name ran reported
            (λ p. ih w' p o' (omega (arith, stop)))

  pub find_node-NodeReturns : (path : List ℕ) → NodeReturns b (find_node bytes is_utf8 b path)
  unfolding find_node walk
  find_node-NodeReturns path =
      find_path-NodeReturns (b.header.totalsize + 1) (walk b) _ _
        (walk-IsOpen bytes is_utf8 b sound) (omega (arith, sound.struct_inside))
