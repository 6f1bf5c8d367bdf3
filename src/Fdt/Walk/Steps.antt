-- ===== src/Fdt/Walk/Steps.antt =====
-- The walker of kernel/src/fdt.rs over any blob whose header passed `probe`, whatever its bytes.
use the_rack.Base.{
  ℕ, ◌+◌, ◌≤◌, ◌<◌, ◌≡◌, refl, subst, inl, inr, Bool, true, Option, none, some, List, arith,
  Bool-cases, Option-cases, ltb, leb, ◌==◌, Result, ok, panic, ◌>>=◌, ◌>>◌, Result-cases,
}
use the_rack.Fdt.{Blob, u32_at, bytes_at, str_at, string, contents}
use the_rack.Fdt.Probe.{IsSound}
use the_rack.Fdt.Walk.{
  Walker, Step, node, property, Turn, again, answer, Found, max_depth, fdt_nop, fdt_end,
  fdt_begin_node, fdt_end_node, fdt_prop, read_property, read_cells, note_cells, open_node,
  close_node, pass_property, turn, same_bytes, address_cells_name, size_cells_name,
}
use the_rack.Fdt.Walk.Bounds.{
  Gives, IsInside, add_u32-ok, u32_at-Gives, bytes_at-Gives, str_at-Gives, string-Gives,
}

-- The code did not panic.
abbrev pub Returned {ℓ} : {A : Type ℓ} → Result A → Type 0
Returned panic = ⊥
Returned (ok a) = Unit

-- A property that was read at `offset`.
pub record IsFound (b : Blob) (offset : ℕ) (f : Found) : Type 0 where
  pub name_inside : IsInside b f.name
  pub value_inside : IsInside b f.value
  pub moves : offset + 12 + f.value.size ≤ f.after

unfoldable pub PropertyReturns : Blob → ℕ → Result (Option Found) → Type 0
PropertyReturns b offset panic = ⊥
PropertyReturns b offset (ok o) = Gives (IsFound b offset) o

module _ (bytes : ℕ → ℕ) (is_utf8 : List ℕ → Bool) (b : Blob) (sound : IsSound b.header) where
  pub read_property-Returns :
      (offset : ℕ)
      → offset + 4 ≤ b.header.totalsize
      → PropertyReturns b offset (read_property bytes is_utf8 b offset)
  unfolding read_property PropertyReturns
  read_property-Returns offset h =
      let len_at = add_u32-ok offset 4 (omega (arith, sound.small)) in
      let name_at = add_u32-ok offset 8 (omega (arith, sound.small)) in
      let value_at = add_u32-ok offset 12 (omega (arith, sound.small)) in
      elim (Option-cases (u32_at bytes b (offset + 4))) [
        | inl e ↦ rw (len_at, e, read_property, PropertyReturns, ◌>>=◌) tt
        | inr (len, e1) ↦ elim (Option-cases (u32_at bytes b (offset + 8))) [
          | inl e ↦ rw (len_at, e1, name_at, e, read_property, PropertyReturns, ◌>>=◌) tt
          | inr (name_offset, e2) ↦ elim (Option-cases (bytes_at bytes b (offset + 12) len)) [
            | inl e ↦
                rw (len_at, e1, name_at, e2, value_at, e, read_property, PropertyReturns, ◌>>=◌) tt
            | inr (value, e3) ↦ elim (Option-cases (string bytes b is_utf8 name_offset)) [
              | inl e ↦
                  rw
                    (
                      len_at, e1, name_at, e2, value_at, e3, e, read_property, PropertyReturns,
                      ◌>>=◌,
                    )
                    tt
              | inr (name, e4) ↦
                  let v =
                    subst
                      (Gives (λ s.
                        (s.start ≡ b.va + (offset + 12))
                        × (s.size ≡ len)
                        × (offset + 12 + len ≤ b.header.totalsize)))
                      e3 (bytes_at-Gives bytes b (offset + 12) len) in
                  let n =
                    subst
                      (Gives (λ s.
                        (b.va + b.header.off_dt_strings ≤ s.start)
                        × (s.start + s.size
                            < b.va + b.header.off_dt_strings + b.header.size_dt_strings)))
                      e4 (string-Gives bytes b is_utf8 name_offset sound.strings_inside) in
                  let after = add_u32-ok (offset + 12) len (omega (arith, sound.small, v)) in
                  rw
                    (
                      len_at, e1, name_at, e2, value_at, e3, e4, after, read_property,
                      PropertyReturns, ◌>>=◌,
                    )
                    (record {
                      name_inside = record {
                        after_start = omega (arith, n);
                        before_end = omega (arith, n, sound.strings_inside);
                      };
                      value_inside = record {
                        after_start = omega (arith, v);
                        before_end = omega (arith, v);
                      };
                      moves = omega (arith, v, sound.small);
                    })
            ]
          ]
        ]
      ]

  -- A walker that `next` may be called on.
  pub record IsOpen (w : Walker) : Type 0 where
    pub shallow : w.depth < max_depth
    pub bounded : w.stop ≤ b.header.totalsize

  -- What a step reports lies inside the blob.
  unfoldable pub IsReported : Walker → Step → Type 0
  IsReported w (node n name) =
      (w.offset ≤ n.offset)
      × (n.offset + 4 ≤ b.header.totalsize)
      × (0 < n.depth)
      × (n.depth < max_depth)
      × IsInside b name
  IsReported w (property name value) = IsInside b name × IsInside b value

  unfoldable pub TurnReturns : Walker → Result Turn → Type 0
  TurnReturns w panic = ⊥
  TurnReturns w (ok (again w')) =
      IsOpen w' × (w.offset + 4 ≤ w'.offset) × (w'.stop ≡ w.stop) × (w.offset < w.stop)
  TurnReturns w (ok (answer none w')) = IsOpen w'
  TurnReturns w (ok (answer (some s) w')) =
      IsOpen w'
      × (w.offset + 4 ≤ w'.offset)
      × (w'.stop ≡ w.stop)
      × (w.offset < w.stop)
      × IsReported w s

  module _ (w : Walker) (o : IsOpen w) (inside : w.offset + 4 ≤ b.header.totalsize)
      (below : w.offset < w.stop) where
    open_node-Returns : TurnReturns w (open_node bytes is_utf8 b w)
    unfolding open_node TurnReturns IsReported
    open_node-Returns =
        let name_at = add_u32-ok w.offset 4 (omega (arith, sound.small)) in
        elim (Option-cases (str_at bytes b is_utf8 (w.offset + 4) w.stop)) [
          | inl e ↦ rw (name_at, e, open_node, TurnReturns, ◌>>=◌) o
          | inr (name, e) ↦
              let s =
                subst
                  (Gives (λ s.
                    (s.start ≡ b.va + (w.offset + 4))
                    × (w.offset + 4 + s.size < w.stop)
                    × (w.offset + 4 + s.size < b.header.totalsize)
                    × (bytes (s.start + s.size) ≡ 0)))
                  e (str_at-Gives bytes b is_utf8 (w.offset + 4) w.stop) in
              let last = add_u32-ok (w.offset + 4) name.size (omega (arith, sound.small, s)) in
              let after = add_u32-ok (w.offset + 4 + name.size) 1 (omega (arith, sound.small, s)) in
              elim (Bool-cases (leb max_depth (w.depth + 1))) [
                | inl deep ↦ rw (name_at, e, deep, open_node, TurnReturns, ◌>>=◌) o
                | inr fits ↦
                    rw (name_at, e, fits, last, after, open_node, TurnReturns, ◌>>=◌)
                      (
                        record { shallow = ground arith; bounded = o.bounded },
                        omega (arith, sound.small, s),
                        refl,
                        below,
                        (
                          omega arith,
                          inside,
                          omega arith,
                          ground arith,
                          record { after_start = omega (arith, s); before_end = omega (arith, s) },
                        ),
                      )
              ]
        ]

    close_node-Returns : TurnReturns w (close_node bytes is_utf8 b w)
    unfolding close_node TurnReturns
    close_node-Returns =
        let after = add_u32-ok w.offset 4 (omega (arith, sound.small)) in
        elim (Bool-cases (w.depth == 0)) [
          | inl e ↦ rw e o
          | inr e ↦
              rw (e, after)
                (
                  record { shallow = omega (arith, o.shallow); bounded = o.bounded },
                  omega arith,
                  refl,
                  below,
                )
        ]

    note_cells-Returned : (f : Found) → Returned (note_cells bytes is_utf8 b f w)
    unfolding note_cells
    note_cells-Returned f =
        let room : ltb w.depth max_depth ≡ true = ground (arith, o.shallow) in
        elim (Bool-cases (w.depth == 0)) [
          | inl outside ↦ rw (outside, note_cells) tt
          | inr opened ↦ elim (Option-cases (read_cells bytes f.value)) [
            | inl e ↦ rw (opened, e, note_cells, ◌>>◌) tt
            | inr (count, e) ↦
                let name = contents bytes f.name.start f.name.size in
                elim (Bool-cases (same_bytes name address_cells_name)) [
                  | inl address ↦ rw (opened, e, address, room, note_cells, ◌>>◌) tt
                  | inr other ↦ elim (Bool-cases (same_bytes name size_cells_name)) [
                    | inl size ↦ rw (opened, e, other, size, room, note_cells, ◌>>◌) tt
                    | inr neither ↦ rw (opened, e, other, neither, note_cells, ◌>>◌) tt
                  ]
                ]
          ]
        ]

    pass_property-Returns : TurnReturns w (pass_property bytes is_utf8 b w)
    unfolding pass_property TurnReturns IsReported PropertyReturns
    pass_property-Returns =
        go (read_property bytes is_utf8 b w.offset) refl (read_property-Returns w.offset inside)
      where
        go :
            (r : Result (Option Found))
            → read_property bytes is_utf8 b w.offset ≡ r
            → PropertyReturns b w.offset r
            → TurnReturns w (pass_property bytes is_utf8 b w)
        go panic e never = absurd never
        go (ok none) e h = rw (e, pass_property) o
        go (ok (some f)) e h = elim (Result-cases (note_cells bytes is_utf8 b f w)) [
          | inl never ↦ absurd (subst Returned never (note_cells-Returned f))
          | inr (cells, ran) ↦
              rw (e, ran, pass_property)
                (
                  record { shallow = o.shallow; bounded = o.bounded },
                  omega (arith, h.moves),
                  refl,
                  below,
                  (h.name_inside, h.value_inside),
                )
        ]

  pub turn-Returns : (w : Walker) → IsOpen w → TurnReturns w (turn bytes is_utf8 b w)
  unfolding turn TurnReturns
  turn-Returns w o = elim (Bool-cases (leb w.stop w.offset)) [
    | inl past ↦ rw (past, turn) o
    | inr before ↦ elim (Option-cases (u32_at bytes b w.offset)) [
      | inl e ↦ rw (before, e, turn) o
      | inr (token, e) ↦
          let below : w.offset < w.stop = ground arith in
          let inside =
            subst (Gives (λ v. w.offset + 4 ≤ b.header.totalsize)) e
              (u32_at-Gives bytes b w.offset) in
          elim (Bool-cases (token == fdt_nop)) [
            | inl nop ↦
                rw
                  (
                    before,
                    e,
                    nop,
                    add_u32-ok w.offset 4 (omega (arith, sound.small)),
                    turn,
                    TurnReturns,
                    ◌>>=◌,
                  )
                  (record { shallow = o.shallow; bounded = o.bounded }, omega arith, refl, below)
            | inr t1 ↦ elim (Bool-cases (token == fdt_end)) [
              | inl last ↦ rw (before, e, t1, last, turn) o
              | inr t2 ↦ elim (Bool-cases (token == fdt_begin_node)) [
                | inl opens ↦
                    rw (before, e, t1, t2, opens, turn) (open_node-Returns w o inside below)
                | inr t3 ↦ elim (Bool-cases (token == fdt_end_node)) [
                  | inl closes ↦
                      rw (before, e, t1, t2, t3, closes, turn) (close_node-Returns w o inside below)
                  | inr t4 ↦ elim (Bool-cases (token == fdt_prop)) [
                    | inl prop ↦
                        rw (before, e, t1, t2, t3, t4, prop, turn)
                          (pass_property-Returns w o inside below)
                    | inr t5 ↦ rw (before, e, t1, t2, t3, t4, t5, turn) o
                  ]
                ]
              ]
            ]
          ]
    ]
  ]
