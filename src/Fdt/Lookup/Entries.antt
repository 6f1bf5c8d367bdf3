-- ===== src/Fdt/Lookup/Entries.antt =====
-- `string_list_contains` and the test of `find_compatible_after` in kernel/src/fdt.rs, against the
-- entries that a list of strings is split into.
use the_rack.Base.{
  ℕ, ◌<◌, ◌≡◌, refl, sym, ◌∙◌, ap, subst, ◌⊎◌, inl, inr, Bool, true, false, ◌||◌, Option, none,
  some, List, [], ◌∷◌, arith, Bool-cases, ◌==◌, leb, if◌then◌else◌, Result, ok, panic, ◌>>=◌,
}
use the_rack.Fdt.{Blob, Slice, contents}
use the_rack.Fdt.Walk.{Node, same_bytes}
use the_rack.Fdt.Lookup.{
  reverse_onto, contains_from, string_list_contains, property_of, is_wanted, compatible_name,
}

-- A byte before the first entry's.
abbrev pub onto_first : ℕ → List (List ℕ) → List (List ℕ)
onto_first x [] = []
onto_first x (entry ∷ entries) = (x ∷ entry) ∷ entries

-- The entries between the zero bytes of a list.
pub entries_of : List ℕ → List (List ℕ)
entries_of [] = [] ∷ []
entries_of (x ∷ xs) = if x == 0 then [] ∷ entries_of xs else onto_first x (entries_of xs)

pub Holds : List (List ℕ) → List ℕ → Type 0
Holds [] wanted = ⊥
Holds (entry ∷ entries) wanted = (entry ≡ wanted) ⊎ Holds entries wanted

is_held : List (List ℕ) → List ℕ → Bool
is_held [] wanted = false
is_held (entry ∷ entries) wanted = same_bytes entry wanted || is_held entries wanted

-- What was read of the first entry, backwards, put before it.
abbrev attach : List ℕ → List (List ℕ) → List (List ℕ)
attach read [] = []
attach read (entry ∷ entries) = reverse_onto read entry ∷ entries

attach-onto_first :
    (x : ℕ) (read : List ℕ) (entries : List (List ℕ))
    → attach read (onto_first x entries) ≡ attach (x ∷ read) entries
unfolding reverse_onto
attach-onto_first x read [] = refl
attach-onto_first x read (entry ∷ entries) = refl

attach_nil : (entries : List (List ℕ)) → attach [] entries ≡ entries
unfolding reverse_onto
attach_nil [] = refl
attach_nil (entry ∷ entries) = refl

or_false : (b : Bool) → (b || false) ≡ b
or_false true = refl
or_false false = refl

contains_from-is_held :
    (read list wanted : List ℕ)
    → contains_from read list wanted ≡ is_held (attach read (entries_of list)) wanted
unfolding contains_from entries_of is_held
contains_from-is_held read [] wanted = sym (or_false (same_bytes (reverse_onto read []) wanted))
contains_from-is_held read (x ∷ xs) wanted =
    let later =
      contains_from-is_held [] xs wanted
      ∙ ap (λ e. is_held e wanted) (attach_nil (entries_of xs)) in
    let longer =
      contains_from-is_held (x ∷ read) xs wanted
      ∙ ap (λ e. is_held e wanted) (sym (attach-onto_first x read (entries_of xs))) in
    elim (Bool-cases (x == 0)) [
      | inl ends ↦ rw ends (ap (λ b. same_bytes (reverse_onto read []) wanted || b) later)
      | inr goes_on ↦ rw goes_on longer
    ]

same_bytes-eq : (xs ys : List ℕ) → same_bytes xs ys ≡ true → xs ≡ ys
unfolding same_bytes
same_bytes-eq [] [] e = refl
same_bytes-eq [] (y ∷ ys) e = absurd cc
same_bytes-eq (x ∷ xs) [] e = absurd cc
same_bytes-eq (x ∷ xs) (y ∷ ys) e =
    let heads : x ≡ y = ground arith in let tails = same_bytes-eq xs ys (ground arith) in cc

same_bytes_refl : (xs : List ℕ) → same_bytes xs xs ≡ true
unfolding same_bytes
same_bytes_refl [] = refl
same_bytes_refl (x ∷ xs) = ground (arith, same_bytes_refl xs)

is_held-Holds :
    (entries : List (List ℕ)) (wanted : List ℕ)
    → is_held entries wanted ≡ true
    → Holds entries wanted
unfolding is_held Holds
is_held-Holds [] wanted h = absurd cc
is_held-Holds (entry ∷ entries) wanted h = elim (Bool-cases (same_bytes entry wanted)) [
  | inl same ↦ inl (same_bytes-eq entry wanted same)
  | inr other ↦ inr (is_held-Holds entries wanted (ground arith))
]

not_held :
    (entries : List (List ℕ)) (wanted : List ℕ)
    → is_held entries wanted ≡ false
    → Holds entries wanted
    → ⊥
unfolding is_held Holds
not_held [] wanted e h = h
not_held (entry ∷ entries) wanted e (inl same) =
    let own : same_bytes entry wanted ≡ true = rw same (same_bytes_refl wanted) in ground arith
not_held (entry ∷ entries) wanted e (inr later) = not_held entries wanted (ground arith) later

-- A list of strings contains a string exactly if that is one of the entries between its zero bytes.
string_list_contains-entries :
    (list wanted : List ℕ) → string_list_contains list wanted ≡ is_held (entries_of list) wanted
unfolding string_list_contains
string_list_contains-entries list wanted =
    contains_from-is_held [] list wanted ∙ ap (λ e. is_held e wanted) (attach_nil (entries_of list))

same_slice : {x y : Slice} → ◌≡◌ {A = Result (Option Slice)} (ok (some x)) (ok (some y)) → x ≡ y
same_slice e = cc

no_list : {x : Slice} → ◌≡◌ {A = Result (Option Slice)} (ok (some x)) (ok none) → ⊥
no_list e = absurd cc

module _ (bytes : ℕ → ℕ) (is_utf8 : List ℕ → Bool) (b : Blob) (wanted : List ℕ) (after : ℕ) where
  -- A node after the offset whose "compatible" list has the string among its entries.
  pub record IsMatch (n : Node) : Type 0 where
    pub later : after < n.offset
    pub list : Slice
    pub has_list : property_of bytes is_utf8 b n compatible_name ≡ ok (some list)
    pub held : Holds (entries_of (contents bytes list.start list.size)) wanted

  -- What the test of a node says of it.
  abbrev pub Tells : Node → Result Bool → Type 0
  Tells n panic = Unit
  Tells n (ok true) = IsMatch n
  Tells n (ok false) = IsMatch n → ⊥

  other_list :
      (n : Node) (s : Slice)
      → property_of bytes is_utf8 b n compatible_name ≡ ok (some s)
      → is_held (entries_of (contents bytes s.start s.size)) wanted ≡ false
      → IsMatch n
      → ⊥
  other_list n s ran e m =
      let same : m.list ≡ s = same_slice (sym m.has_list ∙ ran) in
      not_held (entries_of (contents bytes s.start s.size)) wanted e
        (subst (λ s. Holds (entries_of (contents bytes s.start s.size)) wanted) same m.held)

  -- The test of a node, if it does not panic, says whether it starts after the offset and has the string
  -- among the entries of its list.
  pub is_wanted-Tells : (n : Node) → Tells n (is_wanted bytes is_utf8 b n wanted after)
  unfolding is_wanted
  is_wanted-Tells n = elim (Bool-cases (leb n.offset after)) [
    | inl early ↦ rw (early, is_wanted) (λ m. ground (arith, m.later))
    | inr late ↦ go late (property_of bytes is_utf8 b n compatible_name) refl
  ]
    where
      go :
          leb n.offset after ≡ false
          → (r : Result (Option Slice)) → property_of bytes is_utf8 b n compatible_name ≡ r
          → Tells n (is_wanted bytes is_utf8 b n wanted after)
      go late panic ran = rw (late, ran, is_wanted, ◌>>=◌) tt
      go late (ok none) ran = rw (late, ran, is_wanted, ◌>>=◌) (λ m. no_list (sym m.has_list ∙ ran))
      go late (ok (some s)) ran =
          let split = string_list_contains-entries (contents bytes s.start s.size) wanted in
          elim (Bool-cases (is_held (entries_of (contents bytes s.start s.size)) wanted)) [
            | inl held ↦
                rw (late, ran, is_wanted, ◌>>=◌, split, held)
                  (record {
                    later = ground arith;
                    list = s;
                    has_list = ran;
                    held = is_held-Holds (entries_of (contents bytes s.start s.size)) wanted held;
                  })
            | inr missing ↦
                rw (late, ran, is_wanted, ◌>>=◌, split, missing) (other_list n s ran missing)
          ]
