-- ===== src/Frames/Bitmap/Tests.antt =====
-- The bitmap's functions on short arrays.
use the_rack.Base.{◌≡◌, refl, some, [], ◌∷◌, ok}
use the_rack.Frames.Bitmap.{
  u64_max, set, each, each_to_word, fill_words, trailing_ones, set_range, first_clear,
}

-- Short arrays, followed by hand: 60..200 spans part of two words and two whole ones.
short_range :
    set_range 60 200 (record { bits = 0 ∷ 0 ∷ 0 ∷ 0 ∷ []; free = 0; reserved = 0 })
    ≡ ok (record {
      bits = 0xf000_0000_0000_0000 ∷ u64_max ∷ u64_max ∷ 0xff ∷ [];
      free = 0;
      reserved = 0;
    })
unfolding set_range set each each_to_word fill_words
short_range = refl

lowest_gap : first_clear (record { bits = u64_max ∷ 7 ∷ []; free = 0; reserved = 0 }) ≡ some 67
unfolding first_clear trailing_ones
lowest_gap = refl
