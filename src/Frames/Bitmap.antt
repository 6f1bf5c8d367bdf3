-- ===== src/Frames/Bitmap.antt =====
-- `Bitmap` of kernel/src/frames.rs: one bit per frame, set when the frame is taken.
-- The array of u64 is a list; indexing past its end panics. A loop over a range of indices recurs
-- on the number of indices left, with the body as an argument.
pub mod Bit
pub mod Range
pub mod Search
mod Tests
use the_rack.Base.{
  ℕ, zero, suc, ◌+◌, ◌-◌, ◌*◌, ◌/◌, ◌%◌, ◌^◌, Bool, true, false, not, ◌&&◌, Option, none, some,
  List, [], ◌∷◌, Result, ok, panic, expect, assert, ◌>>=◌, ◌>>◌, if◌then◌else◌, ◌==◌, leb, length,
  get_elem?, replicate, bit_and, bit_or, u64_mod,
}
use the_rack.Base.{set as list_set}
use the_rack.Base.Bits.{not_bits}

abbrev pub frame_size : ℕ
frame_size = 4096

abbrev pub max_ram : ℕ
max_ram = 4 * 1024 * 1024 * 1024

abbrev pub max_frames : ℕ
max_frames = max_ram / frame_size

abbrev pub bitmap_words : ℕ
bitmap_words = max_frames / 64

-- `u64::MAX`
abbrev pub u64_max : ℕ
u64_max = u64_mod - 1

pub record Bitmap : Type 0 where
  pub bits : List ℕ
  pub free : ℕ
  pub reserved : ℕ

pub new : Bitmap
new = record { bits = replicate bitmap_words 0; free = 0; reserved = 0 }

pub is_set : Bitmap → ℕ → Result Bool
is_set b index = do
  word ← expect (get_elem? b.bits (index / 64))
  ok (not (bit_and word (2 ^ (index % 64)) == 0))

pub set : Bitmap → ℕ → Result Bitmap
set b index = do
  word ← expect (get_elem? b.bits (index / 64))
  ok (record b { bits = list_set b.bits (index / 64) (bit_or word (2 ^ (index % 64))) })

pub clear : Bitmap → ℕ → Result Bitmap
clear b index = do
  word ← expect (get_elem? b.bits (index / 64))
  ok (record b {
    bits = list_set b.bits (index / 64) (bit_and word (not_bits 64 (2 ^ (index % 64))));
  })

-- `for index in index..index + n { body(index) }`
pub each : (Bitmap → ℕ → Result Bitmap) → ℕ → ℕ → Bitmap → Result Bitmap
each body zero index b = ok b
each body (suc n) index b = body b index >>= each body n (index + 1)

-- The same loop, ended early by `take_while(|index| !index.is_multiple_of(64))`.
pub each_to_word : (Bitmap → ℕ → Result Bitmap) → ℕ → ℕ → Bitmap → Result Bitmap
each_to_word body zero index b = ok b
each_to_word body (suc n) index b =
    let rest = (body b index >>= each_to_word body n (index + 1)) in
    if index % 64 == 0 then ok b else rest

-- `n` words from `start` on become `word`.
pub fill : List ℕ → ℕ → ℕ → ℕ → List ℕ
fill [] start n word = []
fill (x ∷ xs) zero zero word = x ∷ xs
fill (x ∷ xs) zero (suc n) word = word ∷ fill xs zero n word
fill (x ∷ xs) (suc start) n word = x ∷ fill xs start n word

-- `self.bits[start..stop].fill(word)`
pub fill_words : Bitmap → ℕ → ℕ → ℕ → Result Bitmap
unfolding fill
fill_words b start stop word = do
  assert (leb start stop && leb stop (length b.bits))
  ok (record b { bits = fill b.bits start (stop - start) word })

-- `x.next_multiple_of(64)`
abbrev pub next_multiple_of_64 : ℕ → ℕ
next_multiple_of_64 x = (x + 63) / 64 * 64

pub set_range : ℕ → ℕ → Bitmap → Result Bitmap
set_range start stop b = do
  b ← each_to_word set (stop - start) start b
  let first_whole_word = next_multiple_of_64 start
  if leb stop first_whole_word then ok b else do
    b ← fill_words b (first_whole_word / 64) (stop / 64) u64_max
    each set (stop - stop / 64 * 64) (stop / 64 * 64) b

pub clear_range : ℕ → ℕ → Bitmap → Result Bitmap
clear_range start stop b = do
  b ← each_to_word clear (stop - start) start b
  let first_whole_word = next_multiple_of_64 start
  if leb stop first_whole_word then ok b else do
    b ← fill_words b (first_whole_word / 64) (stop / 64) 0
    each clear (stop - stop / 64 * 64) (stop / 64 * 64) b

-- `word.trailing_ones()` on the `n` low bits.
pub trailing_ones : ℕ → ℕ → ℕ
trailing_ones zero word = 0
trailing_ones (suc n) word =
    let rest = trailing_ones n (word / 2) in if word % 2 == 1 then suc rest else 0

-- The words from `word_index` on.
pub first_clear_from : ℕ → List ℕ → Option ℕ
first_clear_from word_index [] = none
first_clear_from word_index (word ∷ rest) =
    let later = first_clear_from (word_index + 1) rest in
    if word == u64_max then later else some (word_index * 64 + trailing_ones 64 word)

pub first_clear : Bitmap → Option ℕ
unfolding first_clear_from
first_clear b = first_clear_from 0 b.bits
