-- ===== src/Paging/Words.antt =====
-- A u64 in physical memory.
use the_rack.Base.{ℕ}
use the_rack.Base.Words.{read_word, write_word}

unfoldable pub read_u64 : (ℕ → ℕ) → ℕ → ℕ
unfolding read_word
read_u64 bytes a = read_word 8 bytes a

unfoldable pub write_u64 : (ℕ → ℕ) → ℕ → ℕ → ℕ → ℕ
unfolding write_word
write_u64 bytes a value = write_word 8 bytes a value
