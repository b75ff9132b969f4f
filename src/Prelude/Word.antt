-- ===== src/Prelude/Word.antt =====
-- The unsigned arithmetic of the target: `size_t`, pointers and `unsigned long` are 32 bits wide.
use Prim.Native.Nat.{ℕ, ◌+◌, ◌-◌, ◌*◌, ◌%◌, ◌^◌}

abbrev pub modulus : ℕ
modulus = 2 ^ 32

abbrev pub add_word : ℕ → ℕ → ℕ
add_word a b = (a + b) % modulus

-- `-` on ℕ stops at 0, so the modulus is added first.
abbrev pub sub_word : ℕ → ℕ → ℕ
sub_word a b = (a + modulus - b) % modulus

abbrev pub mul_word : ℕ → ℕ → ℕ
mul_word a b = (a * b) % modulus
