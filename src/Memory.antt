-- ===== src/Memory.antt =====
-- The address space as bytes by address, and `memcpy`.
use quark_ts_cpp.Prelude.{
  ℕ, zero, suc, ◌+◌, ◌≤◌, ◌<◌, ◌≡◌, refl, ap, ap₂, ◌⊎◌, List, [], ◌∷◌, arith, ◌==◌, if◌then◌else◌,
  length,
}

abbrev pub Memory : Type 0
Memory = ℕ → ℕ

unfoldable pub poke : Memory → ℕ → ℕ → Memory
poke m a b x = if x == a then b else m x

-- `memcpy` out of memory: the `n` bytes from `a` on.
unfoldable pub read_bytes : Memory → ℕ → ℕ → List ℕ
read_bytes m a zero = []
read_bytes m a (suc n) = m a ∷ read_bytes m (a + 1) n

-- `memcpy` into memory.
unfoldable pub write_bytes : Memory → ℕ → List ℕ → Memory
unfolding poke
write_bytes m a [] = m
write_bytes m a (b ∷ bs) = write_bytes (poke m a b) (a + 1) bs

pub length-read_bytes : (m : Memory) (a n : ℕ) → length (read_bytes m a n) ≡ n
unfolding read_bytes
length-read_bytes m a zero = refl
length-read_bytes m a (suc n) = ap suc (length-read_bytes m (a + 1) n)

write_bytes_outside :
    (m : Memory) (a : ℕ) (bs : List ℕ) (x : ℕ)
    → (x < a) ⊎ (a + length bs ≤ x)
    → write_bytes m a bs x ≡ m x
unfolding write_bytes
write_bytes_outside m a [] x h = refl
write_bytes_outside m a (b ∷ bs) x h = ground (arith, write_bytes_outside (poke m a b) (a + 1) bs x)

pub read_bytes-write_bytes_self :
    (m : Memory) (a : ℕ) (bs : List ℕ) → read_bytes (write_bytes m a bs) a (length bs) ≡ bs
unfolding read_bytes write_bytes
read_bytes-write_bytes_self m a [] = refl
read_bytes-write_bytes_self m a (b ∷ bs) =
    ap₂ ◌∷◌ (ground (arith, write_bytes_outside (poke m a b) (a + 1) bs a))
      (read_bytes-write_bytes_self (poke m a b) (a + 1) bs)

-- Two blocks do not overlap.
abbrev pub Apart : ℕ → ℕ → ℕ → ℕ → Type 0
Apart a n b k = (a + n ≤ b) ⊎ (b + k ≤ a)

pub read_bytes-write_bytes-Apart :
    (m : Memory) (a n b : ℕ) (bs : List ℕ)
    → Apart a n b (length bs)
    → read_bytes (write_bytes m b bs) a n ≡ read_bytes m a n
unfolding read_bytes
read_bytes-write_bytes-Apart m a zero b bs h = refl
read_bytes-write_bytes-Apart m a (suc n) b bs h =
    ap₂ ◌∷◌ (write_bytes_outside m b bs a (omega arith))
      (read_bytes-write_bytes-Apart m (a + 1) n b bs (omega arith))
