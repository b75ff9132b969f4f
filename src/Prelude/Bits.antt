-- ===== src/Prelude/Bits.antt =====
-- src/include/helper.hpp: the bit operations on flag words, and the clips; and the laws of the native
-- bit operations, digit by digit.
use Prim.Native.Nat.{
  ℕ, zero, suc, ◌+◌, ◌-◌, ◌*◌, ◌/◌, ◌%◌, ◌^◌, ◌≤◌, ◌<◌, min, max, bit_and, bit_or, digits,
  bit_and-bitwise, bit_or-bitwise,
}
use mathlib.Core.Path.{ap₂, ◌≡◌, refl, sym, ap, ◌∙◌}
use native.Mathlib.Omega.{arith}
use mathlib.Core.Bool.{Bool, not}
use quark_ts_cpp.Prelude.Tests.{◌==◌, ltb, if◌then◌else◌}

-- `~` on 32 bits.
abbrev pub complement : ℕ → ℕ
complement x = 0xFFFFFFFF - x

unfoldable pub multiple_set : ℕ → ℕ → ℕ
multiple_set dst bits = bit_or dst bits

unfoldable pub multiple_clear : ℕ → ℕ → ℕ
multiple_clear dst bits = bit_and dst (complement bits)

unfoldable pub multiple_get : ℕ → ℕ → Bool
multiple_get dst bits = not (bit_and dst bits == 0)

unfoldable pub clip_upper : ℕ → ℕ → ℕ
clip_upper x top = if ltb top x then top else x

-- Both operations are `digits` with an operation `f` on two digits, and `z` where the first number has
-- run out of them. More rounds than it has digits change nothing.
module _ (z : ℕ → ℕ) (f : ℕ → ℕ → ℕ) where
  run_out : (rounds y : ℕ) → digits z f rounds 0 y ≡ z y
  run_out zero y = refl
  run_out (suc rounds) y = refl

  same_digits :
      (x y more less : ℕ) → x ≤ more → x ≤ less → digits z f more x y ≡ digits z f less x y
  same_digits zero y more less h l = run_out more y ∙ sym (run_out less y)
  same_digits (suc x) y (suc more) (suc less) h l =
      ap (λ d. d * 2 + f (suc x % 2) (y % 2))
        (same_digits (suc x / 2) (y / 2) more less (omega arith) (omega arith))
  same_digits (suc x) y zero less h l = absurd (omega arith)
  same_digits (suc x) y more zero h l = absurd (omega arith)

  -- The lowest digit and the rest.
  low_digit :
      (x y : ℕ)
      → digits z f (suc x) (suc x) y
        ≡ digits z f (suc x / 2) (suc x / 2) (y / 2) * 2 + f (suc x % 2) (y % 2)
  low_digit x y =
      ap (λ d. d * 2 + f (suc x % 2) (y % 2))
        (same_digits (suc x / 2) (y / 2) x (suc x / 2) (omega arith) (omega arith))

and_split : (x y : ℕ) → bit_and x y ≡ bit_and (x / 2) (y / 2) * 2 + min (x % 2) (y % 2)
and_split zero y = omega (arith, bit_and-bitwise 0 y, bit_and-bitwise 0 (y / 2))
and_split (suc x) y =
    bit_and-bitwise (suc x) y
    ∙ low_digit (λ b. zero) min x y
    ∙ ap (λ d. d * 2 + min (suc x % 2) (y % 2)) (sym (bit_and-bitwise (suc x / 2) (y / 2)))

or_split : (x y : ℕ) → bit_or x y ≡ bit_or (x / 2) (y / 2) * 2 + max (x % 2) (y % 2)
or_split zero y = omega (arith, bit_or-bitwise 0 y, bit_or-bitwise 0 (y / 2))
or_split (suc x) y =
    bit_or-bitwise (suc x) y
    ∙ low_digit (λ b. b) max x y
    ∙ ap (λ d. d * 2 + max (suc x % 2) (y % 2)) (sym (bit_or-bitwise (suc x / 2) (y / 2)))

-- The digit of `a` at a place.
abbrev pub digit : ℕ → ℕ → ℕ
digit a zero = a % 2
digit a (suc i) = digit (a / 2) i

pub digit-bit_and : (a b i : ℕ) → digit (bit_and a b) i ≡ min (digit a i) (digit b i)
digit-bit_and a b zero = omega (arith, and_split a b)
digit-bit_and a b (suc i) = rw (halved) (digit-bit_and (a / 2) (b / 2) i)
  where
    halved : bit_and a b / 2 ≡ bit_and (a / 2) (b / 2)
    halved = omega (arith, and_split a b)

pub digit-bit_or : (a b i : ℕ) → digit (bit_or a b) i ≡ max (digit a i) (digit b i)
digit-bit_or a b zero = omega (arith, or_split a b)
digit-bit_or a b (suc i) = rw (halved) (digit-bit_or (a / 2) (b / 2) i)
  where
    halved : bit_or a b / 2 ≡ bit_or (a / 2) (b / 2)
    halved = omega (arith, or_split a b)

and_nothing : (bound x : ℕ) → x ≤ bound → bit_and x 0 ≡ 0
and_nothing bound zero l = refl
and_nothing zero (suc x) l = absurd (omega arith)
and_nothing (suc bound) (suc x) l =
    and_split (suc x) 0 ∙ omega (arith, and_nothing bound (suc x / 2) (omega arith))

doubled : (i : ℕ) → 2 ^ suc i ≡ 2 ^ i * 2
doubled i = omega arith

half : (i : ℕ) → 2 ^ suc i / 2 ≡ 2 ^ i
half i = omega (arith, doubled i)

even : (i : ℕ) → 2 ^ suc i % 2 ≡ 0
even i = omega (arith, doubled i)

-- A mask of one digit reads that digit.
pub bit_and_power : (a i : ℕ) → bit_and a (2 ^ i) ≡ digit a i * 2 ^ i
bit_and_power a zero = omega (arith, and_split a 1, and_nothing (a / 2) (a / 2) (omega arith))
bit_and_power a (suc i) =
    halved
    ∙ ap (λ t. t * 2) (bit_and_power (a / 2) i)
    ∙ scaled (digit (a / 2) i) (2 ^ i)
    ∙ ap (λ t. digit (a / 2) i * t) (sym (doubled i))
  where
    scaled : (d p : ℕ) → d * p * 2 ≡ d * (p * 2)
    scaled d p = omega arith

    halved : bit_and a (2 ^ suc i) ≡ bit_and (a / 2) (2 ^ i) * 2
    halved = rw (and_split a (2 ^ suc i), half i) (omega (arith, even i))

power_real : (i : ℕ) → 1 ≤ 2 ^ i
power_real zero = omega arith
power_real (suc i) = omega (arith, power_real i)

digit_small : (a i : ℕ) → digit a i ≤ 1
digit_small a zero = omega arith
digit_small a (suc i) = digit_small (a / 2) i

zero_test : (d p : ℕ) → 1 ≤ p → not (d * p == 0) ≡ not (d == 0)
zero_test zero p h = ap (λ n. not (n == 0)) {x = 0 * p} {y = 0} (omega arith)
zero_test (suc d) p h = ground (arith, p_le d p)
  where
    p_le : (d p : ℕ) → p ≤ suc d * p
    p_le d p = omega arith

pub multiple_get_power : (a i : ℕ) → multiple_get a (2 ^ i) ≡ not (digit a i == 0)
unfolding multiple_get
multiple_get_power a i = rw (bit_and_power a i) (zero_test (digit a i) (2 ^ i) (power_real i))

-- What setting or clearing the digits of a mask does to each digit.
pub digit-multiple_set :
    (a m i : ℕ) → digit (multiple_set a m) i ≡ (if digit m i == 0 then digit a i else 1)
unfolding multiple_set
digit-multiple_set a m i = ground (arith, digit-bit_or a m i, digit_small a i, digit_small m i)

mirror_half : (p m : ℕ) → m < 2 * p → (2 * p - 1 - m) / 2 ≡ p - 1 - m / 2
mirror_half p m h = omega arith

mirror_even : (p m : ℕ) → m < 2 * p → (2 * p - 1 - m) % 2 ≡ 1 - m % 2
mirror_even p m h = omega arith

twice : (k : ℕ) → 2 ^ suc k ≡ 2 * 2 ^ k
twice k = omega (arith, doubled k)

digit-mirror : (k m i : ℕ) → m < 2 ^ k → i < k → digit (2 ^ k - 1 - m) i ≡ 1 - digit m i
digit-mirror zero m i h l = absurd (omega arith)
digit-mirror (suc k) m zero h l = rw (twice k) (mirror_even (2 ^ k) m (omega (arith, twice k, h)))
digit-mirror (suc k) m (suc i) h l = rw (twice k) (
    ap (λ n. digit n i) (mirror_half (2 ^ k) m (omega (arith, twice k, h)))
    ∙ digit-mirror k (m / 2) i (omega (arith, twice k, h)) (omega arith))

pub digit-multiple_clear :
    (a m i : ℕ)
    → m < 2 ^ 32
    → i < 32
    → digit (multiple_clear a m) i ≡ (if digit m i == 0 then digit a i else 0)
unfolding multiple_clear
digit-multiple_clear a m i h l = ground (
  arith,
  digit-bit_and a (complement m) i,
  digit-mirror 32 m i h l,
  digit_small a i,
  digit_small m i,
)

-- A number below a power of two, with that digit set above it.
pub digit_top : (i n : ℕ) → n < 2 ^ i → digit (n + 2 ^ i) i ≡ 1
digit_top zero n l = omega (arith, l)
digit_top (suc i) n l =
    ap (λ t. digit t i) (omega (arith, doubled i))
    ∙ digit_top i (n / 2) (omega (arith, l, doubled i))

pub clear_top : (i n : ℕ) → n < 2 ^ i → bit_and (n + 2 ^ i) (2 ^ i - 1) ≡ n
clear_top zero n l =
    let none_left : n ≡ 0 = omega (arith, l) in
    ap (λ t. bit_and (t + 1) 0) none_left ∙ sym none_left
clear_top (suc i) n l =
    let rest : (n + 2 ^ suc i) / 2 ≡ n / 2 + 2 ^ i = omega (arith, doubled i) in
    let mask : (2 ^ suc i - 1) / 2 ≡ 2 ^ i - 1 = omega (arith, doubled i, power_real i) in
    and_split (n + 2 ^ suc i) (2 ^ suc i - 1)
    ∙ ap₂ (λ a b. bit_and a b * 2 + min ((n + 2 ^ suc i) % 2) ((2 ^ suc i - 1) % 2)) rest mask
    ∙ omega (arith, doubled i, power_real i, clear_top i (n / 2) (omega (arith, l, doubled i)))

pub set_top : (i n : ℕ) → n < 2 ^ i → bit_or n (2 ^ i) ≡ n + 2 ^ i
set_top zero n l =
    let none_left : n ≡ 0 = omega (arith, l) in
    ap (λ t. bit_or t 1) none_left ∙ omega (arith, none_left)
set_top (suc i) n l =
    or_split n (2 ^ suc i)
    ∙ ap (λ b. bit_or (n / 2) b * 2 + max (n % 2) (2 ^ suc i % 2)) (half i)
    ∙ omega (arith, doubled i, set_top i (n / 2) (omega (arith, l, doubled i)))

-- No digit of a small number is set, and the mask of three digits is a remainder.
pub digit_none : (i n : ℕ) → n < 2 ^ i → digit n i ≡ 0
digit_none zero n l = omega (arith, l)
digit_none (suc i) n l = digit_none i (n / 2) (omega (arith, l, doubled i))

pub bit_and_seven : (n : ℕ) → bit_and n 7 ≡ n % 8
bit_and_seven n = omega (
  arith,
  and_split n 7,
  and_split (n / 2) 3,
  and_split (n / 2 / 2) 1,
  and_nothing (n / 2 / 2 / 2) (n / 2 / 2 / 2) (omega arith),
)
