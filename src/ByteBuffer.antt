-- ===== src/ByteBuffer.antt =====
-- src/bytebuffer.cpp: the ring buffer of bytes. `head` and `tail` count the bytes put in and taken
-- out, modulo 2^32; `buffer` is the address of the area, 0 for null.
pub mod Setup
use quark_ts_cpp.Prelude.{
  ℕ, zero, suc, ◌+◌, ◌*◌, ◌/◌, ◌%◌, ◌^◌, Bool, true, false, not, ◌&&◌, Option, none, some, List, [],
  ◌∷◌, ◌==◌, ltb, if◌then◌else◌, bit_and, bit_or,
}
use quark_ts_cpp.Prelude.Word.{add_word, sub_word}
use quark_ts_cpp.Memory.{Memory, poke}

pub record ByteBuffer : Type 0 where
  pub memory : Memory
  pub buffer : ℕ
  pub tail : ℕ
  pub head : ℕ
  pub length : ℕ

-- The members' initialisers.
unfoldable pub blank : Memory → ByteBuffer
blank m = record { memory = m; buffer = 0; tail = 0; head = 0; length = 0 }

-- The loop of `checkValidPowerOfTwo`: `i` doubles from 1 while it is below the 32 bits of an
-- `index_t`, so five rounds are made.
smear : ℕ → ℕ → ℕ → ℕ
smear k i zero = k
smear k i (suc rounds) =
    let rest = smear (bit_or k (k / 2 ^ i)) (i * 2) rounds in if ltb i 32 then rest else k

unfoldable pub check_valid_power_of_two : ℕ → ℕ
unfolding smear
check_valid_power_of_two r =
    let k =
      if bit_and (sub_word r 1) r == 0 then r else (add_word (smear (sub_word r 1) 1 6) 1) / 2 in
    if ltb k r then (k * 2) % 2 ^ 32 else k

unfoldable pub setup : ByteBuffer → ℕ → ℕ → ByteBuffer × Bool
setup b p_buffer b_length =
    if not (p_buffer == 0) && ltb 0 b.length
    then (
      record b {
        head = 0;
        tail = 0;
        buffer = p_buffer;
        length = check_valid_power_of_two b_length;
      },
      true,
    )
    else (b, false)

unfoldable pub count : ByteBuffer → ℕ
count b = sub_word b.head b.tail

unfoldable pub is_empty : ByteBuffer → Bool
unfolding count
is_empty b = count b == 0

unfoldable pub is_full : ByteBuffer → Bool
unfolding count
is_full b = count b == b.length

unfoldable pub put : ByteBuffer → ℕ → ByteBuffer × Bool
unfolding is_full
put b b_data =
    if not (is_full b)
    then (
      record b {
        memory = poke b.memory (b.buffer + b.head % b.length) b_data;
        head = add_word b.head 1;
      },
      true,
    )
    else (b, false)

-- `none`: nothing taken, `dst` untouched.
unfoldable pub get : ByteBuffer → ByteBuffer × Option ℕ
unfolding is_empty
get b =
    if not (is_empty b)
    then (record b { tail = add_word b.tail 1 }, some (b.memory (b.buffer + b.tail % b.length)))
    else (b, none)

unfoldable pub peek : ByteBuffer → ℕ
peek b = b.memory (b.buffer + b.tail % b.length)

-- The loop of `read`, with what each `get` stored.
unfoldable pub read_from : ByteBuffer → ℕ → ByteBuffer × List (Option ℕ)
read_from b zero = (b, [])
read_from b (suc n) = let (b', x) = get b in let (b'', xs) = read_from b' n in (b'', x ∷ xs)

unfoldable pub read : ByteBuffer → ℕ → ByteBuffer × List (Option ℕ) × Bool
unfolding read_from
read b n = let (b', xs) = read_from b n in if ltb 0 n then (b', xs, true) else (b, [], false)
