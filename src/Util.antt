-- ===== src/Util.antt =====
-- src/util.cpp: the length and the copy of a string in memory.
use quark_ts_cpp.Prelude.{ℕ, zero, suc, ◌+◌, ◌-◌, ◌==◌, ltb, if◌then◌else◌}
use quark_ts_cpp.Memory.{Memory, poke, read_bytes, write_bytes}

-- `Q_IO_UTIL_MAX_STRLEN`
abbrev pub max_strlen : ℕ
max_strlen = 512

-- The loop of `strlen`.
strlen_from : Memory → ℕ → ℕ → ℕ
strlen_from m s zero = 0
strlen_from m s (suc n) = let rest = strlen_from m (s + 1) n in if m s == 0 then 0 else suc rest

unfoldable pub strlen : Memory → ℕ → ℕ → ℕ
unfolding strlen_from
strlen m s maxlen = if s == 0 then 0 else strlen_from m s maxlen

-- The memory and the length of the source.
unfoldable pub strcpy : Memory → ℕ → ℕ → ℕ → Memory × ℕ
unfolding strlen poke write_bytes
strcpy m dst src maxlen =
    let srclen = strlen m src max_strlen in
    let whole = write_bytes m dst (read_bytes m src (srclen + 1)) in
    let cut = poke (write_bytes m dst (read_bytes m src (maxlen - 1))) (dst + maxlen - 1) 0 in
    ((if ltb (srclen + 1) maxlen then whole else if ltb 0 maxlen then cut else m), srclen)
