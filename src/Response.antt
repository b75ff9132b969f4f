-- ===== src/Response.antt =====
-- src/response.cpp: the handler that waits for a pattern among the characters received. The pattern is
-- kept in the caller's buffer, at the address `pattern_to_match` of the memory.
pub mod Match
use quark_ts_cpp.Prelude.{
  ℕ, ◌+◌, Bool, true, false, not, ◌&&◌, List, [], ◌∷◌, ◌==◌, ltb, if◌then◌else◌,
}
use quark_ts_cpp.Prelude.Word.{add_word}
use quark_ts_cpp.Memory.{Memory}
use quark_ts_cpp.Util.{strlen, strcpy}
use quark_ts_cpp.Timer
use quark_ts_cpp.Timer.{Timer}

pub data ResponseStatus : Type 0 where
  missing success timed_out : ResponseStatus

pub record Response : Type 0 where
  pub memory : Memory
  pub pattern_to_match : ℕ
  pub timeout : Timer
  pub max_str_length : ℕ
  pub pattern_length : ℕ
  pub matched_count : ℕ
  pub response_received : Bool

unfoldable pub reset : Response → Response
unfolding Timer.disarm
reset r = record r {
  pattern_length = 0;
  matched_count = 0;
  response_received = false;
  timeout = Timer.disarm r.timeout;
}

unfoldable pub setup : Response → ℕ → ℕ → Response × Bool
unfolding reset
setup r buffer n_max =
    if not (buffer == 0) && ltb 0 n_max
    then (reset (record r { pattern_to_match = buffer; max_str_length = n_max }), true)
    else (r, false)

-- The pattern is the string at an address; `now` is what `clock::getTick()` returns.
unfoldable pub received : Response → ℕ → ℕ → ℕ → ℕ → Response × ResponseStatus
unfolding reset strcpy strlen Timer.set Timer.expired
received r pattern n t now =
    let r1 = record r {
      memory = (strcpy r.memory r.pattern_to_match pattern r.max_str_length).0;
      pattern_length =
          if n == 0
          then strlen (strcpy r.memory r.pattern_to_match pattern r.max_str_length).0 pattern
              r.max_str_length
          else n;
      matched_count = 0;
      response_received = false;
      timeout = if ltb 0 t then (Timer.set r.timeout t now).0 else r.timeout;
    } in
    if not r.response_received && (r.pattern_length == 0)
    then (r1, missing)
    else if Timer.expired r.timeout now
    then (reset r, timed_out)
    else if r.response_received
    then (reset r, success)
    else (r, missing)

unfoldable pub isr_handler : Response → ℕ → Response × Bool
isr_handler r rx_char =
    let matched = add_word r.matched_count 1 in
    if not r.response_received && ltb 0 r.pattern_length
    then (if r.memory (r.pattern_to_match + r.matched_count) == rx_char
        then (if matched == r.pattern_length
            then (record r { matched_count = matched; response_received = true }, true)
            else (record r { matched_count = matched }, false))
        else (r, false))
    else (r, false)

unfoldable pub is_initialized : Response → Bool
is_initialized r = ltb 0 r.max_str_length
