-- ===== src/Tests/Responses.antt =====
-- A handler that waits for the characters 79 and 75.
use quark_ts_cpp.Prelude.{◌≡◌, refl, false, [], ◌∷◌, arith}
use quark_ts_cpp.Memory.{read_bytes, write_bytes}
use quark_ts_cpp.Response.{Response}
use quark_ts_cpp.Response.Match.{receive_all, occurs_in, isr_handler-occurs_in}

abbrev r0 : Response
r0 = record {
  memory = write_bytes (λ a. 0) 40 (79 ∷ 75 ∷ []);
  pattern_to_match = 40;
  timeout = record { t_start = 0; tv = 0 };
  max_str_length = 8;
  pattern_length = 2;
  matched_count = 0;
  response_received = false;
}

isr_handler-occurs_in_example :
    (receive_all r0 (13 ∷ 79 ∷ 10 ∷ 75 ∷ [])).response_received
    ≡ occurs_in (read_bytes r0.memory 40 2) (13 ∷ 79 ∷ 10 ∷ 75 ∷ [])
isr_handler-occurs_in_example =
    isr_handler-occurs_in r0 (13 ∷ 79 ∷ 10 ∷ 75 ∷ []) refl refl (omega arith) (omega arith)
