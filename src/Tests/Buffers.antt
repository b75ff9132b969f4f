-- ===== src/Tests/Buffers.antt =====
-- A buffer as it is constructed, and the lengths that are rounded up.
use quark_ts_cpp.Prelude.{◌*◌, ◌≤◌, ◌<◌, ◌≡◌, false, none, arith, bit_and}
use quark_ts_cpp.Prelude.Word.{sub_word}
use quark_ts_cpp.ByteBuffer.{blank, setup, check_valid_power_of_two, put, get}
use quark_ts_cpp.ByteBuffer.Setup.{setup-blank, check_valid_power_of_two_lem}

setup-blank_example :
    (setup (blank (λ a. 0)) 16 8 ≡ (blank (λ a. 0), false))
    × ((put (setup (blank (λ a. 0)) 16 8).0 1).1 ≡ false)
    × ((get (setup (blank (λ a. 0)) 16 8).0).1 ≡ none)
setup-blank_example = setup-blank (λ a. 0) 16 8 1

check_valid_power_of_two_lem_example :
    (100 ≤ check_valid_power_of_two 100)
    × (check_valid_power_of_two 100 < 100 * 2)
    × (bit_and (sub_word (check_valid_power_of_two 100) 1) (check_valid_power_of_two 100) ≡ 0)
check_valid_power_of_two_lem_example = check_valid_power_of_two_lem 100 (omega arith) (omega arith)
