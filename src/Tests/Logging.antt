-- ===== src/Tests/Logging.antt =====
-- The logger with buffers of four bytes.
use claire_common.Common.{length, ◌≤◌, ◌≡◌, refl, inl, [], ◌∷◌, ◌++◌, arith}
use claire_common.Common.Outcome.{done}
use claire_common.Common.Int.{negsuc}
use claire_common.Logging.Stream.{integer, text, pointer, put_all, new_log_stream, print_into}
use claire_common.Logging.Stream.Room.{put_all_fits}
use claire_common.Logging.Logger.{
  Logger, Writer, Round, new_logger, new_writer, append, append_all, buffer_append, run_round,
  run_rounds,
}
use claire_common.Logging.Logger.Rounds.{IsShared, IsIdle, run_rounds-IsIdle}
use claire_common.Logging.Logger.Contents.{pending, run_round-pending}

new_logger-IsShared : IsShared new_logger
unfolding new_logger
new_logger-IsShared = inl refl

new_writer-IsIdle : IsIdle new_writer
unfolding new_writer
new_writer-IsIdle = (refl, refl, refl)

-- The second line fills no buffer that has three bytes, so it goes to the spare one.
abbrev lines : Round
lines = record {
  before = (1 ∷ 2 ∷ 3 ∷ []) ∷ (4 ∷ 5 ∷ []) ∷ [];
  during = (6 ∷ []) ∷ [];
  message = [];
}

run_rounds-IsIdle_example :
    (l' : Logger) × (w' : Writer) × (run_rounds 4 (lines ∷ lines ∷ []) new_logger new_writer
      ≡ done (l', w'))
    × IsShared l'
    × IsIdle w'
run_rounds-IsIdle_example =
    run_rounds-IsIdle 4 (lines ∷ lines ∷ []) new_logger new_writer new_logger-IsShared
      new_writer-IsIdle

run_round-pending_example :
    (l' : Logger) × (w' : Writer) × (run_round 4 lines new_logger new_writer ≡ done (l', w'))
    × (w'.output ++ pending l' ≡ 1 ∷ 2 ∷ 3 ∷ 4 ∷ 5 ∷ 6 ∷ [])
unfolding append_all append buffer_append new_logger new_writer
run_round-pending_example =
    run_round-pending 4 lines new_logger new_writer new_logger-IsShared new_writer-IsIdle
      (omega arith, (omega arith, tt)) (omega arith, tt) (omega arith)

-- A text as long as the room for it loses its last byte to the NUL.
print_into-full : print_into 2 (b'4' ∷ b'1' ∷ []) ≡ b'4' ∷ 0 ∷ []
unfolding print_into
print_into-full = refl

put_all_fits_example :
    length
      (put_all 4096
        (integer (negsuc 41) ∷ text (b'a' ∷ []) ∷ pointer 255 ∷ [])
        new_log_stream).buffer
    ≤ 4096
unfolding new_log_stream
put_all_fits_example =
    put_all_fits 4096 (integer (negsuc 41) ∷ text (b'a' ∷ []) ∷ pointer 255 ∷ []) new_log_stream
      (tt, (tt, (omega arith, tt))) (omega arith)
