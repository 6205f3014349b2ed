-- ===== src/Logging/Logger.antt =====
-- LogBuffer and Logger (claire/common/logging): log lines are appended to buffers under a lock, and
-- a thread takes the buffers and writes them out.
use claire_common.Common.{
  ℕ, zero, suc, ◌+◌, ◌-◌, ◌*◌, ◌≡◌, Bool, true, false, Option, none, some, List, [], ◌∷◌, ◌++◌, ltb,
  if◌then◌else◌, length, take,
}
use claire_common.Common.Outcome.{Outcome, done, undefined, ◌>>=◌}
pub mod Rounds
pub mod Contents

-- kLargeBuffer.
abbrev pub large_buffer : ℕ
large_buffer = 4096 * 1000

-- A LogBuffer is the bytes before `current_`.
abbrev pub avail : ℕ → List ℕ → ℕ
avail size buffer = size - length buffer

unfoldable pub buffer_append : ℕ → List ℕ → List ℕ → List ℕ
buffer_append size line buffer =
    if ltb (length line) (avail size buffer)
    then buffer ++ line
    else buffer ++ take (avail size buffer) line

-- What the threads share: `next_buffer` is none for NULL. `notified` counts the calls of Notify.
pub record Logger : Type 0 where
  pub current_buffer : List ℕ
  pub next_buffer : Option (List ℕ)
  pub buffers : List (List ℕ)
  pub notified : ℕ

unfoldable pub new_logger : Logger
new_logger = record { current_buffer = []; next_buffer = some []; buffers = []; notified = 0 }

-- The buffer that follows a full one.
abbrev pub fresh_buffer : Option (List ℕ) → List ℕ
fresh_buffer none = []
fresh_buffer (some buffer) = buffer

unfoldable pub append : ℕ → List ℕ → Logger → Logger
append size line l =
    if ltb (length line) (avail size l.current_buffer)
    then record l { current_buffer = buffer_append size line l.current_buffer }
    else record {
      current_buffer = buffer_append size line (fresh_buffer l.next_buffer);
      next_buffer = none;
      buffers = l.buffers ++ l.current_buffer ∷ [];
      notified = l.notified + 1;
    }

-- The thread's own buffers, what it is about to write, and what it has written.
pub record Writer : Type 0 where
  pub buffer1 : Option (List ℕ)
  pub buffer2 : Option (List ℕ)
  pub buffers_to_write : List (List ℕ)
  pub output : List ℕ

unfoldable pub new_writer : Writer
new_writer = record { buffer1 = some []; buffer2 = some []; buffers_to_write = []; output = [] }

-- `next_buffer_ = move(buffer2)` where next_buffer_ is NULL.
abbrev pub refill : Option (List ℕ) → Option (List ℕ) → Option (List ℕ) × Option (List ℕ)
refill none buffer2 = (buffer2, none)
refill (some next) buffer2 = (some next, buffer2)

-- The part of a round of ThreadMain under the lock. `current_buffer_` would be NULL without a
-- `buffer1`.
unfoldable pub take_buffers : Logger → Writer → Outcome (Logger × Writer)
take_buffers l w =
    let refilled = refill l.next_buffer w.buffer2 in
    elim w.buffer1 [
      | none ↦ undefined
      | some buffer1 ↦ done (
        record l {
          current_buffer = buffer1;
          next_buffer = refilled.0;
          buffers = w.buffers_to_write;
        },
        record w {
          buffer1 = none;
          buffer2 = refilled.1;
          buffers_to_write = l.buffers ++ l.current_buffer ∷ [];
        },
      )
    ]

abbrev pub concat_buffers : List (List ℕ) → List ℕ
concat_buffers [] = []
concat_buffers (b ∷ bs) = b ++ concat_buffers bs

-- `pop_back`, of a vector of at least one buffer: the others and the last.
unfoldable pub pop_back : List (List ℕ) → Outcome (List (List ℕ) × List ℕ)
pop_back [] = undefined
pop_back (b ∷ []) = done ([], b)
pop_back (b ∷ c ∷ bs) = do (others, last) ← pop_back (c ∷ bs); done (b ∷ others, last)

-- A buffer of the thread that is NULL is taken back from those written, and reset.
unfoldable pub take_back :
    Option (List ℕ) → List (List ℕ) → Outcome (Option (List ℕ) × List (List ℕ))
take_back (some buffer) written = done (some buffer, written)
take_back none written = do (others, last) ← pop_back written; done (some [], others)

-- The bytes that the round writes: of more than 25 buffers a message and the first two.
unfoldable pub to_output : List ℕ → List (List ℕ) → List ℕ
to_output message buffers =
    if ltb 25 (length buffers)
    then message ++ concat_buffers (take 2 buffers)
    else concat_buffers buffers

-- The rest of the round. `message` is the text on dropped messages, with its time.
unfoldable pub write_buffers : List ℕ → Writer → Outcome Writer
write_buffers message w = do
  (buffer1, left) ← take_back w.buffer1 (take 2 w.buffers_to_write)
  (buffer2, others) ← take_back w.buffer2 left
  done (record {
    buffer1 = buffer1;
    buffer2 = buffer2;
    buffers_to_write = [];
    output = w.output ++ to_output message w.buffers_to_write;
  })

unfoldable pub append_all : ℕ → List (List ℕ) → Logger → Logger
append_all size [] l = l
append_all size (line ∷ lines) l = append_all size lines (append size line l)

-- One round of ThreadMain among the other threads: they append lines before it takes the buffers,
-- and while it writes them.
pub record Round : Type 0 where
  pub before : List (List ℕ)
  pub during : List (List ℕ)
  pub message : List ℕ

unfoldable pub run_round : ℕ → Round → Logger → Writer → Outcome (Logger × Writer)
run_round size r l w = do
  (l', w') ← take_buffers (append_all size r.before l) w
  w'' ← write_buffers r.message w'
  done (append_all size r.during l', w'')

unfoldable pub run_rounds : ℕ → List Round → Logger → Writer → Outcome (Logger × Writer)
run_rounds size [] l w = done (l, w)
run_rounds size (r ∷ rs) l w = do (l', w') ← run_round size r l w; run_rounds size rs l' w'
