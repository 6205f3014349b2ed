-- ===== src/Logging/Logger/Rounds.antt =====
-- The logging thread never lacks a buffer (claire/common/logging/Logger.cc).
use claire_common.Common.{
  ℕ, ◌+◌, ◌-◌, ◌≤◌, ◌≡◌, refl, ◌∙◌, ◌⊎◌, inl, inr, none, some, List, [], ◌∷◌, ◌++◌, ltb, length,
  length-append, take, Bool-cases, arith,
}
use claire_common.Common.Outcome.{done}
use claire_common.Logging.Logger.{
  Logger, Writer, Round, append, append_all, take_buffers, write_buffers, take_back, pop_back,
  to_output, run_round, run_rounds,
}

-- The spare buffer is empty, and it is missing only when a full buffer waits.
abbrev pub IsShared : Logger → Type 0
IsShared l = (l.next_buffer ≡ some []) ⊎ ((l.next_buffer ≡ none) × (1 ≤ length l.buffers))

-- Between two rounds the thread has both of its buffers, empty, and nothing to write.
abbrev pub IsIdle : Writer → Type 0
IsIdle w = (w.buffer1 ≡ some []) × (w.buffer2 ≡ some []) × (w.buffers_to_write ≡ [])

pub append-IsShared :
    (size : ℕ) (line : List ℕ) (l : Logger) → IsShared l → IsShared (append size line l)
unfolding append
append-IsShared size line l h =
    elim (Bool-cases (ltb (length line) (size - length l.current_buffer))) [
      | inl fits ↦ rw fits h
      | inr full ↦
          rw full (inr (refl, omega (arith, length-append l.buffers (l.current_buffer ∷ []))))
    ]

pub append_all-IsShared :
    (size : ℕ) (lines : List (List ℕ)) (l : Logger)
    → IsShared l
    → IsShared (append_all size lines l)
unfolding append_all
append_all-IsShared size [] l h = h
append_all-IsShared size (line ∷ lines) l h =
    append_all-IsShared size lines (append size line l) (append-IsShared size line l h)

pop_back-done :
    (bs : List (List ℕ))
    → 1 ≤ length bs
    → (others : List (List ℕ)) × (last : List ℕ) × (pop_back bs ≡ done (others, last))
      × (length others + 1 ≡ length bs)
unfolding pop_back
pop_back-done [] h = absurd (omega arith)
pop_back-done (b ∷ []) h = ([], b, refl, omega arith)
pop_back-done (b ∷ c ∷ bs) h =
    let (others, last, e, n) = pop_back-done (c ∷ bs) (omega arith) in
    (b ∷ others, last, rw e refl, omega arith)

take_two : (bs : List (List ℕ)) → (length (take 2 bs) ≡ length bs) ⊎ (length (take 2 bs) ≡ 2)
take_two [] = inl refl
take_two (b ∷ []) = inl refl
take_two (b ∷ c ∷ bs) = inr refl

-- With a buffer written for each that is missing, the round ends and both are there again.
pub write_buffers-IsIdle :
    (message : List ℕ) (w : Writer)
    → w.buffer1 ≡ none
    → ((w.buffer2 ≡ some []) × (1 ≤ length w.buffers_to_write))
      ⊎ ((w.buffer2 ≡ none) × (2 ≤ length w.buffers_to_write))
    → (w' : Writer) × (write_buffers message w ≡ done w')
      × IsIdle w'
      × (w'.output ≡ w.output ++ to_output message w.buffers_to_write)
unfolding write_buffers take_back
write_buffers-IsIdle message w none1 (inl (some2, enough)) =
    let two = take_two w.buffers_to_write in
    let (others, last, popped, n) = pop_back-done (take 2 w.buffers_to_write) (ground arith) in
    (
      record {
        buffer1 = some [];
        buffer2 = some [];
        buffers_to_write = [];
        output = w.output ++ to_output message w.buffers_to_write;
      },
      rw (none1, some2, popped) refl,
      (refl, refl, refl),
      refl,
    )
write_buffers-IsIdle message w none1 (inr (none2, enough)) =
    let two = take_two w.buffers_to_write in
    let (others, last, popped, n) = pop_back-done (take 2 w.buffers_to_write) (ground arith) in
    let (others', last', popped', n') = pop_back-done others (ground arith) in
    (
      record {
        buffer1 = some [];
        buffer2 = some [];
        buffers_to_write = [];
        output = w.output ++ to_output message w.buffers_to_write;
      },
      rw (none1, none2, popped, popped') refl,
      (refl, refl, refl),
      refl,
    )

-- The buffers are handed over and empty ones are in their place.
abbrev pub handed_over : Logger → Logger
handed_over l = record l { current_buffer = []; next_buffer = some []; buffers = [] }

-- The writer holds the buffers of `l`, and one for each that it lacks.
record IsLoaded (l : Logger) (w w' : Writer) : Type 0 where
  no_buffer1 : w'.buffer1 ≡ none
  enough :
      ((w'.buffer2 ≡ some []) × (1 ≤ length w'.buffers_to_write))
      ⊎ ((w'.buffer2 ≡ none) × (2 ≤ length w'.buffers_to_write))
  loaded : w'.buffers_to_write ≡ l.buffers ++ l.current_buffer ∷ []
  output_same : w'.output ≡ w.output

take_buffers-IsLoaded :
    (l : Logger) (w : Writer)
    → IsShared l
    → IsIdle w
    → (w' : Writer) × (take_buffers l w ≡ done (handed_over l, w')) × IsLoaded l w w'
unfolding take_buffers
take_buffers-IsLoaded l w (inl spare) (idle1, idle2, nothing) = (
  record w {
    buffer1 = none;
    buffer2 = some [];
    buffers_to_write = l.buffers ++ l.current_buffer ∷ [];
  },
  rw (spare, idle1, idle2, nothing) refl,
  record {
    no_buffer1 = refl;
    enough = inl (refl, omega (arith, length-append l.buffers (l.current_buffer ∷ [])));
    loaded = refl;
    output_same = refl;
  },
)
take_buffers-IsLoaded l w (inr (used, full)) (idle1, idle2, nothing) = (
  record w {
    buffer1 = none;
    buffer2 = none;
    buffers_to_write = l.buffers ++ l.current_buffer ∷ [];
  },
  rw (used, idle1, idle2, nothing) refl,
  record {
    no_buffer1 = refl;
    enough = inr (refl, omega (arith, length-append l.buffers (l.current_buffer ∷ [])));
    loaded = refl;
    output_same = refl;
  },
)

-- What a round leaves, from what it started with.
pub record IsRound (size : ℕ) (r : Round) (l : Logger) (w : Writer) : Type 0 where
  pub after : Logger
  pub writer : Writer
  pub result : run_round size r l w ≡ done (after, writer)
  pub shared : IsShared after
  pub idle : IsIdle writer
  pub written :
      writer.output
      ≡ w.output
        ++ to_output r.message (
            (append_all size r.before l).buffers
            ++ (append_all size r.before l).current_buffer ∷ [])
  pub left : after ≡ append_all size r.during (handed_over (append_all size r.before l))

-- From a logger and a writer between two rounds, whatever lines other threads append before the
-- buffers are taken and while they are written, a round ends: each assertion that a buffer is there
-- holds, what it took is written, and the next round finds both buffers empty again.
pub run_round-IsRound :
    (size : ℕ) (r : Round) (l : Logger) (w : Writer) → IsShared l → IsIdle w → IsRound size r l w
unfolding run_round
run_round-IsRound size r l w shared idle =
    let taken = append_all size r.before l in
    let (w', taking, load) =
      take_buffers-IsLoaded taken w (append_all-IsShared size r.before l shared) idle in
    let (w'', writing, idle', written) =
      write_buffers-IsIdle r.message w' load.no_buffer1 load.enough in
    record {
      after = append_all size r.during (handed_over taken);
      writer = w'';
      result = rw (taking, writing) refl;
      shared = append_all-IsShared size r.during (handed_over taken) (inl refl);
      idle = idle';
      written = written ∙ rw (load.output_same, load.loaded) refl;
      left = refl;
    }

-- Any number of rounds end.
pub run_rounds-IsIdle :
    (size : ℕ) (rs : List Round) (l : Logger) (w : Writer)
    → IsShared l
    → IsIdle w
    → (l' : Logger) × (w' : Writer) × (run_rounds size rs l w ≡ done (l', w'))
      × IsShared l'
      × IsIdle w'
unfolding run_rounds
run_rounds-IsIdle size [] l w shared idle = (l, w, refl, shared, idle)
run_rounds-IsIdle size (r ∷ rs) l w shared idle =
    let k = run_round-IsRound size r l w shared idle in
    let (l', w', result, shared', idle') =
      run_rounds-IsIdle size rs k.after k.writer k.shared k.idle in
    (l', w', rw k.result result, shared', idle')
