-- ===== src/Events/LoopPool.antt =====
-- EventLoopThreadPool (claire/common/events/EventLoopThreadPool.h and .cc): the loops in turn.
use claire_common.Common.{
  ℕ, zero, suc, ◌+◌, ◌%◌, ◌<◌, ◌≡◌, refl, sym, ap, ◌∙◌, false, List, [], ◌∷◌, leb, ◌==◌,
  if◌then◌else◌, length, get_or, arith,
}
use native.Mathlib.Nat.{mod_self, mod-eq_of_lt, mod-add-mod, mod-lt}
use claire_common.Common.Outcome.{Outcome, done, ◌>>=◌, at, at-get_or}

-- Loops stand for their numbers.
pub record LoopPool : Type 0 where
  pub base_loop : ℕ
  pub next : ℕ
  pub loops : List ℕ

-- NextLoop: the loop, and the pool after it.
unfoldable pub next_loop : LoopPool → Outcome (ℕ × LoopPool)
next_loop p =
    let following = p.next + 1 in
    if length p.loops == 0 then done (p.base_loop, p) else (do
      loop ← at p.loops p.next
      done (loop, record p { next = if leb (length p.loops) following then 0 else following }))

-- The loops that so many calls give.
pub next_loops : ℕ → LoopPool → Outcome (List ℕ)
next_loops zero p = done []
next_loops (suc calls) p = do
  (loop, after) ← next_loop p
  others ← next_loops calls after
  done (loop ∷ others)

-- In turn from a place on, and from the first again after the last.
abbrev pub in_turn : ℕ → List ℕ → ℕ → ℕ → List ℕ
in_turn zero loops place base = []
in_turn (suc calls) loops place base =
    get_or loops (place % length loops) base ∷ in_turn calls loops (place + 1) base

-- The place behind a place.
wrapped :
    (size place : ℕ)
    → place < size
    → (if leb size (place + 1) then 0 else place + 1) ≡ (place + 1) % size
wrapped size place inside = ground (arith, mod_self size, mod-eq_of_lt {n = place + 1} {m = size})

next_loop-at :
    (p : LoopPool)
    → p.next < length p.loops
    → next_loop p
      ≡ done (get_or p.loops p.next p.base_loop, record p { next = (p.next + 1) % length p.loops })
unfolding next_loop
next_loop-at p inside =
    let full : (length p.loops == 0) ≡ false = ground arith in
    rw (full, at-get_or p.loops p.next p.base_loop inside, wrapped (length p.loops) p.next inside)
      refl

next_loops-in_turn :
    (calls place : ℕ) (p : LoopPool)
    → p.next < length p.loops
    → p.next ≡ place % length p.loops
    → next_loops calls p ≡ done (in_turn calls p.loops place p.base_loop)
unfolding next_loops
next_loops-in_turn zero place p inside e = refl
next_loops-in_turn (suc calls) place p inside e =
    let after : LoopPool = record p { next = (p.next + 1) % length p.loops } in
    let kept : (p.next + 1) % length p.loops ≡ (place + 1) % length p.loops =
      ap (λ (n : ℕ). (n + 1) % length p.loops) e ∙ mod-add-mod place (length p.loops) 1 in
    rw
      (
        next_loop-at p inside,
        next_loops-in_turn calls (place + 1) after (mod-lt (p.next + 1) (omega (arith, inside)))
            kept,
      )
      (ap
        (λ (n : ℕ).
          done (get_or p.loops n p.base_loop ∷ in_turn calls p.loops (place + 1) p.base_loop))
        e)

-- On a pool with loops, whose next_ is a place in them, any number of calls of NextLoop ends and
-- gives the loops in turn from that place on.
pub next_loops_lem :
    (calls : ℕ) (p : LoopPool)
    → p.next < length p.loops
    → next_loops calls p ≡ done (in_turn calls p.loops p.next p.base_loop)
next_loops_lem calls p inside = next_loops-in_turn calls p.next p inside (sym (mod-eq_of_lt inside))
