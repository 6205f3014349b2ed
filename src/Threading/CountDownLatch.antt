-- ===== src/Threading/CountDownLatch.antt =====
-- CountDownLatch (claire/common/threading/CountDownLatch.h), with the threads that wait in Wait. The
-- count is a whole number: no program calls CountDown often enough for an int to overflow.
use claire_common.Common.{ℕ, zero, suc, ◌+◌, ◌≤◌, ◌<◌, ◌≡◌, refl, arith}
use claire_common.Common.Int.{ℤ, pos, negsuc}

-- `asleep` threads wait on the condition, `awake` ones have been woken, and `passed` ones have
-- returned from Wait; CountDown has been called `counted` times.
pub record CountDownLatch : Type 0 where
  pub count : ℤ
  pub asleep : ℕ
  pub awake : ℕ
  pub passed : ℕ
  pub counted : ℕ

abbrev pub new_latch : ℕ → CountDownLatch
new_latch c = record { count = pos c; asleep = 0; awake = 0; passed = 0; counted = 0 }

-- Wait under the mutex, by the count: it waits, or returns.
abbrev pub wait_for : ℤ → CountDownLatch → CountDownLatch
wait_for (pos zero) l = record l { passed = l.passed + 1 }
wait_for (pos (suc n)) l = record l { asleep = l.asleep + 1 }
wait_for (negsuc n) l = record l { passed = l.passed + 1 }

unfoldable pub wait : CountDownLatch → CountDownLatch
wait l = wait_for l.count l

-- CountDown: the count one lower, and NotifyAll when it is 0.
abbrev pub lower : ℤ → CountDownLatch → CountDownLatch
lower (pos zero) l = record l { count = negsuc 0; counted = l.counted + 1 }
lower (pos (suc zero)) l = record l {
  count = pos 0;
  counted = l.counted + 1;
  asleep = 0;
  awake = l.awake + l.asleep;
}
lower (pos (suc (suc n))) l = record l { count = pos (suc n); counted = l.counted + 1 }
lower (negsuc n) l = record l { count = negsuc (suc n); counted = l.counted + 1 }

unfoldable pub count_down : CountDownLatch → CountDownLatch
count_down l = lower l.count l

pub data Step : CountDownLatch → CountDownLatch → Type 0 where
  call_wait : {l : CountDownLatch} → Step l (wait l)
  call_count_down : {l : CountDownLatch} → Step l (count_down l)
  resume : {l : CountDownLatch} (n : ℕ) → l.awake ≡ suc n → Step l (wait (record l { awake = n }))
  spurious :
      {l : CountDownLatch} (n : ℕ)
      → l.asleep ≡ suc n
      → Step l (record l { asleep = n; awake = l.awake + 1 })

pub data Reaches : CountDownLatch → CountDownLatch → Type 0 where
  here : {l : CountDownLatch} → Reaches l l
  after : {l m n : CountDownLatch} → Reaches l m → Step m n → Reaches l n

-- The count is what is left of `c` after so many calls.
abbrev pub IsLeft : ℕ → ℕ → ℤ → Type 0
IsLeft c counted (pos n) = n + counted ≡ c
IsLeft c counted (negsuc n) = c + suc n ≡ counted

-- No thread sleeps once CountDown has been called `c` times, and none has returned before.
pub record IsLatch (c : ℕ) (l : CountDownLatch) : Type 0 where
  count : IsLeft c l.counted l.count
  woken : c ≤ l.counted → l.asleep ≡ 0
  waited : 0 < l.passed → c ≤ l.counted

wait_for-IsLatch :
    (c : ℕ) (z : ℤ) (l : CountDownLatch)
    → IsLeft c l.counted z
    → IsLatch c l
    → IsLatch c (wait_for z l)
wait_for-IsLatch c (pos zero) l e h = record {
  count = h.count;
  woken = h.woken;
  waited = λ g. omega (arith, e);
}
wait_for-IsLatch c (pos (suc n)) l e h = record {
  count = h.count;
  woken = λ g. absurd (omega (arith, e, g));
  waited = h.waited;
}
wait_for-IsLatch c (negsuc n) l e h = record {
  count = h.count;
  woken = h.woken;
  waited = λ g. omega (arith, e);
}

lower-IsLatch :
    (c : ℕ) (z : ℤ) (l : CountDownLatch)
    → IsLeft c l.counted z
    → IsLatch c l
    → IsLatch c (lower z l)
lower-IsLatch c (pos zero) l e h = record {
  count = omega (arith, e);
  woken = λ g. h.woken (omega (arith, e));
  waited = λ g. omega (arith, e);
}
lower-IsLatch c (pos (suc zero)) l e h = record {
  count = omega (arith, e);
  woken = λ g. refl;
  waited = λ g. omega (arith, e);
}
lower-IsLatch c (pos (suc (suc n))) l e h = record {
  count = omega (arith, e);
  woken = λ g. absurd (omega (arith, e, g));
  waited = λ g. absurd (omega (arith, e, h.waited g));
}
lower-IsLatch c (negsuc n) l e h = record {
  count = omega (arith, e);
  woken = λ g. h.woken (omega (arith, e));
  waited = λ g. omega (arith, e);
}

Step-IsLatch : {c : ℕ} {l m : CountDownLatch} → Step l m → IsLatch c l → IsLatch c m
unfolding wait count_down
Step-IsLatch {c = c} (call_wait {l = l}) h = wait_for-IsLatch c l.count l h.count h
Step-IsLatch {c = c} (call_count_down {l = l}) h = lower-IsLatch c l.count l h.count h
Step-IsLatch {c = c} (resume {l = l} n e) h =
    wait_for-IsLatch c l.count (record l { awake = n }) h.count
      (record { count = h.count; woken = h.woken; waited = h.waited })
Step-IsLatch (spurious {l = l} n e) h = record {
  count = h.count;
  woken = λ g. absurd (omega (arith, h.woken g, e));
  waited = h.waited;
}

-- In whatever order threads call Wait and CountDown and whatever wakes without reason, no thread
-- returns from Wait before CountDown has been called `c` times on a latch made for `c`, and none
-- sleeps there afterwards.
pub Reaches-IsLatch : (c : ℕ) {l : CountDownLatch} → Reaches (new_latch c) l → IsLatch c l
Reaches-IsLatch c here = record {
  count = omega arith;
  woken = λ g. refl;
  waited = λ g. absurd (omega (arith, g));
}
Reaches-IsLatch c (after steps step) = Step-IsLatch step (Reaches-IsLatch c steps)
