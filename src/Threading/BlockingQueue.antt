-- ===== src/Threading/BlockingQueue.antt =====
-- BlockingQueue (claire/common/base/BlockingQueue.h), with the threads that wait in Take.
use claire_common.Common.{
  ℕ, zero, suc, ◌+◌, ◌≤◌, ◌<◌, ◌≡◌, refl, sym, ap, ◌∙◌, List, [], ◌∷◌, ◌++◌, length, length-append,
  arith,
}
use mathlib.Core.List.{append_assoc}
use mathlib.Core.Path.{subst}

-- `asleep` threads wait on not_empty_, and `awake` ones have been woken and are not yet back under
-- the mutex. `put_values` and `taken_values` are all values so far.
pub record BlockingQueue {ℓ} (A : Type ℓ) : Type ℓ where
  pub queue : List A
  pub asleep : ℕ
  pub awake : ℕ
  pub put_values : List A
  pub taken_values : List A

-- Condition::Notify wakes one thread, if one waits.
abbrev pub notify {ℓ} : {A : Type ℓ} → ℕ → BlockingQueue A → BlockingQueue A
notify zero q = q
notify (suc others) q = record q { asleep = others; awake = q.awake + 1 }

-- Put.
unfoldable pub put {ℓ} : {A : Type ℓ} → A → BlockingQueue A → BlockingQueue A
put x q =
    notify q.asleep
      (record q { queue = q.queue ++ (x ∷ []); put_values = q.put_values ++ (x ∷ []) })

-- Take under the mutex: it waits, or takes the front.
abbrev pub front_or_wait {ℓ} : {A : Type ℓ} → List A → BlockingQueue A → BlockingQueue A
front_or_wait [] q = record q { asleep = q.asleep + 1 }
front_or_wait (x ∷ others) q = record q {
  queue = others;
  taken_values = q.taken_values ++ (x ∷ []);
}

unfoldable pub take_front {ℓ} : {A : Type ℓ} → BlockingQueue A → BlockingQueue A
take_front q = front_or_wait q.queue q

-- A thread calls Put or Take; one that was woken goes on in Take; one wakes for no reason.
pub data Step {ℓ} {A : Type ℓ} : BlockingQueue A → BlockingQueue A → Type ℓ where
  call_put : {q : BlockingQueue A} (x : A) → Step q (put x q)
  call_take : {q : BlockingQueue A} → Step q (take_front q)
  resume :
      {q : BlockingQueue A} (n : ℕ) → q.awake ≡ suc n → Step q (take_front (record q { awake = n }))
  spurious :
      {q : BlockingQueue A} (n : ℕ)
      → q.asleep ≡ suc n
      → Step q (record q { asleep = n; awake = q.awake + 1 })

pub data Reaches {ℓ} {A : Type ℓ} : BlockingQueue A → BlockingQueue A → Type ℓ where
  here : {q : BlockingQueue A} → Reaches q q
  after : {q r s : BlockingQueue A} → Reaches q r → Step r s → Reaches q s

abbrev pub new_blocking_queue {ℓ} : {A : Type ℓ} → BlockingQueue A
new_blocking_queue = record {
  queue = [];
  asleep = 0;
  awake = 0;
  put_values = [];
  taken_values = [];
}

-- What was put is what was taken and then what is still there; and while threads sleep, there is for
-- each value one that has been woken.
abbrev pub IsServed {ℓ} : {A : Type ℓ} → BlockingQueue A → Type ℓ
IsServed q = (q.put_values ≡ q.taken_values ++ q.queue) × (0 < q.asleep → length q.queue ≤ q.awake)

notify-IsServed {ℓ} :
    {A : Type ℓ} (asleep : ℕ) (q : BlockingQueue A)
    → q.asleep ≡ asleep
    → q.put_values ≡ q.taken_values ++ q.queue
    → (0 < asleep → length q.queue ≤ q.awake + 1)
    → IsServed (notify asleep q)
notify-IsServed zero q e same h = (same, λ g. omega (arith, e, g))
notify-IsServed (suc others) q e same h = (same, λ g. omega (arith, h (omega arith)))

put-IsServed {ℓ} : {A : Type ℓ} (x : A) (q : BlockingQueue A) → IsServed q → IsServed (put x q)
unfolding put
put-IsServed x q (same, served) =
    notify-IsServed q.asleep _ refl
      (ap (λ values. values ++ (x ∷ [])) same ∙ append_assoc q.taken_values q.queue (x ∷ []))
      (λ g. omega (arith, served g, length-append q.queue (x ∷ [])))

front-IsServed {ℓ} :
    {A : Type ℓ} (values : List A) (q : BlockingQueue A) (n : ℕ)
    → q.queue ≡ values
    → q.put_values ≡ q.taken_values ++ q.queue
    → (0 < q.asleep → length q.queue ≤ q.awake + n)
    → n ≤ 1
    → IsServed (front_or_wait values q)
front-IsServed [] q n e same served small =
    (same, λ g. subst (λ values. length values ≤ q.awake) (sym e) (omega arith))
front-IsServed (x ∷ others) q n e same served small = (
  same
      ∙ ap (λ values. q.taken_values ++ values) e
      ∙ sym (append_assoc q.taken_values (x ∷ []) others),
  λ g. omega (arith, served g, ap length e, small),
)

Step-IsServed {ℓ} : {A : Type ℓ} {q r : BlockingQueue A} → Step q r → IsServed q → IsServed r
unfolding take_front
Step-IsServed (call_put x) h = put-IsServed x _ h
Step-IsServed (call_take {q = q}) (same, served) =
    front-IsServed q.queue q 0 refl same (λ g. omega (arith, served g)) (omega arith)
Step-IsServed (resume {q = q} n e) (same, served) =
    front-IsServed q.queue (record q { awake = n }) 1 refl same (λ g. omega (arith, served g, e))
      (omega arith)
Step-IsServed (spurious {q = q} n e) (same, served) =
    (same, λ g. omega (arith, served (omega (arith, e))))

-- However its threads interleave, and whatever wakes without reason, a BlockingQueue hands out the
-- values in the order in which they were put, each once; and while a thread sleeps in Take, there are
-- no more values in the queue than threads that have been woken for them.
pub Reaches-IsServed {ℓ} :
    {A : Type ℓ} {q : BlockingQueue A} → Reaches new_blocking_queue q → IsServed q
Reaches-IsServed here = (refl, λ g. omega (arith, g))
Reaches-IsServed (after steps step) = Step-IsServed step (Reaches-IsServed steps)
