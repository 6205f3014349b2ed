-- ===== src/Metrics/Counters/Rows.antt =====
-- The cells of a counter in CounterProvider (claire/common/metrics): the sum of its row.
use claire_common.Common.{
  ℕ, zero, suc, ◌+◌, ◌-◌, ◌*◌, ◌%◌, ◌^◌, ◌≤◌, ◌<◌, ◌≡◌, ◌≢◌, ◌⊎◌, inl, inr, refl, sym, ap, ◌∙◌,
  List, ltb, ◌==◌, ==_iff, length, set, get_or, get_or-set_self, get_or-set_ne, Bool-cases, arith,
}
use claire_common.Common.Word.{add_int}
use claire_common.Common.Outcome.{done, at-get_or}
use claire_common.Metrics.Counters.{Provider, sum_row, get_counter_value}
use claire_common.Metrics.Counters.Ids.{IsProvider}

pub row_sum : List ℕ → ℕ → ℕ → ℕ
row_sum cells row zero = 0
row_sum cells row (suc n) = get_or cells row 0 + row_sum cells (row + 1) n

pub sum_row-row_sum :
    (cells : List ℕ) (row n value : ℕ)
    → row + n ≤ length cells
    → value < 2 ^ 32
    → sum_row cells row n value ≡ done ((value + row_sum cells row n) % 2 ^ 32)
unfolding sum_row row_sum
sum_row-row_sum cells row zero value h k = ap done (omega arith)
sum_row-row_sum cells row (suc n) value h k = rw (at-get_or cells row 0 (omega arith)) (
    sum_row-row_sum cells (row + 1) n (add_int value (get_or cells row 0)) (omega arith)
      (omega arith)
    ∙ ap done (omega arith))

pub row_sum_outside :
    (cells : List ℕ) (row n place w : ℕ)
    → (place < row) ⊎ (row + n ≤ place)
    → row_sum (set cells place w) row n ≡ row_sum cells row n
unfolding row_sum
row_sum_outside cells row zero place w h = refl
row_sum_outside cells row (suc n) place w h = omega (
  arith,
  get_or-set_ne cells place row w 0 (λ e. omega arith),
  row_sum_outside cells (row + 1) n place w (ground arith),
)

pub row_sum_inside :
    (cells : List ℕ) (row n place w : ℕ)
    → row ≤ place
    → place < row + n
    → place < length cells
    → row_sum (set cells place w) row n + get_or cells place 0 ≡ row_sum cells row n + w
unfolding row_sum
row_sum_inside cells row zero place w h k l = absurd (omega arith)
row_sum_inside cells row (suc n) place w h k l = elim (Bool-cases (place == row)) [
  | inl here ↦
      let e = (==_iff place row).0 here in
      rw (sym e) (
        omega (
          arith,
          get_or-set_self cells place w 0 l,
          row_sum_outside cells (place + 1) n place w (inl (omega arith)),
        ))
  | inr there ↦ omega (
    arith,
    get_or-set_ne cells place row w 0 (λ e. ground arith),
    row_sum_inside cells (row + 1) n place w (ground arith) (omega arith) l,
  )
]

pub row_apart : (a b m : ℕ) → a < b → a * m + m ≤ b * m
row_apart a b m h = let e : b ≡ a + 1 + (b - (a + 1)) = omega arith in rw e (grind arith)

pub rows_disjoint :
    (a b m slot : ℕ) → a ≢ b → slot < m → (a * m + slot < b * m) ⊎ (b * m + m ≤ a * m + slot)
rows_disjoint a b m slot ne fits = elim (Bool-cases (ltb a b)) [
  | inl below ↦ inl (omega (arith, row_apart a b m (ground arith)))
  | inr above ↦ inr (omega (arith, row_apart b a m (ground arith)))
]

pub added_sum :
    (x before after old v : ℕ)
    → after + old ≡ before + add_int old v
    → x ≡ before % 2 ^ 32
    → after % 2 ^ 32 ≡ add_int x v
added_sum x before after old v h k = omega arith

-- The row of a counter.
abbrev pub row_of : Provider → ℕ → ℕ
row_of p id = (id - 1) * p.max_threads

-- The sum of a counter's cells, as an int.
abbrev pub total_of : Provider → ℕ → ℕ
total_of p id = row_sum p.cells (row_of p id) p.max_threads % 2 ^ 32

pub get_counter_value-total :
    (p : Provider) (id : ℕ)
    → IsProvider p
    → 1 ≤ id
    → id ≤ p.max_counters
    → get_counter_value p id ≡ done (total_of p id)
unfolding get_counter_value
get_counter_value-total p id w h k =
    let inside = row_apart (id - 1) p.max_counters p.max_threads (omega arith) in
    sum_row-row_sum p.cells (row_of p id) p.max_threads 0 (omega (arith, w.cells_fit, inside))
      (omega arith)
    ∙ ap done (omega arith)

pub row_next : (a m : ℕ) → 2 ≤ a → (a - 1) * m ≡ (a - 1 - 1) * m + m
row_next zero m h = absurd (omega arith)
row_next (suc zero) m h = absurd (omega arith)
row_next (suc (suc k)) m h =
    let e : suc (suc k) - 1 ≡ k + 1 = omega arith in
    let e' : suc (suc k) - 1 - 1 ≡ k = omega arith in rw (e', e) (grind arith)
