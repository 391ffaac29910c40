-- ===== src/Features/Window/Defs.antt =====
-- `BarWindow` of features/window.py. A cell holds a bar with its features, so the two lists of the code
-- are one; `next` is `_head + 1`, and `seen` is `_t + 1`.
use fuzz_helm.Base.{
  ℕ, ◌+◌, ◌-◌, Option, none, some, List, get_elem?, set, replicate, ltb, leb, ◌==◌, Result, ok, err,
  ◌>>=◌, ◌>>◌, raise_if, value_error, index_error, lookahead_error, type_error, if◌then◌else◌,
}
use fuzz_helm.Base.Int.{ℤ, pos, negsuc}

module _ (A : Type 0) where
  pub record BarWindow : Type 0 where
    pub capacity : ℕ
    pub cells : List (Option A)
    pub next : ℕ
    pub count : ℕ
    pub seen : ℕ

  -- `BarWindow(capacity)`
  unfoldable pub window : ℕ → Result BarWindow
  window capacity = do
    raise_if (ltb capacity 1) value_error
    ok (record {
      capacity = capacity;
      cells = replicate capacity none;
      next = 0;
      count = 0;
      seen = 0;
    })

  unfoldable pub append : BarWindow → A → BarWindow
  append w x =
      let h = if w.next == w.capacity then 0 else w.next in
      record w {
        next = h + 1;
        cells = set w.cells h (some x);
        count = if ltb w.count w.capacity then w.count + 1 else w.count;
        seen = w.seen + 1;
      }

  -- `_pos(lag)`: the head less the lag, around the end of the buffer.
  abbrev pub place : BarWindow → ℕ → ℕ
  place w lag = if ltb lag w.next then w.next - 1 - lag else w.next + w.capacity - 1 - lag

  unfoldable pub position : BarWindow → ℤ → Result ℕ
  position w (negsuc n) = err lookahead_error
  position w (pos lag) = if leb w.count lag then err index_error else ok (place w lag)

  -- `bar(lag)` and `feats(lag)`; the assertion on an empty cell is a `type_error` here.
  abbrev pub cell : Option (Option A) → Result A
  cell (some (some x)) = ok x
  cell _ = err type_error

  unfoldable pub bar : BarWindow → ℤ → Result A
  unfolding position
  bar w lag = do p ← position w lag; cell (get_elem? w.cells p)
