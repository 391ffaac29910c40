-- ===== src/Features/Window/Guarded.antt =====
-- `GuardedArray` of features/window.py over one dimension, with integer keys: what lies after the cursor
-- cannot be read.
use fuzz_helm.Base.{
  ℕ, suc, ◌-◌, ltb, if◌then◌else◌, if-eq-ok, inl, inr, ap, err_ne_ok, ok-injective, Option, ◌≡◌,
  true, false, ◌||◌, none, some, List, length, get_elem?, Result, ok, err, ◌>>◌, raise_if,
  raise_if-eq-ok, index_error, lookahead_error, arith,
}
use fuzz_helm.Base.Int.{ℤ, pos, negsuc, ◌+ℤ◌, ltb_ℤ, leb_ℤ, ◌≤ℤ◌}

module _ (A : Type 0) where
  abbrev or_outside : Option A → Result A
  or_outside none = err index_error
  or_outside (some x) = ok x

  pub record GuardedArray : Type 0 where
    pub arr : List A
    pub cursor : ℤ

  -- The setter of `cursor`: from -1 up to the last index.
  unfoldable pub set_cursor : GuardedArray → ℤ → Result GuardedArray
  set_cursor g value = do
    raise_if (ltb_ℤ value (negsuc 0) || leb_ℤ (pos (length g.arr)) value) index_error
    ok (record g { cursor = value })

  -- `GuardedArray(arr, cursor)`
  unfoldable pub guarded : List A → ℤ → Result GuardedArray
  unfolding set_cursor
  guarded arr cursor = set_cursor (record { arr = arr; cursor = negsuc 0 }) cursor

  unfoldable pub advance : GuardedArray → ℤ → Result GuardedArray
  unfolding set_cursor
  advance g steps = set_cursor g (g.cursor +ℤ steps)

  -- An index from the end of the whole array where it is negative.
  unfoldable pub absolute : GuardedArray → ℤ → ℤ
  absolute g (pos i) = pos i
  absolute g (negsuc i) = negsuc i +ℤ pos (length g.arr)

  unfoldable pub check_index : GuardedArray → ℤ → Result (Unit {0})
  unfolding absolute
  check_index g i = raise_if (ltb_ℤ g.cursor (absolute g i)) lookahead_error

  -- numpy's `arr[key]`: from the end where the key is negative; outside of the array it raises.
  unfoldable pub at_index : List A → ℤ → Result A
  at_index xs (pos i) = or_outside (get_elem? xs i)
  at_index xs (negsuc i) =
      if ltb i (length xs) then or_outside (get_elem? xs (length xs - suc i)) else err index_error

  -- `g[key]`
  unfoldable pub get_item : GuardedArray → ℤ → Result A
  unfolding check_index at_index
  get_item g i = do check_index g i; at_index g.arr i

  -- The element x stands at a position of the whole array that is not after the cursor.
  abbrev pub Visible : GuardedArray → A → Type 0
  Visible g x = (n : ℕ) × (get_elem? g.arr n ≡ some x) × (pos n ≤ℤ g.cursor)

or_outside-eq-ok : {A : Type 0} (o : Option A) {x : A} → or_outside A o ≡ ok x → o ≡ some x
or_outside-eq-ok none h = absurd (err_ne_ok h)
or_outside-eq-ok (some a) h = ap some (ok-injective h)

from_end :
    (c : ℤ) (i n : ℕ) → ltb i n ≡ true → ltb_ℤ c (negsuc i +ℤ pos n) ≡ false → pos (n - suc i) ≤ℤ c
unfolding ◌+ℤ◌
from_end c i n inside h = ground arith

not_above : (a b : ℤ) → ltb_ℤ a b ≡ false → b ≤ℤ a
not_above a b h = ground arith

module _ {A : Type 0} where
  -- Where a read returns, by a key from the front or from the end, its value stands in the array at a
  -- position that is not after the cursor.
  pub get_item-Visible :
      (g : GuardedArray A) (i : ℤ) {x : A} → get_item A g i ≡ ok x → Visible A g x
  unfolding get_item check_index absolute at_index
  get_item-Visible g (pos i) h =
      let (seen, read) = raise_if-eq-ok _ lookahead_error _ h in
      (i, or_outside-eq-ok _ read, not_above g.cursor (pos i) seen)
  get_item-Visible g (negsuc i) h =
      let (seen, read) = raise_if-eq-ok _ lookahead_error _ h in
      elim (if-eq-ok (ltb i (length g.arr)) (or_outside A (get_elem? g.arr (length g.arr - suc i)))
        (err index_error) read) [
          | inr (outside, raised) ↦ absurd (err_ne_ok raised)
          | inl (inside, found) ↦ (
            length g.arr - suc i,
            or_outside-eq-ok _ found,
            from_end g.cursor i (length g.arr) inside seen,
          )
        ]
