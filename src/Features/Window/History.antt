-- ===== src/Features/Window/History.antt =====
-- The ring buffer shows the last bars of the whole history, and nothing else.
use fuzz_helm.Base.{
  Bool-cases, err_ne_ok, ℕ, zero, suc, ◌≤◌, ◌<◌, ◌≡◌, ◌≢◌, ◌∙◌, ap, refl, sym, false, ◌⊎◌, inl, inr,
  none, some, List, [], ◌∷◌, map, length, get_elem?, length-set, length-replicate,
  get_elem?-set_self, get_elem?-set_ne, ltb, leb, ◌==◌, ok, raise_if-eq-ok, ok-injective,
  value_error, if◌then◌else◌, arith,
}
use fuzz_helm.Base.Int.{ℤ, pos, negsuc}
use fuzz_helm.Features.Window.Defs.{BarWindow, window, append, place, position, bar}

below_count : (n lag : ℕ) → lag < n → leb n lag ≡ false
below_count n lag h = ground arith

above_count : (n lag : ℕ) → leb n lag ≡ false → lag < n
above_count n lag h = ground arith

module _ {A : Type 0} where
  -- The bars of a history, oldest first, put into a window.
  abbrev pub append_all : BarWindow A → List A → BarWindow A
  append_all w [] = w
  append_all w (x ∷ xs) = append_all (append A w x) xs

  -- The window and the history, newest first: the buffer has its capacity, and every bar that is not
  -- older than the count stands at its place.
  pub record Represents (w : BarWindow A) (history : List A) : Type 0 where
    pub cells_length : length w.cells ≡ w.capacity
    pub capacity_pos : 0 < w.capacity
    pub next_le : w.next ≤ w.capacity
    pub count_le : w.count ≤ w.capacity
    pub count_next : (w.count ≡ w.capacity) ⊎ (w.next ≡ w.count)
    pub count_history : (w.count ≡ w.capacity) ⊎ (w.count ≡ length history)
    pub shows :
        (lag : ℕ)
        → lag < w.count
        → get_elem? w.cells (place A w lag) ≡ get_elem? (map some history) lag

  -- The cell that the next bar is written to.
  abbrev slot : BarWindow A → ℕ
  slot w = if w.next == w.capacity then 0 else w.next

  slot_lt : (w : BarWindow A) → 0 < w.capacity → w.next ≤ w.capacity → slot w < w.capacity
  slot_lt w p h = ground arith

  -- One bar later, what was at lag l is at lag l + 1, in the same cell.
  place-append :
      (w : BarWindow A) (x : A) (l : ℕ)
      → w.next ≤ w.capacity
      → suc l < w.capacity
      → (place A (append A w x) (suc l) ≡ place A w l) × (place A w l ≢ slot w)
  unfolding append
  place-append w x l h k = (ground arith, ground arith)

  place-newest : (w : BarWindow A) (x : A) → place A (append A w x) 0 ≡ slot w
  unfolding append
  place-newest w x = ground arith

  append-count_next :
      (w : BarWindow A) (x : A)
      → w.count ≤ w.capacity
      → (w.count ≡ w.capacity) ⊎ (w.next ≡ w.count)
      → ((append A w x).count ≡ (append A w x).capacity)
        ⊎ ((append A w x).next ≡ (append A w x).count)
  unfolding append
  append-count_next w x le c = ground arith

  append-count_history :
      (w : BarWindow A) (history : List A) (x : A)
      → w.count ≤ w.capacity
      → (w.count ≡ w.capacity) ⊎ (w.count ≡ length history)
      → ((append A w x).count ≡ w.capacity) ⊎ ((append A w x).count ≡ length (x ∷ history))
  unfolding append
  append-count_history w history x le c = ground arith

  append-count :
      (w : BarWindow A) (x : A) → w.count ≤ w.capacity → (append A w x).count ≤ suc w.count
  unfolding append
  append-count w x le = ground arith

  append-count_le :
      (w : BarWindow A) (x : A) → w.count ≤ w.capacity → (append A w x).count ≤ w.capacity
  unfolding append
  append-count_le w x le = ground arith

  append-shows :
      (w : BarWindow A) (history : List A) (x : A)
      → Represents w history
      → (lag : ℕ) → lag < (append A w x).count
      → get_elem? (append A w x).cells (place A (append A w x) lag)
        ≡ get_elem? (map some (x ∷ history)) lag
  unfolding append
  append-shows w history x r zero k =
      ap (get_elem? (append A w x).cells) (place-newest w x)
      ∙ get_elem?-set_self w.cells (slot w) (some x)
          (omega (arith, r.cells_length, slot_lt w r.capacity_pos r.next_le))
  append-shows w history x r (suc l) k =
      let (same, other) =
        place-append w x l r.next_le (omega (arith, k, append-count_le w x r.count_le)) in
      ap (get_elem? (append A w x).cells) same
      ∙ (get_elem?-set_ne w.cells (some x) (λ e. other (sym e))
          ∙ r.shows l (omega (arith, k, append-count w x r.count_le)))

  append-Represents :
      (w : BarWindow A) (history : List A) (x : A)
      → Represents w history
      → Represents (append A w x) (x ∷ history)
  unfolding append
  append-Represents w history x r = record {
    cells_length = length-set w.cells (slot w) (some x) ∙ r.cells_length;
    capacity_pos = r.capacity_pos;
    next_le = omega (arith, slot_lt w r.capacity_pos r.next_le);
    count_le = append-count_le w x r.count_le;
    count_next = append-count_next w x r.count_le r.count_next;
    count_history = append-count_history w history x r.count_le r.count_history;
    shows = append-shows w history x r;
  }

  window-Represents : (capacity : ℕ) {w : BarWindow A} → window A capacity ≡ ok w → Represents w []
  unfolding window
  window-Represents capacity h =
      let (big, e) = raise_if-eq-ok (ltb capacity 1) value_error _ h in
      rw (← ok-injective e) (record {
        cells_length = length-replicate capacity none;
        capacity_pos = ground arith;
        next_le = omega arith;
        count_le = omega arith;
        count_next = inr refl;
        count_history = inr refl;
        shows = λ lag k. absurd (omega (arith, k));
      })

  -- The history after the bars of a list, newest first.
  abbrev pub newest_first : List A → List A → List A
  newest_first history [] = history
  newest_first history (x ∷ xs) = newest_first (x ∷ history) xs

  append_all-Represents :
      (w : BarWindow A) (history xs : List A)
      → Represents w history
      → Represents (append_all w xs) (newest_first history xs)
  append_all-Represents w history [] r = r
  append_all-Represents w history (x ∷ xs) r =
      append_all-Represents (append A w x) (x ∷ history) xs (append-Represents w history x r)

  get_elem?-map :
      (history : List A) (lag : ℕ) {x : A}
      → get_elem? history lag ≡ some x
      → get_elem? (map some history) lag ≡ some (some x)
  get_elem?-map [] lag h = cc
  get_elem?-map (y ∷ ys) zero h = ap some h
  get_elem?-map (y ∷ ys) (suc lag) h = get_elem?-map ys lag h

  Represents-bar :
      (w : BarWindow A) (history : List A) (lag : ℕ) {x : A}
      → Represents w history
      → lag < w.count
      → get_elem? history lag ≡ some x
      → bar A w (pos lag) ≡ ok x
  unfolding bar position
  Represents-bar w history lag r k e =
      rw (below_count w.count lag k, r.shows lag k, get_elem?-map history lag e) refl

  get_elem?-bound :
      (history : List A) (lag : ℕ) {x : A} → get_elem? history lag ≡ some x → lag < length history
  get_elem?-bound [] lag h = cc
  get_elem?-bound (y ∷ ys) zero h = omega arith
  get_elem?-bound (y ∷ ys) (suc lag) h = omega (arith, get_elem?-bound ys lag h)

  append_all-capacity : (w : BarWindow A) (xs : List A) → (append_all w xs).capacity ≡ w.capacity
  unfolding append
  append_all-capacity w [] = refl
  append_all-capacity w (x ∷ xs) = append_all-capacity (append A w x) xs

  window-capacity :
      (capacity : ℕ) (xs : List A) {w : BarWindow A}
      → window A capacity ≡ ok w
      → (append_all w xs).capacity ≡ capacity
  unfolding window
  window-capacity capacity xs h =
      let (big, e) = raise_if-eq-ok (ltb capacity 1) value_error _ h in
      rw (← ok-injective e) (append_all-capacity _ xs)

  -- A new window of any capacity that the constructor accepts, after any bars: for a lag below the
  -- capacity, `bar(lag)` is the bar that came `lag` bars before the last one, if there was one.
  pub append_all-bar :
      (capacity : ℕ) (xs : List A) (lag : ℕ) {w : BarWindow A} {x : A}
      → window A capacity ≡ ok w
      → lag < capacity
      → get_elem? (newest_first [] xs) lag ≡ some x
      → bar A (append_all w xs) (pos lag) ≡ ok x
  append_all-bar capacity xs lag {w} h k e =
      let r = append_all-Represents w [] xs (window-Represents capacity h) in
      let c = window-capacity capacity xs h in
      let b = get_elem?-bound (newest_first [] xs) lag e in
      Represents-bar (append_all w xs) (newest_first [] xs) lag r
        (elim r.count_history [ inl f ↦ omega (arith, f, c, k) | inr f ↦ omega (arith, f, b) ]) e

  -- Where `bar(lag)` returns, the lag is not negative, and below the number of bars in the window.
  pub bar-refused :
      (w : BarWindow A) (lag : ℤ) {x : A}
      → bar A w lag ≡ ok x
      → (n : ℕ) × (lag ≡ pos n) × (n < w.count)
  unfolding bar position
  bar-refused w (negsuc n) h = cc
  bar-refused w (pos n) h = elim (Bool-cases (leb w.count n)) [
    | inl f ↦ absurd (err_ne_ok (rw f at h))
    | inr f ↦ (n, refl, above_count w.count n f)
  ]
