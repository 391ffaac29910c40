-- ===== src/Quality/Invariants/Books.antt =====
-- A book that passes the check is uncrossed at every level.
use fuzz_helm.Base.{
  Bool, true, false, ◌||◌, ◌≡◌, refl, sym, ◌∙◌, inl, inr, List, [], ◌∷◌, ◌++◌, ok, >>=-eq-ok,
  Option, ok-injective, Bool-cases, All,
}
use mathlib.Core.List.{cons-ne-nil}
use mathlib.Core.Bool.{false≢true}
use fuzz_helm.Decimal.{Decimal}
use fuzz_helm.Decimal
use fuzz_helm.Decimal.Order.{le_refl, le_trans, le_of_not-le}
use fuzz_helm.Quality.Invariants.Defs.{
  InstrumentSpec, Violation, PriceField, any_pair, crossed, book_off, check_book, flag,
}

neither : (a b : Bool) → (a || b) ≡ false → (a ≡ false) × (b ≡ false)
neither false b h = (refl, h)
neither true b h = absurd (false≢true (sym h))

map-All :
    (P Q : Decimal → Type 0) (xs : List Decimal) → ((x : Decimal) → P x → Q x) → All P xs → All Q xs
map-All P Q [] f h = tt
map-All P Q (x ∷ xs) f (p, h) = (f x p, map-All P Q xs f h)

-- The first price of a side in order is the best one: r x y says that x is not better than y.
best :
    (r : Decimal → Decimal → Bool)
    → ((x : Decimal) → r x x ≡ true)
    → ((x y z : Decimal) → r x y ≡ true → r y z ≡ true → r x z ≡ true)
    → ((x y : Decimal) → r y x ≡ false → r x y ≡ true)
    → (b : Decimal) (bids : List Decimal) → any_pair r (b ∷ bids) ≡ false
    → All (λ x. r x b ≡ true) (b ∷ bids)
unfolding any_pair
best r reflexive trans total b [] h = (reflexive b, tt)
best r reflexive trans total b (c ∷ bids) h =
    let (ahead, rest) = neither (r b c) (any_pair r (c ∷ bids)) h in
    (
      reflexive b,
      map-All (λ x. r x c ≡ true) (λ x. r x b ≡ true) (c ∷ bids)
          (λ x below. trans x c b below (total c b ahead))
          (best r reflexive trans total c bids rest),
    )

apart :
    (b a x y : Decimal)
    → Decimal.le a b ≡ false
    → Decimal.le x b ≡ true
    → Decimal.le a y ≡ true
    → Decimal.lt x y ≡ true
apart b a x y gap hx hy = elim (Bool-cases (Decimal.le y x)) [
  | inl meets ↦ absurd (false≢true (sym gap ∙ le_trans a x b (le_trans a y x hy meets) hx))
  | inr clear ↦ rw clear refl
]

all_refl : (xs : List Decimal) → All (λ x. Decimal.le x x ≡ true) xs
all_refl [] = tt
all_refl (x ∷ xs) = (le_refl x, all_refl xs)

no_flag :
    (t u v : Bool) (c d e : Violation)
    → (flag t c ++ (flag u d ++ flag v e)) ≡ []
    → (t ≡ false) × (u ≡ false)
no_flag false false v c d e h = (refl, refl)
no_flag false true v c d e h = absurd (cons-ne-nil _ _ h)
no_flag true u v c d e h = absurd (cons-ne-nil _ _ h)

-- In a book that the check passes without a code, with the grid of an instrument or without one, every bid is below every ask, not only the best ones.
pub check_book-uncrossed :
    (bids asks : List Decimal) (spec : Option InstrumentSpec)
    → check_book bids asks spec ≡ ok []
    → All (λ b. All (λ a. Decimal.lt b a ≡ true) asks) bids
unfolding check_book crossed
check_book-uncrossed [] asks spec same = tt
check_book-uncrossed (b ∷ bids) [] spec same =
    map-All (λ x. Decimal.le x x ≡ true) (λ x. All (λ a. Decimal.lt x a ≡ true) []) (b ∷ bids)
      (λ x h. tt) (all_refl (b ∷ bids))
check_book-uncrossed (b ∷ bids) (a ∷ asks) spec same =
    let (off, _, flagged) = >>=-eq-ok (book_off ((b ∷ bids) ++ (a ∷ asks)) spec) _ same in
    let (sorted, gap) =
      no_flag (any_pair Decimal.le (b ∷ bids) || any_pair (λ x y. Decimal.le y x) (a ∷ asks))
        (Decimal.le a b) off Violation.book_unsorted Violation.book_crossed
        (Violation.price_off_tick PriceField.book_field) (ok-injective flagged) in
    let (down, up) = neither (any_pair Decimal.le (b ∷ bids)) _ sorted in
    let lowest =
      best (λ x y. Decimal.le y x) le_refl (λ x y z h k. le_trans z y x k h)
        (λ x y h. le_of_not-le y x h) a asks up in
    map-All (λ x. Decimal.le x b ≡ true) (λ x. All (λ y. Decimal.lt x y ≡ true) (a ∷ asks))
      (b ∷ bids)
      (λ x below.
        map-All (λ y. Decimal.le a y ≡ true) (λ y. Decimal.lt x y ≡ true) (a ∷ asks)
          (λ y above. apart b a x y gap below above) lowest)
      (best Decimal.le le_refl le_trans (λ x y h. le_of_not-le x y h) b bids down)
