-- ===== src/Features/Examples.antt =====
-- A window of two bars after three.
use fuzz_helm.Base.{ℕ, ◌<◌, ◌≡◌, refl, [], ◌∷◌, ok, got, got-eq, IsOk, arith}
use fuzz_helm.Base.Int.{pos, negsuc}
use fuzz_helm.Features.Window.{BarWindow, window, bar}
use fuzz_helm.Features.Window.Guarded.{GuardedArray, get_item, Visible, get_item-Visible}
use fuzz_helm.Features.Window.History.{append_all, append_all-bar}

two_ok : IsOk (window ℕ 2)
unfolding window
two_ok = tt

abbrev two : BarWindow ℕ
two = got (window ℕ 2) two_ok

abbrev after_three : BarWindow ℕ
after_three = append_all two (10 ∷ 20 ∷ 30 ∷ [])

append_all-bar_example : bar ℕ after_three (pos 1) ≡ ok 20
append_all-bar_example = append_all-bar 2 (10 ∷ 20 ∷ 30 ∷ []) 1 (got-eq _ two_ok) (omega arith) refl

-- An array of three, of which two can be read.
abbrev two_seen : GuardedArray ℕ
two_seen = record { arr = 10 ∷ 20 ∷ 30 ∷ []; cursor = pos 1 }

read_ok : IsOk (get_item ℕ two_seen (negsuc 1))
unfolding get_item fuzz_helm.Base.Int.◌+ℤ◌
read_ok = tt

get_item-Visible_example : Visible ℕ two_seen (got (get_item ℕ two_seen (negsuc 1)) read_ok)
get_item-Visible_example = get_item-Visible two_seen (negsuc 1) (got-eq _ read_ok)

-- The key -2 reads the second of three.
second : got (get_item ℕ two_seen (negsuc 1)) read_ok ≡ 20
unfolding get_item fuzz_helm.Base.Int.◌+ℤ◌
second = refl
