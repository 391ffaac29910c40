-- ===== src/Ingest/Gap/Life.antt =====
-- The life of a gap: a filled gap stays filled, and a gap has a time of closing exactly when it is closed.
use fuzz_helm.Base.{
  ℕ, ◌≡◌, ◌↔◌, ◌∙◌, ap, sym, Bool, false, Option, none, List, [], ◌∷◌, Result, ok, ◌>>=◌, >>=-eq-ok,
  ok-injective, arith,
}
use fuzz_helm.Base.Int.{ℤ}
use fuzz_helm.Core.Enums.{GapStatus}
use fuzz_helm.Ingest.Gap.Defs.{GapRecord, allowed, is_terminal, transition}

-- One call of `transition`.
pub record Move : Type 0 where
  pub status : GapStatus
  pub at : ℤ
  pub filled : Option ℕ
  pub count_attempt : Bool

abbrev pub moves : GapRecord → List Move → Result GapRecord
moves g [] = ok g
moves g (m ∷ ms) = transition g m.status m.at m.filled m.count_attempt >>= λ h. moves h ms

-- The closing time is there exactly when the status is terminal.
abbrev pub IsClosedRight : GapRecord → Type 0
IsClosedRight g = (g.closed_at_ns ≡ none) ↔ (is_terminal g.status ≡ false)

transition_filled :
    (g : GapRecord) (m : Move) {h : GapRecord}
    → g.status ≡ GapStatus.filled
    → transition g m.status m.at m.filled m.count_attempt ≡ ok h
    → h.status ≡ GapStatus.filled
unfolding transition allowed
transition_filled g m s e = ground arith

-- A filled gap stays filled, through any transitions that raise nothing.
pub moves-filled :
    (g : GapRecord) (ms : List Move) {h : GapRecord}
    → g.status ≡ GapStatus.filled
    → moves g ms ≡ ok h
    → h.status ≡ GapStatus.filled
moves-filled g [] s e = ap (λ g. g.status) (sym (ok-injective e)) ∙ s
moves-filled g (m ∷ ms) s e =
    let (h, f, k) = >>=-eq-ok (transition g m.status m.at m.filled m.count_attempt) _ e in
    moves-filled h ms (transition_filled g m s f) k
