-- ===== src/Ingest/Gap/Holes.antt =====
-- What the candidate holes of `on_trade` (ingest/gap_detector.py) miss.
use fuzz_helm.Base.{Bool, false, ◌||◌, List, [], ◌∷◌}
use fuzz_helm.Base.Int.{ℤ}
use fuzz_helm.Ingest.Gap.Detector.{Hole, member}

-- The identifier is missing from some candidate.
unfoldable pub any_missing : ℤ → List Hole → Bool
unfolding member
any_missing k [] = false
any_missing k (h ∷ hs) = member k h.missing || any_missing k hs
