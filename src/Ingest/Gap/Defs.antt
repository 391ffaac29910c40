-- ===== src/Ingest/Gap/Defs.antt =====
-- `GapRecord`, `TRANSITIONS` and `transition` of ingest/gap_detector.py.
use fuzz_helm.Base.{
  ℕ, ◌+◌, Bool, true, false, not, ◌&&◌, Option, none, some, String, Result, ok, ◌>>◌, raise_if,
  value_error, if◌then◌else◌,
}
use fuzz_helm.Base.Int.{ℤ}
use fuzz_helm.Core.Enums.{Stream, GapStatus, GapDetectorKind}

pub record GapRecord : Type 0 where
  pub gap_id : ℕ
  pub instrument : String
  pub stream : Stream
  pub detector : GapDetectorKind
  pub ts_lo_ns : ℤ
  pub ts_hi_ns : ℤ
  pub expected_count : ℕ
  pub status : GapStatus
  pub filled_rows : ℕ
  pub attempts : ℕ
  pub seq_lo : Option ℤ
  pub seq_hi : Option ℤ
  pub tf : Option String
  pub detected_at_ns : ℤ
  pub closed_at_ns : Option ℤ
  pub exchange_ns : Option ℤ

-- `status in TRANSITIONS[g.status]`
unfoldable pub allowed : GapStatus → GapStatus → Bool
allowed GapStatus.open_gap GapStatus.filling = true
allowed GapStatus.open_gap GapStatus.filled = true
allowed GapStatus.open_gap GapStatus.unfillable = true
allowed GapStatus.filling GapStatus.filled = true
allowed GapStatus.filling GapStatus.partial = true
allowed GapStatus.filling GapStatus.unfillable = true
allowed GapStatus.partial GapStatus.filling = true
allowed GapStatus.partial GapStatus.filled = true
allowed GapStatus.partial GapStatus.unfillable = true
allowed GapStatus.unfillable GapStatus.filling = true
allowed GapStatus.unfillable GapStatus.filled = true
allowed _ _ = false

-- `status in TERMINAL`
abbrev pub is_terminal : GapStatus → Bool
is_terminal GapStatus.filled = true
is_terminal GapStatus.partial = true
is_terminal GapStatus.unfillable = true
is_terminal _ = false

-- `status is g.status`
abbrev pub same_status : GapStatus → GapStatus → Bool
same_status GapStatus.open_gap GapStatus.open_gap = true
same_status GapStatus.filling GapStatus.filling = true
same_status GapStatus.filled GapStatus.filled = true
same_status GapStatus.partial GapStatus.partial = true
same_status GapStatus.unfillable GapStatus.unfillable = true
same_status _ _ = false

abbrev pub or_else : Option ℕ → ℕ → ℕ
or_else none n = n
or_else (some m) n = m

-- `transition(g, status, at_ns=..., filled_rows=..., count_attempt=...)`
unfoldable pub transition : GapRecord → GapStatus → ℤ → Option ℕ → Bool → Result GapRecord
unfolding allowed
transition g status at filled count_attempt = do
  raise_if (not (same_status status g.status) && not (allowed g.status status)) value_error
  ok (record g {
    status = status;
    filled_rows = or_else filled g.filled_rows;
    attempts = g.attempts + (if count_attempt then 1 else 0);
    closed_at_ns = if is_terminal status then some at else none;
  })
