-- ===== src/Core/Enums.antt =====
-- core/enums.py: the enumerations that the modelled code uses.
use fuzz_helm.Base.{Bool, true, false}

pub data RiskState : Type 0 where
  normal warning cooldown halted : RiskState

pub data Role : Type 0 where
  operator analyst auditor admin : Role

pub data VerdictKind : Type 0 where
  allow shrink veto : VerdictKind

pub data Side : Type 0 where
  short flat long : Side

pub data Stream : Type 0 where
  klines trades depth mark : Stream

pub data GapStatus : Type 0 where
  open_gap filling filled partial unfillable : GapStatus

pub data GapDetectorKind : Type 0 where
  seq bucket_count time : GapDetectorKind

-- `a is b`
abbrev pub same_state : RiskState → RiskState → Bool
same_state RiskState.normal RiskState.normal = true
same_state RiskState.warning RiskState.warning = true
same_state RiskState.cooldown RiskState.cooldown = true
same_state RiskState.halted RiskState.halted = true
same_state _ _ = false

abbrev pub is_admin : Role → Bool
is_admin Role.admin = true
is_admin _ = false

pub data OrderType : Type 0 where
  market stop_market : OrderType

pub data OrderStatus : Type 0 where
  new partial_fill filled_order rejected canceled : OrderStatus

pub data Liquidity : Type 0 where
  maker taker : Liquidity

pub data RejectCode : Type 0 where
  below_min_notional zero_qty risk_veto halted_trading reduce_only_order : RejectCode
  insufficient_margin duplicate_client_id venue_error : RejectCode

pub data ExitReason : Type 0 where
  signal stop tp vetoed halt liquidation : ExitReason

-- `a == b` of two sides.
abbrev pub same_side : Side → Side → Bool
same_side Side.short Side.short = true
same_side Side.flat Side.flat = true
same_side Side.long Side.long = true
same_side _ _ = false

-- `Side(-int(s))`
abbrev pub opposite : Side → Side
opposite Side.short = Side.long
opposite Side.flat = Side.flat
opposite Side.long = Side.short

pub data ContractType : Type 0 where
  perp spot : ContractType
