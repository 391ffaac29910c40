-- ===== src/Ingest/Weights/Range.antt =====
-- The weights that a request can have.
use fuzz_helm.Base.{ℕ, ◌≤◌, ◌≡◌, String, List, ok, arith}
use fuzz_helm.Base.Int.{ℤ, ◌≤ℤ◌}
use fuzz_helm.Ingest.Weights.Defs.{Param, klines_weight, request_weight, endpoint_weight}

-- The weight of a klines request does not fall with its limit, where both limits are accepted.
pub klines_weight_mono :
    (a b : ℤ) {x y : ℕ} → a ≤ℤ b → klines_weight a ≡ ok x → klines_weight b ≡ ok y → x ≤ y
unfolding klines_weight
klines_weight_mono a b h k l = ground arith

-- The weight of a request that is not refused lies between 1 and 20.
pub request_weight-InRange :
    (path : String) (params : List (String × Param)) {w : ℕ}
    → request_weight path params ≡ ok w
    → (1 ≤ w) × (w ≤ 20)
unfolding request_weight endpoint_weight klines_weight
request_weight-InRange path params h = ground arith
