-- ===== src/Decimal.antt =====
-- core/money.py, and what the code uses of Python's `decimal` under `DECIMAL_CONTEXT`: 38 significant
-- digits, ROUND_HALF_EVEN. A finite decimal is `coef / 10 ^ scale`; a positive exponent is multiplied
-- out, and -0 is 0. Comparisons are exact; `+ - * /`, negation and `abs` round to the context.
mod Defs
pub mod Order
mod Tests
unfoldable pub use Defs.*
