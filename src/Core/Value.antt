-- ===== src/Core/Value.antt =====
-- The canonical values of payloads and audit records: what core/digest.py can serialise.
use package.text.Mathlib.Text.{◌==◌ as str_eq}
use fuzz_helm.Base.{if◌then◌else◌, Bool, String, Option, none, some}
use fuzz_helm.Base.Int.{ℤ}
use fuzz_helm.Decimal.{Decimal}

mutual
  pub data Value : Type 0 where
    null : Value
    bool : Bool → Value
    int : ℤ → Value
    text : String → Value
    decimal : Decimal → Value
    obj : Fields → Value

  -- The entries of a dict, in insertion order.
  pub data Fields : Type 0 where
    end : Fields
    field : String → Value → Fields → Fields

-- `None if x is None else x`
abbrev pub opt_text : Option String → Value
opt_text none = Value.null
opt_text (some s) = Value.text s

abbrev pub opt_int : Option ℤ → Value
opt_int none = Value.null
opt_int (some n) = Value.int n

abbrev pub opt_decimal : Option Decimal → Value
opt_decimal none = Value.null
opt_decimal (some d) = Value.decimal d

-- `d[key] = value`: an entry of that key is overwritten, else one is added at the end.
unfoldable pub with_field : String → Value → Fields → Fields
with_field k v Fields.end = Fields.field k v Fields.end
with_field k v (Fields.field j w rest) =
    if str_eq j k then Fields.field j v rest else Fields.field j w (with_field k v rest)
