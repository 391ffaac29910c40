-- ===== src/Risk/Config/Laws.antt =====
-- What an accepted configuration of the state machine guarantees.
use fuzz_helm.Base.{◌≡◌, sym, ok-injective, true, some, ok, >>=-eq-ok, arith}
use fuzz_helm.Decimal
use fuzz_helm.Decimal.{Decimal, d0, d1}
use fuzz_helm.Core.Enums.{RiskState}
use fuzz_helm.Risk.Config.Defs.{
  StateMachineCfg, validate, check_fields, check_bands, check_kappa, kappa_at, check_order,
}

-- The multipliers of a configuration: one for each state.
pub record Kappas (c : StateMachineCfg) : Type 0 where
  pub n : Decimal
  pub w : Decimal
  pub d : Decimal
  pub h : Decimal
  pub at_normal : c.kappa_mode RiskState.normal ≡ some n
  pub at_warning : c.kappa_mode RiskState.warning ≡ some w
  pub at_cooldown : c.kappa_mode RiskState.cooldown ≡ some d
  pub at_halted : c.kappa_mode RiskState.halted ≡ some h
  pub top : Decimal.le n d1 ≡ true
  pub w-le-n : Decimal.le w n ≡ true
  pub d-le-w : Decimal.le d w ≡ true
  pub h-le-d : Decimal.le h d ≡ true
  pub zero_le : Decimal.le d0 h ≡ true
  pub le_zero : Decimal.le h d0 ≡ true

kappa_at-ok :
    (c : StateMachineCfg) (s : RiskState) {k : Decimal}
    → kappa_at c s ≡ ok k
    → c.kappa_mode s ≡ some k
unfolding kappa_at
kappa_at-ok c s h = ground arith

check_order-ok :
    (n w d h : Decimal)
    → check_order n w d h ≡ ok tt
    → (Decimal.le n d1 ≡ true)
      × (Decimal.le w n ≡ true)
      × (Decimal.le d w ≡ true)
      × (Decimal.le h d ≡ true)
      × (Decimal.le d0 h ≡ true)
      × (Decimal.le h d0 ≡ true)
unfolding check_order
check_order-ok n w d h e = ground arith

check_kappa-Kappas : (c : StateMachineCfg) → check_kappa c ≡ ok tt → Kappas c
unfolding check_kappa
check_kappa-Kappas c e =
    let (n, en, r1) = >>=-eq-ok (kappa_at c RiskState.normal) _ e in
    let (w, ew, r2) = >>=-eq-ok (kappa_at c RiskState.warning) _ r1 in
    let (d, ed, r3) = >>=-eq-ok (kappa_at c RiskState.cooldown) _ r2 in
    let (h, eh, r4) = >>=-eq-ok (kappa_at c RiskState.halted) _ r3 in
    let (top, wn, dw, hd, z, z') = check_order-ok n w d h r4 in
    record {
      n = n;
      w = w;
      d = d;
      h = h;
      at_normal = kappa_at-ok c RiskState.normal en;
      at_warning = kappa_at-ok c RiskState.warning ew;
      at_cooldown = kappa_at-ok c RiskState.cooldown ed;
      at_halted = kappa_at-ok c RiskState.halted eh;
      top = top;
      w-le-n = wn;
      d-le-w = dw;
      h-le-d = hd;
      zero_le = z;
      le_zero = z';
    }

-- An accepted configuration is returned as it is, and has a multiplier for every state: within [0, 1],
-- never rising with the severity, and zero in HALTED.
pub validate-Kappas :
    (c : StateMachineCfg) {c' : StateMachineCfg} → validate c ≡ ok c' → (c' ≡ c) × Kappas c
unfolding validate
validate-Kappas c h =
    let (_, _, r₁) = >>=-eq-ok (check_fields c) _ h in
    let (_, _, r₂) = >>=-eq-ok (check_bands c) _ r₁ in
    let (_, e, r₃) = >>=-eq-ok (check_kappa c) _ r₂ in
    (sym (ok-injective r₃), check_kappa-Kappas c e)
