-- ===== src/Fault/Rules.antt =====
-- Which rule of a profile decides about an operation.
use epp_test.Base.{
  ◌≡◌, refl, Bool, true, false, ◌&&◌, not, List, [], ◌∷◌, ◌++◌, some, arith, if◌then◌else◌, All,
}
use epp_test.Base.Int.{ℤ, pos, add_i64}
use epp_test.Base.Text.{Bytes, text_eq, contains}
use epp_test.Fault.{FaultAction, allow, disconnect, mismatch, PerOpRule, FaultProfile}
use epp_test.Fault.Engine.{scan_rules, operation_action}

-- A rule with a text applies to the operations that contain it.
abbrev pub applies : Bytes → PerOpRule → Bool
applies op r = not (text_eq r.match []) && contains op r.match

-- What a rule gives an operation to which it applies.
abbrev pub rule_outcome : ℤ → PerOpRule → FaultAction × ℤ
rule_outcome delay r =
    if r.disconnects
    then (disconnect, pos 0)
    else (if r.mismatches then mismatch else allow, add_i64 delay r.delay)

scan_rules-skip :
    (before rest : List PerOpRule) (op : Bytes) (total : ℤ)
    → All (λ r. applies op r ≡ false) before
    → scan_rules (before ++ rest) op total ≡ scan_rules rest op total
unfolding scan_rules
scan_rules-skip [] rest op total h = refl
scan_rules-skip (r ∷ before) rest op total h =
    ground (arith, scan_rules-skip before rest op total h.1)

scan_rules-hit :
    (r : PerOpRule) (rest : List PerOpRule) (op : Bytes) (total : ℤ)
    → applies op r ≡ true
    → scan_rules (r ∷ rest) op total ≡ some (rule_outcome total r)
unfolding scan_rules
scan_rules-hit r rest op total h = ground arith

-- The first rule that applies decides alone: it disconnects with no delay, or else its delay is
-- added to the global one and its mismatch flag gives the action, whatever rules stand behind
-- it and whatever the global mismatch text is.
pub first_rule_decides :
    (p : FaultProfile) (before after : List PerOpRule) (r : PerOpRule) (op : Bytes)
    → p.per_op ≡ before ++ (r ∷ after)
    → All (λ q. applies op q ≡ false) before
    → applies op r ≡ true
    → operation_action p op ≡ rule_outcome p.response_delay r
unfolding operation_action
first_rule_decides p before after r op e skipped hit = ground (
  arith,
  scan_rules-skip before (r ∷ after) op p.response_delay skipped,
  scan_rules-hit r after op p.response_delay hit,
)
