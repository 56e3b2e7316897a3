-- ===== src/Base/Decimal.antt =====
-- The decimal text of a number, `%d`. Each text names one number.
use epp_test.Base.{
  ℕ, zero, suc, ◌+◌, ◌-◌, ◌*◌, ◌/◌, ◌%◌, ◌<◌, ◌≤◌, All, ◌≡◌, sym, ap, ◌∙◌, [], ◌∷◌, arith, ltb,
  if◌then◌else◌, Bool-cases, inl, inr,
}
use epp_test.Base.Int.{ℤ, pos, negsuc}
use epp_test.Base.Text.{Bytes}

-- The digits of `n` in front of `acc`; `suc n` rounds are enough.
decimal_onto : ℕ → ℕ → Bytes → Bytes
decimal_onto zero n acc = acc
decimal_onto (suc f) n acc =
    let digits = (b'0' + n % 10) ∷ acc in
    let rest = decimal_onto f (n / 10) digits in if ltb n 10 then digits else rest

unfoldable pub decimal : ℕ → Bytes
unfolding decimal_onto
decimal n = decimal_onto (suc n) n []

-- `%d` of a signed number.
unfoldable pub decimal_ℤ : ℤ → Bytes
decimal_ℤ (pos n) = decimal n
decimal_ℤ (negsuc n) = b'-' ∷ decimal (suc n)

-- The number that a text of digits stands for, read on from `v`.
value_from : ℕ → Bytes → ℕ
value_from v [] = v
value_from v (c ∷ cs) = value_from (v * 10 + (c - b'0')) cs

value_from-decimal_onto :
    (f n : ℕ) (acc : Bytes) → n < f → value_from 0 (decimal_onto f n acc) ≡ value_from n acc
unfolding decimal_onto value_from
value_from-decimal_onto zero n acc h = elim h [ ]
value_from-decimal_onto (suc f) n acc h = elim (Bool-cases (ltb n 10)) [
  | inl small ↦ rw small (ap (λ v. value_from v acc) (ground arith))
  | inr large ↦ rw large (
      value_from-decimal_onto f (n / 10) ((b'0' + n % 10) ∷ acc) (ground arith)
      ∙ ap (λ v. value_from v acc) (omega arith))
]

pub decimal_inj : (m n : ℕ) → decimal m ≡ decimal n → m ≡ n
unfolding decimal value_from
decimal_inj m n h =
    sym (value_from-decimal_onto (suc m) m [] (omega arith))
    ∙ ap (value_from 0) h
    ∙ value_from-decimal_onto (suc n) n [] (omega arith)

abbrev pub IsDigit : ℕ → Type 0
IsDigit c = (b'0' ≤ c) × (c < b'0' + 10)

decimal_onto-IsDigit :
    (f n : ℕ) (acc : Bytes) → All IsDigit acc → All IsDigit (decimal_onto f n acc)
unfolding decimal_onto
decimal_onto-IsDigit zero n acc h = h
decimal_onto-IsDigit (suc f) n acc h =
    let more : All IsDigit ((b'0' + n % 10) ∷ acc) = ((omega arith, omega arith), h) in
    elim (Bool-cases (ltb n 10)) [
      | inl small ↦ rw small more
      | inr large ↦ rw large (decimal_onto-IsDigit f (n / 10) _ more)
    ]

pub decimal-IsDigit : (n : ℕ) → All IsDigit (decimal n)
unfolding decimal
decimal-IsDigit n = decimal_onto-IsDigit (suc n) n [] tt
