-- ===== src/Text/Decimal.antt =====
-- `%d` of a natural number.
use tsidp_operator.Prelude.{
  ℕ, zero, suc, ◌+◌, ◌-◌, ◌*◌, ◌/◌, ◌%◌, ◌<◌, ◌≡◌, refl, sym, ap, ◌∙◌, Bool-cases, inl, inr, [],
  ◌∷◌, ◌++◌, ltb, if◌then◌else◌, arith,
}
use tsidp_operator.Text.{Text}

decimal_fuel : ℕ → ℕ → Text
decimal_fuel zero n = []
decimal_fuel (suc f) n =
    let high = decimal_fuel f (n / 10) in
    if ltb n 10 then (0x30 + n) ∷ [] else high ++ ((0x30 + n % 10) ∷ [])

-- The fuel is above the number, which a division by ten makes smaller.
unfoldable pub decimal : ℕ → Text
unfolding decimal_fuel
decimal n = decimal_fuel (suc n) n

value_from : ℕ → Text → ℕ
value_from acc [] = acc
value_from acc (c ∷ s) = value_from (acc * 10 + (c - 0x30)) s

value-append :
    (acc : ℕ) (s : Text) (c : ℕ)
    → value_from acc (s ++ (c ∷ [])) ≡ value_from acc s * 10 + (c - 0x30)
unfolding value_from
value-append acc [] c = refl
value-append acc (d ∷ s) c = value-append (acc * 10 + (d - 0x30)) s c

value-decimal_fuel : (f n : ℕ) → n < f → value_from 0 (decimal_fuel f n) ≡ n
unfolding decimal_fuel value_from
value-decimal_fuel zero n h = absurd (omega arith)
value-decimal_fuel (suc f) n h = elim (Bool-cases (ltb n 10)) [
  | inl e ↦ rw e (omega arith)
  | inr e ↦
      let big : 10 < suc n = ground arith in
      let ih : value_from 0 (decimal_fuel f (n / 10)) ≡ n / 10 =
        value-decimal_fuel f (n / 10) (omega arith) in
      rw (e, value-append) (omega (arith, ih))
]

-- Different numbers are printed differently.
pub decimal-injective : (m n : ℕ) → decimal m ≡ decimal n → m ≡ n
unfolding decimal
decimal-injective m n e =
    sym (value-decimal_fuel (suc m) m (omega arith))
    ∙ ap (value_from 0) e
    ∙ value-decimal_fuel (suc n) n (omega arith)
