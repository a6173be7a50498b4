-- ===== src/Miner/Ratio.antt =====
-- Python's `round` of a quotient to its last stored digit (src/pae/miner/tod.py, src/pae/miner/pairs.py). A
-- quotient of whole numbers stands for the float; a tie goes to the even digit.
use native.Mathlib.Nat.{div-lt_iff_lt-mul, mul-div_right, div-add-mod, mul-lt-mul_of_pos_right}
use hass_ai.Prelude.{
  inl, inr, ap, ◌≡◌, Bool-cases, arith, ◌<◌, ◌≤◌, ℕ, zero, suc, ◌+◌, ◌*◌, ◌/◌, ◌%◌, ltb, nat_eq,
  if◌then◌else◌,
}

-- round(n / d) to a whole number.
unfoldable pub round_div : ℕ → ℕ → ℕ
round_div n d =
    let q = n / d in
    let r = n % d in
    if ltb (2 * r) d
    then q
    else if ltb d (2 * r)
    then q + 1
    else if nat_eq (q % 2) 0
    then q
    else q + 1

-- The unit of a stored ratio: 1.0 is 10000.
abbrev pub ratio_one : ℕ
ratio_one = 10000

-- A quotient below a whole number rounds to at most that number.
round_div-le_bound : (n d k : ℕ) → n / d < k → round_div n d ≤ k
unfolding round_div
round_div-le_bound n d k h = ground arith

-- A part of a whole that counts k rounds to at most k.
pub round_div-le_whole : (n d k : ℕ) → n ≤ d → 0 < d → 0 < k → round_div (n * k) d ≤ k
unfolding round_div
round_div-le_whole n d k h pos some_there = elim (Bool-cases (ltb n d)) [
  | inl less ↦ round_div-le_bound (n * k) d k (
      (div-lt_iff_lt-mul pos).1 (
        let below : n < d = ground (arith, less) in
        omega (arith, mul-lt-mul_of_pos_right below some_there)))
  | inr whole ↦
      let same : ◌≡◌ {A = ℕ} n d = ground (arith, whole) in
      let exact : d * k / d ≡ k = mul-div_right k pos in
      let parts = div-add-mod (d * k) d in
      let nothing : d * k % d ≡ 0 = omega (arith, parts, ap (λ (q : ℕ). d * q) exact) in
      rw same (ground (arith, exact, nothing))
]

-- A part of a whole is at most 1.
pub round_div-le_one : (n d : ℕ) → n ≤ d → 0 < d → round_div (n * ratio_one) d ≤ ratio_one
round_div-le_one n d h pos = round_div-le_whole n d ratio_one h pos (omega arith)

-- The same where both may be 0.
pub round_div-share : (n d : ℕ) → n ≤ d → round_div (n * ratio_one) d ≤ ratio_one
unfolding round_div
round_div-share zero zero h = omega arith
round_div-share (suc n) zero h = absurd (omega (arith, h))
round_div-share n (suc d) h = round_div-le_one n (suc d) h (omega arith)
