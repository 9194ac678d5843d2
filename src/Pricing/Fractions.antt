-- ===== src/Pricing/Fractions.antt =====
-- An arithmetic of fractions, which never rounds but in `round`: one that the assumptions on doubles
-- hold of.
use tirion_watch.Prelude.{ℕ, zero, suc, ◌+◌, ◌*◌, ◌/◌, ◌≤◌, ◌<◌, ◌≡◌, ap, arith}
use tirion_watch.Pricing.Floats.{FloatHost, IsDouble}
use native.Mathlib.Nat.{
  mul-pos, mul-le-mul_right, eq_of_mul-eq-mul_right, le_of_mul-le-mul_right, div-add-mod, mod-lt,
}

abbrev pub fractions : FloatHost
fractions = record {
  Number = ℕ × ℕ;
  of_count = λ n. (n, 1);
  of_rate = λ r. (r, 1000000);
  times = λ x y. (x.0 * y.0, x.1 * y.1);
  over = λ x y. (x.0 * y.1, x.1 * y.0);
  round = λ x. (2 * x.0 + x.1) / (2 * x.1);
}

abbrev Equals : ℕ × ℕ → ℕ → ℕ → ℕ → Type 0
Equals x n d k = (0 < x.1) × (x.0 * d ≡ n * x.1)

product :
    (p q a b c d e f : ℕ) → p * b ≡ a * q → e * d ≡ c * f → (p * e) * (b * d) ≡ (a * c) * (q * f)
product p q a b c d e f h k =
    grind (arith, ap (λ (t : ℕ). t * (e * d)) h, ap (λ (t : ℕ). a * q * t) k)

positive : (e c d f : ℕ) → 0 < c → 0 < f → e * d ≡ c * f → 0 < e
positive zero c d f h k q = absurd (omega (arith, mul-pos h k))
positive (suc e) c d f h k q = omega arith

reduced : (p q a b c d : ℕ) → 0 < b → a * d ≡ c * b → p * b ≡ a * q → p * d ≡ c * q
reduced p q a b c d pos h k =
    eq_of_mul-eq-mul_right b pos (p * d) (c * q)
      (grind (arith, ap (λ (t : ℕ). t * d) k, ap (λ (t : ℕ). t * q) h))

module _ (p q n d r : ℕ) (pos : 0 < q) (same : p * d ≡ n * q) where
  below : 2 * p + q < 2 * q * r + 2 * q → 2 * n ≤ d * (2 * r + 1)
  below h =
      let scaled : 2 * p * d ≤ q * (2 * r + 1) * d = mul-le-mul_right d (grind arith) in
      le_of_mul-le-mul_right {k = q} (grind (arith, scaled, same)) pos

  above : 2 * q * r ≤ 2 * p + q → d * (2 * r) ≤ 2 * n + d
  above h =
      let scaled = mul-le-mul_right d h in
      le_of_mul-le-mul_right {k = q} (grind (arith, scaled, same)) pos

rounded :
    (p q n d : ℕ)
    → 0 < q
    → p * d ≡ n * q
    → (2 * n ≤ d * (2 * ((2 * p + q) / (2 * q)) + 1))
      × (d * (2 * ((2 * p + q) / (2 * q))) ≤ 2 * n + d)
rounded p q n d pos same =
    let r = (2 * p + q) / (2 * q) in
    let whole = div-add-mod (2 * p + q) (2 * q) in
    let rest = mod-lt (2 * p + q) {m = 2 * q} (omega arith) in
    (
      below p q n d r pos same (omega (arith, whole, rest)),
      above p q n d r pos same (omega (arith, whole)),
    )

pub fractions-IsDouble : IsDouble fractions
fractions-IsDouble = record {
  near = Equals;
  near_count = λ n h. (omega arith, omega arith);
  near_rate = λ r h. (omega arith, omega arith);
  near_times =
      λ x y a b c d j k fits h q. (mul-pos h.0 q.0, product x.0 x.1 a b c d y.0 y.1 h.1 q.1);
  near_over = λ x y a b c d j k pos fits h q. (
    mul-pos h.0 (positive y.0 c d y.1 pos q.0 q.1),
    product x.0 x.1 a b d c y.1 y.0 h.1 (grind (arith, q.1)),
  );
  near_equal = λ x a b c d k pos more same h. (h.0, reduced x.0 x.1 a b c d pos same h.1);
  near_round = λ x n d k pos small h. rounded x.0 x.1 n d h.0 h.1;
}
