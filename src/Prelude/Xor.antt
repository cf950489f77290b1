-- ===== src/Prelude/Xor.antt =====
-- Exclusive or, taken twice, changes nothing.
use Prim.Native.Nat.{
  ℕ, zero, suc, ◌+◌, ◌*◌, ◌/◌, ◌%◌, ◌≤◌, ◌<◌, digits, differ, bit_xor, bit_xor-bitwise,
}
use mathlib.Core.Path.{◌≡◌, refl, ap, sym, ◌∙◌}
use native.Mathlib.Omega.{arith}

-- The digits of the exclusive or, for at most `n` digits of the first number.
abbrev mixed : ℕ → ℕ → ℕ → ℕ
mixed n a b = digits (λ b. b) differ n a b

mixed-zero : (n b : ℕ) → mixed n 0 b ≡ b
mixed-zero zero b = refl
mixed-zero (suc n) b = refl

mixed-suc : (n a b : ℕ) → mixed (suc n) a b ≡ mixed n (a / 2) (b / 2) * 2 + differ (a % 2) (b % 2)
mixed-suc n zero b = omega (arith, mixed-zero n (b / 2))
mixed-suc n (suc a) b = refl

mixed-more : (n a b : ℕ) → a ≤ n → mixed (suc n) a b ≡ mixed n a b
mixed-more zero zero b h = refl
mixed-more zero (suc a) b h = absurd (omega arith)
mixed-more (suc n) a b h =
    mixed-suc (suc n) a b
    ∙ ap (λ k. k * 2 + differ (a % 2) (b % 2)) (mixed-more n (a / 2) (b / 2) (omega arith))
    ∙ sym (mixed-suc n a b)

differ_bits : (x y : ℕ) → x < 2 → y < 2 → (differ x y < 2) × (differ (differ x y) y ≡ x)
differ_bits zero zero hx hy = (omega arith, refl)
differ_bits zero (suc zero) hx hy = (omega arith, refl)
differ_bits zero (suc (suc y)) hx hy = absurd (omega arith)
differ_bits (suc zero) zero hx hy = (omega arith, refl)
differ_bits (suc zero) (suc zero) hx hy = (omega arith, refl)
differ_bits (suc zero) (suc (suc y)) hx hy = absurd (omega arith)
differ_bits (suc (suc x)) y hx hy = absurd (omega arith)

differ_self : (x : ℕ) → differ x x ≡ 0
differ_self zero = refl
differ_self (suc x) = differ_self x

-- Both numbers being the same.
mixed-same : (n a : ℕ) → a ≤ n → mixed n a a ≡ 0
mixed-same zero zero h = refl
mixed-same zero (suc a) h = absurd (omega arith)
mixed-same (suc n) a h =
    let rest = mixed-same n (a / 2) (omega arith) in
    mixed-suc n a a ∙ omega (arith, rest, differ_self (a % 2))

mixed_twice : (n m a b : ℕ) → a ≤ n → mixed n a b ≤ m → mixed m (mixed n a b) b ≡ a
mixed_twice zero m zero b h g = mixed-same m b g
mixed_twice zero m (suc a) b h g = absurd (omega arith)
mixed_twice (suc n) m a b h g =
    let r = mixed (suc n) a b in
    let bits = differ_bits (a % 2) (b % 2) (omega arith) (omega arith) in
    let once = mixed-suc n a b in
    let half : r / 2 ≡ mixed n (a / 2) (b / 2) = omega (arith, once, bits.0) in
    let bit : r % 2 ≡ differ (a % 2) (b % 2) = omega (arith, once, bits.0) in
    let back = mixed_twice n m (a / 2) (b / 2) (omega arith) (omega (arith, once)) in
    sym (mixed-more m r b g)
    ∙ mixed-suc m r b
    ∙ ap (λ k. mixed m k (b / 2) * 2 + differ (r % 2) (b % 2)) half
    ∙ ap (λ k. mixed m (mixed n (a / 2) (b / 2)) (b / 2) * 2 + differ k (b % 2)) bit
    ∙ omega (arith, back, bits.1)

pub bit_xor_twice : (a b : ℕ) → bit_xor (bit_xor a b) b ≡ a
bit_xor_twice a b =
    ap (λ t. bit_xor t b) (bit_xor-bitwise a b)
    ∙ bit_xor-bitwise (mixed a a b) b
    ∙ mixed_twice a (mixed a a b) a b (omega arith) (omega arith)
