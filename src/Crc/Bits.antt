-- ===== src/Crc/Bits.antt =====
-- Exclusive or, and the masks of the hash in src/crc.cpp, at every width.
use Prim.Native.Nat.{min, digits, bitwise, differ, bit_xor-bitwise, bit_and-bitwise}
use mathlib.Core.WellFounded
use native.Mathlib.Nat.{pow-suc}
use thkvs.Base.{
  ℕ, zero, suc, ◌+◌, ◌-◌, ◌⊎◌, inl, inr, ◌*◌, ◌/◌, ◌%◌, ◌^◌, ◌≤◌, ◌<◌, ◌≡◌, refl, sym, ap, ◌∙◌,
  bit_and, bit_xor, arith,
}
use thkvs.Base.Order.{lt_wf}

module _ (z : ℕ → ℕ) (f : ℕ → ℕ → ℕ) where
  digits-zero : (fuel b : ℕ) → digits z f fuel 0 b ≡ z b
  digits-zero zero b = refl
  digits-zero (suc fuel) b = refl

  -- No more fuel is read than the number has digits.
  digits_fuel : (fuel more a b : ℕ) → a ≤ fuel → digits z f (fuel + more) a b ≡ digits z f fuel a b
  digits_fuel fuel more zero b l = digits-zero (fuel + more) b ∙ sym (digits-zero fuel b)
  digits_fuel zero more (suc a) b l = absurd (ground arith)
  digits_fuel (suc fuel) more (suc a) b l =
      let e : suc fuel + more ≡ suc (fuel + more) = omega arith in
      rw e (rw (digits_fuel fuel more (suc a / 2) (b / 2) (omega arith)) refl)

  -- The digits above the lowest are those of the halves.
  upper_digits : (a b : ℕ) → digits z f a (suc a / 2) (b / 2) ≡ bitwise z f (suc a / 2) (b / 2)
  upper_digits a b =
      let half : suc a / 2 + (a - suc a / 2) ≡ a = omega arith in
      ap (λ fuel. digits z f fuel (suc a / 2) (b / 2)) (sym half)
      ∙ digits_fuel (suc a / 2) (a - suc a / 2) (suc a / 2) (b / 2) (omega arith)

  lowest_digit :
      (a b : ℕ)
      → bitwise z f (suc a) b ≡ bitwise z f (suc a / 2) (b / 2) * 2 + f (suc a % 2) (b % 2)
  lowest_digit a b = omega (arith, upper_digits a b)

a_bit : (x : ℕ) → x < 2 → (x ≡ 0) ⊎ (x ≡ 1)
a_bit x l = ground arith

differ_digits : (x y : ℕ) → x < 2 → y < 2 → differ x y ≡ (x + y) % 2
differ_digits x y p q = elim (a_bit x p) [
  | inl e ↦ elim (a_bit y q) [ inl e' ↦ rw (e, e') refl | inr e' ↦ rw (e, e') refl ]
  | inr e ↦ elim (a_bit y q) [ inl e' ↦ rw (e, e') refl | inr e' ↦ rw (e, e') refl ]
]

xor_step : (a b : ℕ) → bit_xor a b ≡ bit_xor (a / 2) (b / 2) * 2 + (a + b) % 2
xor_step zero b = simp bit_xor-bitwise (omega arith)
xor_step (suc a) b = omega (
  arith,
  bit_xor-bitwise (suc a) b,
  bit_xor-bitwise (suc a / 2) (b / 2),
  lowest_digit (λ y. y) differ a b,
  differ_digits (suc a % 2) (b % 2) (omega arith) (omega arith),
)

and_step : (a b : ℕ) → bit_and a b ≡ bit_and (a / 2) (b / 2) * 2 + min (a % 2) (b % 2)
and_step zero b = simp bit_and-bitwise (omega arith)
and_step (suc a) b = simp bit_and-bitwise (lowest_digit (λ y. 0) min a b)

-- The two facts that determine an exclusive or.
pub xor-half : (a b : ℕ) → bit_xor a b / 2 ≡ bit_xor (a / 2) (b / 2)
xor-half a b = omega (arith, xor_step a b)

pub xor_parity : (a b : ℕ) → bit_xor a b % 2 ≡ (a + b) % 2
xor_parity a b = omega (arith, xor_step a b)

pub zero-xor : (b : ℕ) → bit_xor 0 b ≡ b
zero-xor b = bit_xor-bitwise 0 b

pub xor_comm : (a b : ℕ) → bit_xor a b ≡ bit_xor b a
xor_comm a = WellFounded.induction lt_wf a step
  where
    step :
        (n : ℕ)
        → ((m : ℕ) → m < n → (b : ℕ) → bit_xor m b ≡ bit_xor b m)
        → (b : ℕ) → bit_xor n b ≡ bit_xor b n
    step zero ih zero = refl
    step zero ih (suc b) =
        WellFounded.induction lt_wf {C = λ k. bit_xor 0 k ≡ bit_xor k 0} (suc b) inner
      where
        inner : (n : ℕ) → ((m : ℕ) → m < n → bit_xor 0 m ≡ bit_xor m 0) → bit_xor 0 n ≡ bit_xor n 0
        inner zero _ = refl
        inner (suc n) h =
            omega (arith, xor_step 0 (suc n), xor_step (suc n) 0, h (suc n / 2) (omega arith))
    step (suc n) ih b =
        omega (arith, xor_step (suc n) b, xor_step b (suc n), ih (suc n / 2) (omega arith) (b / 2))

pub xor-zero : (a : ℕ) → bit_xor a 0 ≡ a
xor-zero a = xor_comm a 0 ∙ zero-xor a

pub xor_assoc : (a b c : ℕ) → bit_xor (bit_xor a b) c ≡ bit_xor a (bit_xor b c)
xor_assoc a = WellFounded.induction lt_wf a step
  where
    step :
        (n : ℕ)
        → ((m : ℕ) → m < n → (b c : ℕ) → bit_xor (bit_xor m b) c ≡ bit_xor m (bit_xor b c))
        → (b c : ℕ) → bit_xor (bit_xor n b) c ≡ bit_xor n (bit_xor b c)
    step zero ih b c = rw (zero-xor b, zero-xor (bit_xor b c))
    step (suc n) ih b c = omega (
      arith,
      xor_step (bit_xor (suc n) b) c,
      xor_step (suc n) (bit_xor b c),
      xor_parity (suc n) b,
      xor_parity b c,
      ap (λ (t : ℕ). bit_xor t (c / 2)) (xor-half (suc n) b),
      ap (bit_xor (suc n / 2)) (xor-half b c),
      ih (suc n / 2) (omega arith) (b / 2) (c / 2),
    )

-- Both sides of a sum of two exclusive ors may be regrouped.
pub xor_interchange :
    (a b c d : ℕ) → bit_xor (bit_xor a b) (bit_xor c d) ≡ bit_xor (bit_xor a c) (bit_xor b d)
xor_interchange a b c d =
    xor_assoc a b (bit_xor c d)
    ∙ ap (bit_xor a)
        (sym (xor_assoc b c d) ∙ ap (λ (t : ℕ). bit_xor t d) (xor_comm b c) ∙ xor_assoc c b d)
    ∙ sym (xor_assoc a c (bit_xor b d))

-- Disjoint fields: the exclusive or is the sum.
pub xor_fields : (k q r : ℕ) → r < 2 ^ k → bit_xor (q * 2 ^ k) r ≡ q * 2 ^ k + r
xor_fields zero q r fits = let e : r ≡ 0 = omega arith in rw e (xor-zero (q * 2 ^ 0) ∙ omega arith)
xor_fields (suc k) q r fits =
    let e : q * 2 ^ suc k ≡ 2 * (q * 2 ^ k) = omega (arith, ap (λ (t : ℕ). q * t) (pow-suc 2 k)) in
    let p : 2 ^ suc k ≡ 2 * 2 ^ k = omega (arith, pow-suc 2 k) in
    let h : (2 * (q * 2 ^ k)) / 2 ≡ q * 2 ^ k = omega arith in
    rw e (
      omega (
        arith,
        xor_step (2 * (q * 2 ^ k)) r,
        ap (λ (t : ℕ). bit_xor t (r / 2)) h,
        xor_fields k q (r / 2) (omega arith),
      ))

pub xor-lt : (k a b : ℕ) → a < 2 ^ k → b < 2 ^ k → bit_xor a b < 2 ^ k
xor-lt zero a b p q =
    let ea : a ≡ 0 = omega arith in let eb : b ≡ 0 = omega arith in rw (ea, eb) (omega arith)
xor-lt (suc k) a b p q =
    let e : 2 ^ suc k ≡ 2 * 2 ^ k = omega (arith, pow-suc 2 k) in
    omega (arith, xor_step a b, xor-lt k (a / 2) (b / 2) (omega arith) (omega arith))

abbrev halves : ℕ → ℕ → ℕ
halves zero x = x
halves (suc n) x = halves n (x / 2)

xor-halves : (n a b : ℕ) → halves n (bit_xor a b) ≡ bit_xor (halves n a) (halves n b)
xor-halves zero a b = refl
xor-halves (suc n) a b = rw (xor-half a b) (xor-halves n (a / 2) (b / 2))

-- A byte leaves the bits above it alone.
pub xor-byte : (a b : ℕ) → b < 256 → bit_xor a b / 2 ^ 8 ≡ a / 2 ^ 8
xor-byte a b h =
    let low : halves 8 b ≡ 0 = omega arith in
    let e : halves 8 (bit_xor a b) ≡ halves 8 a =
      xor-halves 8 a b ∙ ap (bit_xor (halves 8 a)) low ∙ xor-zero (halves 8 a) in
    omega arith

-- `x & 0xff`
digits-none : (fuel a : ℕ) → digits (λ y. 0) min fuel a 0 ≡ 0
digits-none fuel zero = digits-zero (λ y. 0) min fuel 0
digits-none zero (suc a) = refl
digits-none (suc fuel) (suc a) = omega (arith, digits-none fuel (suc a / 2))

and-zero : (a : ℕ) → bit_and a 0 ≡ 0
and-zero a = bit_and-bitwise a 0 ∙ digits-none a a

and_ones : (a m n : ℕ) → m ≡ 2 * n + 1 → bit_and a m ≡ bit_and (a / 2) n * 2 + a % 2
and_ones a m n e = rw e (
    let h : (2 * n + 1) / 2 ≡ n = omega arith in
    omega (arith, and_step a (2 * n + 1), ap (bit_and (a / 2)) h))

and-0f : (a : ℕ) → bit_and a 0xf ≡ a % 16
and-0f a = omega (
  arith,
  and_ones a 0xf 7 (omega arith),
  and_ones (a / 2) 7 3 (omega arith),
  and_ones (a / 2 / 2) 3 1 (omega arith),
  and_ones (a / 2 / 2 / 2) 1 0 (omega arith),
  and-zero (a / 2 / 2 / 2 / 2),
)

pub and-ff : (a : ℕ) → bit_and a 0xff ≡ a % 256
and-ff a = omega (
  arith,
  and_ones a 0xff 0x7f (omega arith),
  and_ones (a / 2) 0x7f 0x3f (omega arith),
  and_ones (a / 2 / 2) 0x3f 0x1f (omega arith),
  and_ones (a / 2 / 2 / 2) 0x1f 0xf (omega arith),
  and-0f (a / 2 / 2 / 2 / 2),
)
