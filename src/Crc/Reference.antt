-- ===== src/Crc/Reference.antt =====
-- src/crc.cpp beside the CRC-32 that its table stands for: one bit at a time, with the reflected
-- polynomial.
use thkvs.Base.{
  ℕ, zero, suc, ◌+◌, ◌*◌, ◌/◌, ◌%◌, ◌^◌, ◌<◌, ◌≡◌, refl, sym, ap, ◌∙◌, bit_xor, List, length, [],
  ◌∷◌, Bool, true, ◌&&◌, get_or, ◌==◌, Text, All, arith,
}
use thkvs.Crc.{table, crc_byte, crc_loop, get_crc}
use thkvs.Crc.Bits.{
  xor-half, xor_parity, xor-zero, xor_comm, xor_interchange, xor_fields, xor-lt, xor-byte, and-ff,
}

-- The polynomial, if the bit that is shifted out is set.
unfoldable pub feedback : ℕ → ℕ
feedback zero = 0
feedback (suc bit) = 0xedb8_8320

unfoldable pub shift_bit : ℕ → ℕ
unfolding feedback
shift_bit x = bit_xor (x / 2) (feedback (x % 2))

unfoldable pub shift_bits : ℕ → ℕ → ℕ
unfolding shift_bit
shift_bits zero x = x
shift_bits (suc n) x = shift_bits n (shift_bit x)

-- The reference: feed each byte into the low bits and shift eight times.
unfoldable pub reference_loop : ℕ → Text → ℕ
unfolding shift_bits
reference_loop crc [] = crc
reference_loop crc (b ∷ buf) = reference_loop (shift_bits 8 (bit_xor crc b)) buf

feedback-xor :
    (x y : ℕ) → x < 2 → y < 2 → feedback ((x + y) % 2) ≡ bit_xor (feedback x) (feedback y)
unfolding feedback
feedback-xor zero zero p q = refl
feedback-xor zero (suc zero) p q = refl
feedback-xor (suc zero) zero p q = refl
feedback-xor (suc zero) (suc zero) p q = refl
feedback-xor (suc (suc x)) y p q = absurd (omega arith)
feedback-xor x (suc (suc y)) p q = absurd (omega arith)

-- The shift is linear over exclusive or.
shift_bit-xor : (x y : ℕ) → shift_bit (bit_xor x y) ≡ bit_xor (shift_bit x) (shift_bit y)
unfolding shift_bit
shift_bit-xor x y =
    let low : bit_xor x y % 2 ≡ (x % 2 + y % 2) % 2 = omega (arith, xor_parity x y) in
    rw (xor-half x y, low, feedback-xor (x % 2) (y % 2) (omega arith) (omega arith))
      (xor_interchange (x / 2) (y / 2) (feedback (x % 2)) (feedback (y % 2)))

shift_bits-xor :
    (n x y : ℕ) → shift_bits n (bit_xor x y) ≡ bit_xor (shift_bits n x) (shift_bits n y)
unfolding shift_bits
shift_bits-xor zero x y = refl
shift_bits-xor (suc n) x y = rw (shift_bit-xor x y) (shift_bits-xor n (shift_bit x) (shift_bit y))

-- High bits only move down.
shift_bit-double : (x y : ℕ) → y ≡ 2 * x → shift_bit y ≡ x
unfolding shift_bit feedback
shift_bit-double x y e =
    let h : y / 2 ≡ x = omega arith in let l : y % 2 ≡ 0 = omega arith in rw (h, l, xor-zero x)

shift_byte-high : (x : ℕ) → shift_bits 8 (x * 2 ^ 8) ≡ x
unfolding shift_bits
shift_byte-high x = rw (
  shift_bit-double (x * 2 ^ 7) (x * 2 ^ 8) (omega arith),
  shift_bit-double (x * 2 ^ 6) (x * 2 ^ 7) (omega arith),
  shift_bit-double (x * 2 ^ 5) (x * 2 ^ 6) (omega arith),
  shift_bit-double (x * 2 ^ 4) (x * 2 ^ 5) (omega arith),
  shift_bit-double (x * 2 ^ 3) (x * 2 ^ 4) (omega arith),
  shift_bit-double (x * 2 ^ 2) (x * 2 ^ 3) (omega arith),
  shift_bit-double (x * 2 ^ 1) (x * 2 ^ 2) (omega arith),
  shift_bit-double x (x * 2 ^ 1) (omega arith),
)

-- The entries from the index `i` on are their indices shifted through eight bits.
entries_match : ℕ → List ℕ → Bool
entries_match i [] = true
entries_match i (v ∷ vs) = v == shift_bits 8 i && entries_match (suc i) vs

get_or-shift_bits :
    (vs : List ℕ) (i j : ℕ)
    → entries_match i vs ≡ true
    → j < length vs
    → get_or vs j 0 ≡ shift_bits 8 (i + j)
unfolding entries_match
get_or-shift_bits [] i j m l = absurd (ground arith)
get_or-shift_bits (v ∷ vs) i zero m l = let e : i + 0 ≡ i = omega arith in rw e (ground arith)
get_or-shift_bits (v ∷ vs) i (suc j) m l =
    let e : i + suc j ≡ suc i + j = omega arith in
    rw e (get_or-shift_bits vs (suc i) j (ground arith) (omega arith))

table_matches : entries_match 0 table ≡ true
unfolding entries_match table shift_bits
table_matches = refl

-- Each entry of the table is its index shifted through eight bits.
table_entry : (x : ℕ) → x < 256 → get_or table x 0 ≡ shift_bits 8 x
unfolding table
table_entry x h = get_or-shift_bits table 0 x table_matches h ∙ ap (shift_bits 8) (omega arith)

crc_byte-shift_bits : (crc b : ℕ) → b < 256 → crc_byte crc b ≡ shift_bits 8 (bit_xor crc b)
unfolding crc_byte
crc_byte-shift_bits crc b h =
    let x : ℕ = bit_xor crc b in
    let high : x / 2 ^ 8 ≡ crc / 2 ^ 8 = xor-byte crc b h in
    let split : x ≡ bit_xor (x / 2 ^ 8 * 2 ^ 8) (x % 256) =
      omega (arith, xor_fields 8 (x / 2 ^ 8) (x % 256) (omega arith)) in
    rw (and-ff x, table_entry (x % 256) (omega arith), ← high)
      (xor_comm (shift_bits 8 (x % 256)) (x / 2 ^ 8)
        ∙ ap (λ (t : ℕ). bit_xor t (shift_bits 8 (x % 256))) (sym (shift_byte-high (x / 2 ^ 8)))
        ∙ sym (shift_bits-xor 8 (x / 2 ^ 8 * 2 ^ 8) (x % 256))
        ∙ ap (shift_bits 8) (sym split))

crc_loop-reference :
    (crc : ℕ) (buf : Text) → All (λ b. b < 256) buf → crc_loop crc buf ≡ reference_loop crc buf
unfolding crc_loop reference_loop
crc_loop-reference crc [] h = refl
crc_loop-reference crc (b ∷ buf) h =
    rw (crc_byte-shift_bits crc b h.0) (crc_loop-reference (shift_bits 8 (bit_xor crc b)) buf h.1)

-- The hash of a string.
unfoldable pub reference_crc : Text → ℕ
unfolding reference_loop
reference_crc [] = 0xffff_ffff
reference_crc (b ∷ buf) = bit_xor (reference_loop 0 (b ∷ buf)) 0xffff_ffff

-- The table-driven hash of a string of bytes is the bitwise one: no byte for a string with none,
-- the polynomial shifted over every bit for any other.
pub get_crc-reference : (str : Text) → All (λ b. b < 256) str → get_crc str ≡ reference_crc str
unfolding get_crc reference_crc
get_crc-reference [] h = refl
get_crc-reference (b ∷ buf) h = ground (arith, crc_loop-reference 0 (b ∷ buf) h)

feedback-lt : (x : ℕ) → feedback x < 2 ^ 32
unfolding feedback
feedback-lt zero = omega arith
feedback-lt (suc x) = omega arith

shift_bits-lt : (n x : ℕ) → x < 2 ^ 32 → shift_bits n x < 2 ^ 32
unfolding shift_bits
shift_bits-lt zero x h = h
shift_bits-lt (suc n) x h =
    shift_bits-lt n (shift_bit x)
      (unfold shift_bit in xor-lt 32 (x / 2) (feedback (x % 2)) (omega arith) (feedback-lt (x % 2)))

reference_loop-lt :
    (crc : ℕ) (buf : Text) → crc < 2 ^ 32 → All (λ b. b < 256) buf → reference_loop crc buf < 2 ^ 32
unfolding reference_loop
reference_loop-lt crc [] h p = h
reference_loop-lt crc (b ∷ buf) h p =
    reference_loop-lt (shift_bits 8 (bit_xor crc b)) buf
      (shift_bits-lt 8 (bit_xor crc b) (xor-lt 32 crc b h (omega (arith, p.0)))) p.1

reference_crc-lt : (str : Text) → All (λ b. b < 256) str → reference_crc str < 2 ^ 32
unfolding reference_crc
reference_crc-lt [] h = omega arith
reference_crc-lt (b ∷ buf) h =
    xor-lt 32 (reference_loop 0 (b ∷ buf)) 0xffff_ffff
      (reference_loop-lt 0 (b ∷ buf) (omega arith) h) (omega arith)

-- The hash of a string of bytes fits an `unsigned`.
pub get_crc-lt : (str : Text) → All (λ b. b < 256) str → get_crc str < 2 ^ 32
get_crc-lt str h = rw (get_crc-reference str h) (reference_crc-lt str h)
