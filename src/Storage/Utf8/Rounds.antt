-- ===== src/Storage/Utf8/Rounds.antt =====
-- One round of the loop, in the arithmetic of code points.
use Prim.Native.Nat.{bit_and, bit_or}
use watchlist.Prelude.{
  ℕ, suc, ◌+◌, ◌*◌, ◌/◌, ◌%◌, ◌≤◌, ◌<◌, Bool, true, false, Bool-cases, not, ◌&&◌, none, [], ◌∷◌,
  ◌≡◌, refl, ◌∙◌, inl, inr, arith, ltb, leb, if◌then◌else◌, Bytes, within, All,
}
use watchlist.Storage.Utf8.{
  ascii, multi, bad, classify, shl6, continue_sequence, out_of_range, minimum, utf8_round,
}
use watchlist.Storage.Utf8.Bits.{classify_lem, mask_lem, tail_lem, bit_or-shifted}
use watchlist.Storage.Utf8.Spec.{IsScalar, encode}

-- Every number is a byte.
abbrev pub AreBytes : Bytes → Type 0
AreBytes = All (λ (b : ℕ). b < 256)

abbrev pub is_tail : ℕ → Bool
is_tail = within 0x80 0xbf

append_bits : (p c : ℕ) → p < 2000000 → c < 256 → bit_or (shl6 p) (bit_and c 0x3f) ≡ p * 64 + c % 64
append_bits p c hp hc =
    let e : shl6 p ≡ p * 64 = omega arith in
    let (_, _, _, m) = mask_lem c hc in rw (e, m) (bit_or-shifted p (c % 64) (omega arith))

continue_step :
    (k p c : ℕ) (rest : Bytes)
    → p < 2000000
    → c < 256
    → continue_sequence (suc k) p (c ∷ rest)
      ≡ (if is_tail c then continue_sequence k (p * 64 + c % 64) rest else none)
unfolding continue_sequence
continue_step k p c rest hp hc = rw (append_bits p c hp hc, tail_lem c hc) (ground arith)

pub data Kind (x : ℕ) : Type 0 where
  one : x < 0x80 → classify x ≡ ascii → Kind x
  two : 0xc0 ≤ x → x ≤ 0xdf → classify x ≡ multi 1 (x % 32) → Kind x
  three : 0xe0 ≤ x → x ≤ 0xef → classify x ≡ multi 2 (x % 16) → Kind x
  four : 0xf0 ≤ x → x ≤ 0xf7 → classify x ≡ multi 3 (x % 8) → Kind x
  neither : classify x ≡ bad → Kind x

pub kind : (x : ℕ) → x < 256 → Kind x
kind x h = elim (Bool-cases (leb x 0x7f)) [
  | inl a ↦ one (ground arith) (classify_lem x h ∙ rw a)
  | inr a ↦ elim (Bool-cases (within 0xc0 0xdf x)) [
    | inl b ↦ two (ground arith) (ground arith) (classify_lem x h ∙ rw (a, b))
    | inr b ↦ elim (Bool-cases (within 0xe0 0xef x)) [
      | inl c ↦ three (ground arith) (ground arith) (classify_lem x h ∙ rw (a, b, c))
      | inr c ↦ elim (Bool-cases (within 0xf0 0xf7 x)) [
        | inl d ↦ four (ground arith) (ground arith) (classify_lem x h ∙ rw (a, b, c, d))
        | inr d ↦ neither (classify_lem x h ∙ rw (a, b, c, d))
      ]
    ]
  ]
]

pub in_range : (count p : ℕ) → out_of_range count p ≡ false → IsScalar p × (minimum count ≤ p)
in_range count p h = (scalar_in (ltb p 0xd800) refl, ground arith)
  where
    scalar_in : (b : Bool) → ltb p 0xd800 ≡ b → IsScalar p
    scalar_in true e = inl (ground arith)
    scalar_in false e = inr (ground arith)

pub in_range-scalar : (count p : ℕ) → IsScalar p → minimum count ≤ p → out_of_range count p ≡ false
in_range-scalar count p s h = ground arith

-- The sequences of each length, in terms of the code point.
pub encode_two : (p : ℕ) → 0x80 ≤ p → p < 0x800 → encode p ≡ (0xc0 + p / 64) ∷ (0x80 + p % 64) ∷ []
encode_two p lo hi = ground arith

pub encode_three :
    (p : ℕ)
    → 0x800 ≤ p
    → p < 0x10000
    → encode p ≡ (0xe0 + p / 4096) ∷ (0x80 + p / 64 % 64) ∷ (0x80 + p % 64) ∷ []
encode_three p lo hi = ground arith

pub encode_four :
    (p : ℕ)
    → 0x10000 ≤ p
    → encode p
      ≡ (0xf0 + p / 262144) ∷ (0x80 + p / 4096 % 64) ∷ (0x80 + p / 64 % 64) ∷ (0x80 + p % 64) ∷ []
encode_four p lo = ground arith

abbrev pub continued : (Bytes → Bool) → Bool → ℕ → ℕ → Bytes → Bool
continued go tails count p r = tails && not (out_of_range count p) && go r

module _ (go : Bytes → Bool) (p : ℕ) where
  pub round_two :
      (a : ℕ) (r : Bytes)
      → p < 32
      → a < 256
      → utf8_round go (multi 1 p) (a ∷ r) ≡ continued go (is_tail a) 1 (p * 64 + a % 64) r
  unfolding utf8_round
  round_two a r hp ha =
      rw (continue_step 0 p a r (omega arith) ha, utf8_round)
        (unfold continue_sequence in ground arith)

  pub round_three :
      (a b : ℕ) (r : Bytes)
      → p < 16
      → a < 256
      → b < 256
      → utf8_round go (multi 2 p) (a ∷ b ∷ r)
        ≡ continued go (is_tail a && is_tail b) 2 ((p * 64 + a % 64) * 64 + b % 64) r
  unfolding utf8_round
  round_three a b r hp ha hb =
      rw
        (
          continue_step 1 p a (b ∷ r) (omega arith) ha,
          continue_step 0 (p * 64 + a % 64) b r (omega arith) hb,
          utf8_round,
        )
        (unfold continue_sequence in ground arith)

  pub round_four :
      (a b c : ℕ) (r : Bytes)
      → p < 8
      → a < 256
      → b < 256
      → c < 256
      → utf8_round go (multi 3 p) (a ∷ b ∷ c ∷ r)
        ≡ continued go
            (is_tail a && is_tail b && is_tail c)
            3
            (((p * 64 + a % 64) * 64 + b % 64) * 64 + c % 64)
            r
  unfolding utf8_round
  round_four a b c r hp ha hb hc =
      rw
        (
          continue_step 2 p a (b ∷ c ∷ r) (omega arith) ha,
          continue_step 1 (p * 64 + a % 64) b (c ∷ r) (omega arith) hb,
          continue_step 0 ((p * 64 + a % 64) * 64 + b % 64) c r (omega arith) hc,
          utf8_round,
        )
        (unfold continue_sequence in ground arith)
