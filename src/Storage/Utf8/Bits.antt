-- ===== src/Storage/Utf8/Bits.antt =====
-- The masks and the shift of the decoder, as arithmetic.
use Prim.Native.Nat.{bit_and, bit_or, bit_or-bitwise, digits}
use watchlist.Prelude.{
  ℕ, zero, suc, ◌+◌, ◌*◌, ◌/◌, ◌%◌, ◌≤◌, ◌<◌, max, Bool, true, false, ◌&&◌, ◌≡◌, refl, ◌∙◌, arith,
  leb, ◌==◌, if◌then◌else◌, within,
}
use watchlist.Storage.Utf8.{Lead, ascii, multi, bad, classify}

every_below : ℕ → (ℕ → Bool) → Bool
every_below zero p = true
every_below (suc n) p = p n && every_below n p

every_below-get : (n : ℕ) (p : ℕ → Bool) (x : ℕ) → every_below n p ≡ true → x < n → p x ≡ true
unfolding every_below
every_below-get zero p x h lt = absurd (omega arith)
every_below-get (suc n) p x h lt = ground (arith, every_below-get n p x)

abbrev same_bool : Bool → Bool → Bool
same_bool true b = b
same_bool false true = false
same_bool false false = true

same_bool-eq : (a b : Bool) → same_bool a b ≡ true → a ≡ b
same_bool-eq a b h = ground arith

two_table : every_below 256 (λ x. same_bool (bit_and x 0xe0 == 0xc0) (within 0xc0 0xdf x)) ≡ true
unfolding every_below
two_table = refl

three_table : every_below 256 (λ x. same_bool (bit_and x 0xf0 == 0xe0) (within 0xe0 0xef x)) ≡ true
unfolding every_below
three_table = refl

four_table : every_below 256 (λ x. same_bool (bit_and x 0xf8 == 0xf0) (within 0xf0 0xf7 x)) ≡ true
unfolding every_below
four_table = refl

tail_table : every_below 256 (λ x. same_bool (bit_and x 0xc0 == 0x80) (within 0x80 0xbf x)) ≡ true
unfolding every_below
tail_table = refl

mask_table :
    every_below 256 (λ x.
      (bit_and x 0x1f == x % 32)
      && (bit_and x 0x0f == x % 16)
      && (bit_and x 0x07 == x % 8)
      && (bit_and x 0x3f == x % 64))
    ≡ true
unfolding every_below
mask_table = refl

pub mask_lem :
    (x : ℕ)
    → x < 256
    → (bit_and x 0x1f ≡ x % 32)
      × (bit_and x 0x0f ≡ x % 16)
      × (bit_and x 0x07 ≡ x % 8)
      × (bit_and x 0x3f ≡ x % 64)
mask_lem x h =
    let t =
      every_below-get 256
        (λ x.
          (bit_and x 0x1f == x % 32)
          && (bit_and x 0x0f == x % 16)
          && (bit_and x 0x07 == x % 8)
          && (bit_and x 0x3f == x % 64))
        x mask_table h in
    ground arith

pub tail_lem : (x : ℕ) → x < 256 → (bit_and x 0xc0 == 0x80) ≡ within 0x80 0xbf x
tail_lem x h = same_bool-eq _ _ (
    every_below-get 256 (λ x. same_bool (bit_and x 0xc0 == 0x80) (within 0x80 0xbf x)) x tail_table
      h)

two_lem : (x : ℕ) → x < 256 → (bit_and x 0xe0 == 0xc0) ≡ within 0xc0 0xdf x
two_lem x h = same_bool-eq _ _ (
    every_below-get 256 (λ x. same_bool (bit_and x 0xe0 == 0xc0) (within 0xc0 0xdf x)) x two_table
      h)

three_lem : (x : ℕ) → x < 256 → (bit_and x 0xf0 == 0xe0) ≡ within 0xe0 0xef x
three_lem x h = same_bool-eq _ _ (
    every_below-get 256 (λ x. same_bool (bit_and x 0xf0 == 0xe0) (within 0xe0 0xef x)) x three_table
      h)

four_lem : (x : ℕ) → x < 256 → (bit_and x 0xf8 == 0xf0) ≡ within 0xf0 0xf7 x
four_lem x h = same_bool-eq _ _ (
    every_below-get 256 (λ x. same_bool (bit_and x 0xf8 == 0xf0) (within 0xf0 0xf7 x)) x four_table
      h)

abbrev pub classify_range : ℕ → Lead
classify_range x =
    if leb x 0x7f
    then ascii
    else if within 0xc0 0xdf x
    then multi 1 (x % 32)
    else if within 0xe0 0xef x
    then multi 2 (x % 16)
    else if within 0xf0 0xf7 x
    then multi 3 (x % 8)
    else bad

pub classify_lem : (x : ℕ) → x < 256 → classify x ≡ classify_range x
unfolding classify
classify_lem x h =
    let (m1, m2, m3, m4) = mask_lem x h in
    rw (m1, m2, m3, two_lem x h, three_lem x h, four_lem x h) refl

-- One more binary digit, above a lemma for the lower ones.
abbrev or_digits : ℕ → ℕ → ℕ → ℕ
or_digits n a b = digits (λ b. b) max n a b

or_digits_enough : (n m a b : ℕ) → a ≤ n → a ≤ m → or_digits n a b ≡ or_digits m a b
or_digits_enough zero zero a b p q = refl
or_digits_enough zero (suc m) zero b p q = refl
or_digits_enough zero (suc m) (suc a) b p q = absurd (omega arith)
or_digits_enough (suc n) zero zero b p q = refl
or_digits_enough (suc n) zero (suc a) b p q = absurd (omega arith)
or_digits_enough (suc n) (suc m) zero b p q = refl
or_digits_enough (suc n) (suc m) (suc a) b p q =
    omega (arith, or_digits_enough n m (suc a / 2) (b / 2) (omega arith) (omega arith))

zero-bit_or : (b : ℕ) → bit_or 0 b ≡ b
zero-bit_or b = bit_or-bitwise 0 b

bit_or-halves : (a b : ℕ) → bit_or a b ≡ bit_or (a / 2) (b / 2) * 2 + max (a % 2) (b % 2)
bit_or-halves zero b = omega (arith, zero-bit_or b, zero-bit_or (b / 2))
bit_or-halves (suc a) b = omega (
  arith,
  bit_or-bitwise (suc a) b,
  bit_or-bitwise (suc a / 2) (b / 2),
  or_digits_enough a (suc a / 2) (suc a / 2) (b / 2) (omega arith) (omega arith),
)

bit_or-zero_below : (n a : ℕ) → a ≤ n → bit_or a 0 ≡ a
bit_or-zero_below n zero h = refl
bit_or-zero_below zero (suc a) h = absurd (omega arith)
bit_or-zero_below (suc n) (suc a) h =
    omega (arith, bit_or-halves (suc a) 0, bit_or-zero_below n (suc a / 2) (omega arith))

abbrev Adds : ℕ → Type 0
Adds w = (q r : ℕ) → r < w → bit_or (q * w) r ≡ q * w + r

Adds-one : Adds 1
Adds-one q r h =
    let e : r ≡ 0 = omega arith in
    let f : q * 1 ≡ q = omega arith in
    rw (e, f) (omega (arith, bit_or-zero_below q q (omega arith)))

Adds-double : (w : ℕ) → Adds w → Adds (w * 2)
Adds-double w h q r lt =
    let e : q * (w * 2) ≡ q * w * 2 = grind arith in
    let half : q * w * 2 / 2 ≡ q * w = omega arith in
    let even : q * w * 2 % 2 ≡ 0 = omega arith in
    rw e (bit_or-halves (q * w * 2) r ∙ rw (half, even, h q (r / 2) (omega arith)) (omega arith))

pub bit_or-shifted : (q r : ℕ) → r < 64 → bit_or (q * 64) r ≡ q * 64 + r
bit_or-shifted =
    Adds-double 32
      (Adds-double 16 (Adds-double 8 (Adds-double 4 (Adds-double 2 (Adds-double 1 Adds-one)))))
