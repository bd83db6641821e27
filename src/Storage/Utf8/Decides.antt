-- ===== src/Storage/Utf8/Decides.antt =====
-- The loop accepts exactly the texts of the specification.
use watchlist.Prelude.{
  ℕ, zero, suc, ◌+◌, ◌*◌, ◌/◌, ◌%◌, ◌≤◌, ◌<◌, Bool, true, Bool-cases, [], ◌∷◌, ◌++◌, ◌≡◌, refl, ap,
  ◌∙◌, inl, inr, ◌↔◌, arith, length, length-append, ltb, Bytes,
}
use watchlist.Storage.Utf8.{ascii, multi, classify, utf8_round, utf8_loop, is_valid_utf8}
use watchlist.Storage.Utf8.Bits.{classify_lem}
use watchlist.Storage.Utf8.Spec.{IsScalar, encode, IsUtf8, empty, scalar}
use watchlist.Storage.Utf8.Rounds.{
  AreBytes, encode_two, encode_three, encode_four, round_two, round_three, round_four,
}
use watchlist.Storage.Utf8.Sound.{utf8_loop-IsUtf8}

abbrev Accepts : (Bytes → Bool) → Bytes → Type 0
Accepts go [] = ⊥
Accepts go (x ∷ rest) = utf8_round go (classify x) rest ≡ true

module _ (go : Bytes → Bool) (cp : ℕ) where
  Accepts-one : (rest : Bytes) → cp < 0x80 → go rest ≡ true → Accepts go (encode cp ++ rest)
  unfolding utf8_round
  Accepts-one rest h g =
      let e : encode cp ≡ cp ∷ [] = ground arith in
      let k : classify cp ≡ ascii = classify_lem cp (omega arith) ∙ ground arith in rw (e, k) g

  Accepts-two :
      (rest : Bytes) → 0x80 ≤ cp → cp < 0x800 → go rest ≡ true → Accepts go (encode cp ++ rest)
  Accepts-two rest lo hi g =
      let x : ℕ = 0xc0 + cp / 64 in
      let k : classify x ≡ multi 1 (cp / 64) = classify_lem x (omega arith) ∙ ground arith in
      let again : cp / 64 * 64 + (0x80 + cp % 64) % 64 ≡ cp = omega arith in
      rw (encode_two cp lo hi, k)
        (round_two go (cp / 64) (0x80 + cp % 64) rest (omega arith) (omega arith)
          ∙ rw again (ground arith))

  Accepts-three :
      (rest : Bytes)
      → 0x800 ≤ cp
      → cp < 0x10000
      → IsScalar cp
      → go rest ≡ true
      → Accepts go (encode cp ++ rest)
  Accepts-three rest lo hi s g =
      let x : ℕ = 0xe0 + cp / 4096 in
      let a : ℕ = 0x80 + cp / 64 % 64 in
      let b : ℕ = 0x80 + cp % 64 in
      let k : classify x ≡ multi 2 (cp / 4096) = classify_lem x (omega arith) ∙ ground arith in
      let again : (cp / 4096 * 64 + a % 64) * 64 + b % 64 ≡ cp = omega arith in
      rw (encode_three cp lo hi, k)
        (round_three go (cp / 4096) a b rest (omega arith) (omega arith) (omega arith)
          ∙ rw again (ground arith))

  Accepts-four :
      (rest : Bytes)
      → 0x10000 ≤ cp
      → cp ≤ 0x10ffff
      → IsScalar cp
      → go rest ≡ true
      → Accepts go (encode cp ++ rest)
  Accepts-four rest lo hi s g =
      let x : ℕ = 0xf0 + cp / 262144 in
      let a : ℕ = 0x80 + cp / 4096 % 64 in
      let b : ℕ = 0x80 + cp / 64 % 64 in
      let c : ℕ = 0x80 + cp % 64 in
      let k : classify x ≡ multi 3 (cp / 262144) = classify_lem x (omega arith) ∙ ground arith in
      let again : ((cp / 262144 * 64 + a % 64) * 64 + b % 64) * 64 + c % 64 ≡ cp = omega arith in
      rw (encode_four cp lo, k)
        (round_four go (cp / 262144) a b c rest (omega arith) (omega arith) (omega arith)
            (omega arith)
          ∙ rw again (ground arith))

  Accepts-encode : (rest : Bytes) → IsScalar cp → go rest ≡ true → Accepts go (encode cp ++ rest)
  Accepts-encode rest s g = elim (Bool-cases (ltb cp 0x80)) [
    | inl a ↦ Accepts-one rest (ground arith) g
    | inr a ↦ elim (Bool-cases (ltb cp 0x800)) [
      | inl b ↦ Accepts-two rest (ground arith) (ground arith) g
      | inr b ↦ elim (Bool-cases (ltb cp 0x10000)) [
        | inl c ↦ Accepts-three rest (ground arith) (ground arith) s g
        | inr c ↦ Accepts-four rest (ground arith) (ground arith) s g
      ]
    ]
  ]

length-encode : (cp : ℕ) → 1 ≤ length (encode cp)
length-encode cp = ground arith

Accepts-utf8_loop :
    (fuel : ℕ) (text : Bytes) → Accepts (utf8_loop fuel) text → utf8_loop (suc fuel) text ≡ true
unfolding utf8_loop
Accepts-utf8_loop fuel [] h = absurd h
Accepts-utf8_loop fuel (x ∷ rest) h = h

IsUtf8-utf8_loop :
    (fuel : ℕ) {text : Bytes} → length text ≤ fuel → IsUtf8 text → utf8_loop fuel text ≡ true
unfolding utf8_loop
IsUtf8-utf8_loop fuel l empty = refl
IsUtf8-utf8_loop zero {text} l (scalar {rest = rest} cp s e u) =
    let sizes : length text ≡ length (encode cp) + length rest =
      ap length e ∙ length-append (encode cp) rest in
    absurd (omega (arith, length-encode cp))
IsUtf8-utf8_loop (suc fuel) {text} l (scalar {rest = rest} cp s e u) =
    let sizes : length text ≡ length (encode cp) + length rest =
      ap length e ∙ length-append (encode cp) rest in
    let later : utf8_loop fuel rest ≡ true =
      IsUtf8-utf8_loop fuel (omega (arith, length-encode cp)) u in
    rw e
      (Accepts-utf8_loop fuel (encode cp ++ rest) (Accepts-encode (utf8_loop fuel) cp rest s later))

-- A string of bytes is accepted exactly when it is a sequence of encoded Unicode scalar values, each
-- in its shortest form.
pub is_valid_utf8_iff :
    (value : Bytes) → AreBytes value → (is_valid_utf8 value ≡ true) ↔ IsUtf8 value
unfolding is_valid_utf8
is_valid_utf8_iff value b =
    (utf8_loop-IsUtf8 (length value) value b, IsUtf8-utf8_loop (length value) (omega arith))
