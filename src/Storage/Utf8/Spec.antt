-- ===== src/Storage/Utf8/Spec.antt =====
-- UTF-8 as RFC 3629 has it: texts are sequences of encoded Unicode scalar values.
use watchlist.Prelude.{
  ℕ, ◌+◌, ◌/◌, ◌%◌, ◌≤◌, ◌<◌, [], ◌∷◌, ◌++◌, ◌≡◌, ◌⊎◌, ltb, if◌then◌else◌, Bytes,
}

abbrev pub IsScalar : ℕ → Type 0
IsScalar cp = (cp < 0xd800) ⊎ ((0xe000 ≤ cp) × (cp ≤ 0x10ffff))

abbrev pub tail_byte : ℕ → ℕ
tail_byte n = 0x80 + n % 64

-- The shortest sequence for a code point.
abbrev pub encode : ℕ → Bytes
encode cp =
    if ltb cp 0x80
    then cp ∷ []
    else if ltb cp 0x800
    then (0xc0 + cp / 64) ∷ tail_byte cp ∷ []
    else if ltb cp 0x10000
    then (0xe0 + cp / 4096) ∷ tail_byte (cp / 64) ∷ tail_byte cp ∷ []
    else (0xf0 + cp / 262144) ∷ tail_byte (cp / 4096) ∷ tail_byte (cp / 64) ∷ tail_byte cp ∷ []

pub data IsUtf8 : Bytes → Type 0 where
  empty : IsUtf8 []
  scalar :
      {text rest : Bytes} (cp : ℕ)
      → IsScalar cp
      → text ≡ encode cp ++ rest
      → IsUtf8 rest
      → IsUtf8 text
