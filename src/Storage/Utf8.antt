-- ===== src/Storage/Utf8.antt =====
-- `IsValidUtf8` of src/Utils/Storage/SQLiteDatabase.cpp. The index into the text is the suffix that is
-- still to be read. The loop goes on by one to four bytes a round, so that the length of the text is
-- fuel enough.
mod Bits
pub mod Spec
pub mod Rounds
mod Sound
pub mod Decides
use Prim.Native.Nat.{bit_and, bit_or}
use watchlist.Prelude.{
  ℕ, zero, suc, ◌*◌, ◌%◌, ◌^◌, Bool, true, false, not, ◌&&◌, ◌||◌, Option, none, some, [], ◌∷◌,
  length, drop, ltb, leb, ◌==◌, if◌then◌else◌, Bytes, within,
}

-- What the first byte of a sequence says: how many bytes follow, and the bits that it holds itself.
pub data Lead : Type 0 where
  ascii : Lead
  multi : ℕ → ℕ → Lead
  bad : Lead

unfoldable pub classify : ℕ → Lead
classify lead =
    if leb lead 0x7f
    then ascii
    else if bit_and lead 0xe0 == 0xc0
    then multi 1 (bit_and lead 0x1f)
    else if bit_and lead 0xf0 == 0xe0
    then multi 2 (bit_and lead 0x0f)
    else if bit_and lead 0xf8 == 0xf0
    then multi 3 (bit_and lead 0x07)
    else bad

-- `codePoint << 6` on `std::uint32_t`
abbrev pub shl6 : ℕ → ℕ
shl6 code_point = code_point * 64 % 2 ^ 32

-- The loop over the continuation bytes; the end of the text was ruled out before it.
unfoldable pub continue_sequence : ℕ → ℕ → Bytes → Option ℕ
continue_sequence zero code_point rest = some code_point
continue_sequence (suc k) code_point [] = none
continue_sequence (suc k) code_point (c ∷ rest) =
    if not (bit_and c 0xc0 == 0x80)
    then none
    else continue_sequence k (bit_or (shl6 code_point) (bit_and c 0x3f)) rest

abbrev pub minimum : ℕ → ℕ
minimum count = if count == 1 then 0x80 else if count == 2 then 0x800 else 0x10000

abbrev pub out_of_range : ℕ → ℕ → Bool
out_of_range count code_point =
    ltb code_point (minimum count) || ltb 0x10ffff code_point || within 0xd800 0xdfff code_point

-- One round of the outer loop; `go` is the rest of the loop.
pub utf8_round : (Bytes → Bool) → Lead → Bytes → Bool
unfolding continue_sequence
utf8_round go ascii rest = go rest
utf8_round go bad rest = false
utf8_round go (multi count bits) rest =
    if leb (suc (length rest)) count then false else elim (continue_sequence count bits rest) [
      | none ↦ false
      | some code_point ↦ if out_of_range count code_point then false else go (drop count rest)
    ]

unfoldable pub utf8_loop : ℕ → Bytes → Bool
unfolding classify utf8_round
utf8_loop fuel [] = true
utf8_loop zero (lead ∷ rest) = false
utf8_loop (suc fuel) (lead ∷ rest) = utf8_round (utf8_loop fuel) (classify lead) rest

unfoldable pub is_valid_utf8 : Bytes → Bool
unfolding utf8_loop
is_valid_utf8 value = utf8_loop (length value) value
