-- ===== src/Storage/Utf8/Sound.antt =====
-- What the loop accepts is UTF-8.
use mathlib.Core.Bool.{false≢true}
use watchlist.Prelude.{
  ℕ, zero, suc, ◌+◌, ◌*◌, ◌%◌, ◌≤◌, ◌<◌, Bool, true, ◌&&◌, [], ◌∷◌, ◌++◌, ◌≡◌, sym, ◌∙◌, arith,
  Bytes,
}
use watchlist.Storage.Utf8.{multi, classify, utf8_round, utf8_loop}
use watchlist.Storage.Utf8.Spec.{IsScalar, encode, IsUtf8, empty, scalar}
use watchlist.Storage.Utf8.Rounds.{
  AreBytes, is_tail, one, two, three, four, neither, kind, in_range, encode_two, encode_three,
  encode_four, continued, round_two, round_three, round_four,
}

-- A round that goes on has read one scalar value.
record ReadsScalar (go : Bytes → Bool) (text : Bytes) : Type 0 where
  cp : ℕ
  rest : Bytes
  is_scalar : IsScalar cp
  splits : text ≡ encode cp ++ rest
  goes_on : go rest ≡ true
  bytes_left : AreBytes rest

module _ (go : Bytes → Bool) (x : ℕ) where
  read_one : (rest : Bytes) → AreBytes rest → x < 0x80 → go rest ≡ true → ReadsScalar go (x ∷ rest)
  read_one rest b h g = record {
    cp = x;
    rest = rest;
    is_scalar = omega arith;
    splits = ground arith;
    goes_on = g;
    bytes_left = b;
  }

  read_two :
      (rest : Bytes)
      → AreBytes rest
      → 0xc0 ≤ x
      → x ≤ 0xdf
      → utf8_round go (multi 1 (x % 32)) rest ≡ true
      → ReadsScalar go (x ∷ rest)
  unfolding utf8_round
  read_two [] b lo hi h = absurd (ground arith)
  read_two (a ∷ r) b lo hi h =
      let p : ℕ = x % 32 * 64 + a % 64 in
      let test : continued go (is_tail a) 1 p r ≡ true =
        sym (round_two go (x % 32) a r (omega arith) b.0) ∙ h in
      let (s, least) = in_range 1 p (ground arith) in
      let tail : (0x80 ≤ a) × (a ≤ 0xbf) = ground arith in
      record {
        cp = p;
        rest = r;
        is_scalar = s;
        splits = rw (encode_two p (ground arith) (omega arith)) (ground arith);
        goes_on = ground arith;
        bytes_left = b.1;
      }

  read_three :
      (rest : Bytes)
      → AreBytes rest
      → 0xe0 ≤ x
      → x ≤ 0xef
      → utf8_round go (multi 2 (x % 16)) rest ≡ true
      → ReadsScalar go (x ∷ rest)
  unfolding utf8_round
  read_three [] b lo hi h = absurd (ground arith)
  read_three (a ∷ []) b lo hi h = absurd (ground arith)
  read_three (a ∷ c ∷ r) b lo hi h =
      let p : ℕ = (x % 16 * 64 + a % 64) * 64 + c % 64 in
      let test : continued go (is_tail a && is_tail c) 2 p r ≡ true =
        sym (round_three go (x % 16) a c r (omega arith) b.0 b.1.0) ∙ h in
      let (s, least) = in_range 2 p (ground arith) in
      let tail : (0x80 ≤ a) × (a ≤ 0xbf) × (0x80 ≤ c) × (c ≤ 0xbf) = ground arith in
      record {
        cp = p;
        rest = r;
        is_scalar = s;
        splits = rw (encode_three p least (omega arith)) (ground arith);
        goes_on = ground arith;
        bytes_left = b.1.1;
      }

  read_four :
      (rest : Bytes)
      → AreBytes rest
      → 0xf0 ≤ x
      → x ≤ 0xf7
      → utf8_round go (multi 3 (x % 8)) rest ≡ true
      → ReadsScalar go (x ∷ rest)
  unfolding utf8_round
  read_four [] b lo hi h = absurd (ground arith)
  read_four (a ∷ []) b lo hi h = absurd (ground arith)
  read_four (a ∷ c ∷ []) b lo hi h = absurd (ground arith)
  read_four (a ∷ c ∷ e ∷ r) b lo hi h =
      let p : ℕ = ((x % 8 * 64 + a % 64) * 64 + c % 64) * 64 + e % 64 in
      let test : continued go (is_tail a && is_tail c && is_tail e) 3 p r ≡ true =
        sym (round_four go (x % 8) a c e r (omega arith) b.0 b.1.0 b.1.1.0) ∙ h in
      let (s, least) = in_range 3 p (ground arith) in
      let tail : (0x80 ≤ a) × (a ≤ 0xbf) × (0x80 ≤ c) × (c ≤ 0xbf) × (0x80 ≤ e) × (e ≤ 0xbf) =
        ground arith in
      record {
        cp = p;
        rest = r;
        is_scalar = s;
        splits = rw (encode_four p least) (ground arith);
        goes_on = ground arith;
        bytes_left = b.1.1.1;
      }

  read_round :
      (rest : Bytes)
      → x < 256
      → AreBytes rest
      → utf8_round go (classify x) rest ≡ true
      → ReadsScalar go (x ∷ rest)
  unfolding utf8_round
  read_round rest hx b h = elim (kind x hx) [
    | one lt e ↦ read_one rest b lt (rw e at h)
    | two lo hi e ↦ read_two rest b lo hi (rw e at h)
    | three lo hi e ↦ read_three rest b lo hi (rw e at h)
    | four lo hi e ↦ read_four rest b lo hi (rw e at h)
    | neither e ↦ absurd (false≢true (rw e at h))
  ]

pub utf8_loop-IsUtf8 :
    (fuel : ℕ) (text : Bytes) → AreBytes text → utf8_loop fuel text ≡ true → IsUtf8 text
unfolding utf8_loop
utf8_loop-IsUtf8 fuel [] b h = empty
utf8_loop-IsUtf8 zero (x ∷ rest) b h = absurd (false≢true h)
utf8_loop-IsUtf8 (suc fuel) (x ∷ rest) b h =
    let r = read_round (utf8_loop fuel) x rest b.0 b.1 h in
    scalar r.cp r.is_scalar r.splits (utf8_loop-IsUtf8 fuel r.rest r.bytes_left r.goes_on)
