-- ===== src/Storage/Address/Ipv6.antt =====
-- `CountIpv6Parts` of src/Utils/Storage/SQLiteDatabase.cpp: the groups between colons.
pub mod Compression
use watchlist.Prelude.{
  ℕ, zero, suc, ◌+◌, ◌<◌, Bool, true, false, not, ◌&&◌, ◌||◌, Option, none, some, [], ◌∷◌, ◌++◌,
  ◌≡◌, ◌≢◌, ◌↔◌, ◌⊎◌, inl, inr, refl, sym, ap, ◌∙◌, arith, Bool-cases, length, length-append, ◌==◌,
  if◌then◌else◌, Bytes, all_of, is_empty, is_digit, is_xdigit,
}
use watchlist.Storage.Address.{
  cut, contains, is_octet, is_valid_ipv4, is_hex_group, part_count, ipv6_loop, count_ipv6_parts,
}
use watchlist.Storage.Address.Pieces.{
  IsParts, single, more, contains-append, WasCut, cut-WasCut, cut-without, cut-append,
}
use watchlist.Storage.Address.Decides.{contains-all_of, is_valid_ipv4-IsParts}

-- Groups of one to four hexadecimal digits with colons between them; an IPv4 literal may stand for the
-- last two where it is allowed.
pub data IsGroups (allow_ipv4 : Bool) : ℕ → Bytes → Type 0 where
  group : {text : Bytes} → is_hex_group text ≡ true → IsGroups allow_ipv4 1 text
  dotted :
      {text : Bytes} → allow_ipv4 ≡ true → is_valid_ipv4 text ≡ true → IsGroups allow_ipv4 2 text
  longer :
      {n : ℕ} {text : Bytes} (part rest : Bytes)
      → is_hex_group part ≡ true
      → IsGroups allow_ipv4 n rest
      → text ≡ part ++ (b':' ∷ rest)
      → IsGroups allow_ipv4 (suc n) text

pub hex_group-free :
    (part : Bytes)
    → is_hex_group part ≡ true
    → (contains b':' part ≡ false) × (contains b'.' part ≡ false) × (is_empty part ≡ false)
unfolding is_hex_group
hex_group-free part h = (
  contains-all_of b':' is_xdigit part (λ c d. unfold is_xdigit is_digit in ground arith)
      (ground arith),
  contains-all_of b'.' is_xdigit part (λ c d. unfold is_xdigit is_digit in ground arith)
      (ground arith),
  ground arith,
)

octets-free : (n : ℕ) (text : Bytes) → IsParts b'.' is_octet n text → contains b':' text ≡ false
unfolding is_octet contains
octets-free n text (single t) =
    contains-all_of b':' is_digit text (λ c d. unfold is_digit in ground arith) (ground arith)
octets-free n text (more part rest t p e) =
    let here : contains b':' part ≡ false =
      contains-all_of b':' is_digit part (λ c d. unfold is_digit in ground arith) (ground arith) in
    let later : contains b':' rest ≡ false = octets-free _ rest p in
    ap (contains b':') e ∙ contains-append b':' part (b'.' ∷ rest) ∙ ground (arith, here, later)

dots_in : (text : Bytes) → IsParts b'.' is_octet 4 text → contains b'.' text ≡ true
unfolding contains
dots_in text (more part rest t p e) =
    ap (contains b'.') e ∙ contains-append b'.' part (b'.' ∷ rest) ∙ ground arith

pub ipv4-free :
    (text : Bytes)
    → is_valid_ipv4 text ≡ true
    → (contains b':' text ≡ false) × (contains b'.' text ≡ true) × (is_empty text ≡ false)
ipv4-free text v =
    let p = (is_valid_ipv4-IsParts text).0 v in
    (octets-free 4 text p, dots_in text p, nonempty text (dots_in text p))
  where
    nonempty : (t : Bytes) → contains b'.' t ≡ true → is_empty t ≡ false
    nonempty [] h = absurd (unfold contains in cc)
    nonempty (c ∷ cs) h = refl

part_count-some :
    (allow is_last : Bool) (part : Bytes) (k : ℕ)
    → part_count allow is_last part ≡ some k
    → ((is_hex_group part ≡ true) × (k ≡ 1))
      ⊎ ((allow ≡ true) × (is_last ≡ true) × (is_valid_ipv4 part ≡ true) × (k ≡ 2))
unfolding part_count
part_count-some allow is_last part k h = elim (Bool-cases (contains b'.' part)) [
  | inl dot ↦ inr (ground (arith, h), ground (arith, h), ground (arith, h), ground (arith, h))
  | inr no_dot ↦ inl (ground (arith, h), ground (arith, h))
]

part_count-hex :
    (allow is_last : Bool) (part : Bytes)
    → is_hex_group part ≡ true
    → part_count allow is_last part ≡ some 1
unfolding part_count
part_count-hex allow is_last part h =
    let (_, dot, empty) = hex_group-free part h in ground (arith, empty, dot, h)

part_count-dotted :
    (allow : Bool) (part : Bytes)
    → allow ≡ true
    → is_valid_ipv4 part ≡ true
    → part_count allow true part ≡ some 2
unfolding part_count
part_count-dotted allow part a v =
    let (_, dot, empty) = ipv4-free part v in ground (arith, empty, dot, v, a)

-- A round, after the text was cut.
ipv6_round : ℕ → Bool → ℕ → Bytes × Option Bytes → Option ℕ
ipv6_round fuel allow count (part, rest) = elim rest [
  | none ↦ elim (part_count allow true part) [ none ↦ none | some k ↦ some (count + k) ]
  | some behind ↦ elim (part_count allow false part) [
    | none ↦ none
    | some k ↦ ipv6_loop fuel allow (count + k) behind
  ]
]

ipv6_round_lem :
    (fuel : ℕ) (allow : Bool) (count : ℕ) (text : Bytes)
    → ipv6_loop (suc fuel) allow count text ≡ ipv6_round fuel allow count (cut b':' text)
unfolding ipv6_loop ipv6_round
ipv6_round_lem fuel allow count text = refl

pub IsGroups-ipv6_loop :
    (fuel : ℕ) (allow : Bool) (count n : ℕ) (text : Bytes)
    → length text < fuel
    → IsGroups allow n text
    → ipv6_loop fuel allow count text ≡ some (count + n)
unfolding ipv6_round
IsGroups-ipv6_loop zero allow count n text l g = absurd (omega arith)
IsGroups-ipv6_loop (suc fuel) allow count n text l (group h) =
    ipv6_round_lem fuel allow count text
    ∙ ap (ipv6_round fuel allow count) (cut-without b':' text (hex_group-free text h).0)
    ∙ rw (ipv6_round, part_count-hex allow true text h) refl
IsGroups-ipv6_loop (suc fuel) allow count n text l (dotted a v) =
    ipv6_round_lem fuel allow count text
    ∙ ap (ipv6_round fuel allow count) (cut-without b':' text (ipv4-free text v).0)
    ∙ rw (ipv6_round, part_count-dotted allow text a v) refl
IsGroups-ipv6_loop (suc fuel) allow count n text l (longer {n = m} part rest h g e) =
    let cut_here : cut b':' text ≡ (part, some rest) =
      ap (cut b':') e ∙ cut-append b':' part rest (hex_group-free part h).0 in
    let size : length text ≡ length part + suc (length rest) =
      ap length e ∙ length-append part (b':' ∷ rest) in
    ipv6_round_lem fuel allow count text
    ∙ ap (ipv6_round fuel allow count) cut_here
    ∙ rw (ipv6_round, part_count-hex allow false part h)
        (IsGroups-ipv6_loop fuel allow (count + 1) m rest (omega arith) g ∙ ap some (omega arith))

abbrev Counted : Bool → ℕ → Bytes → ℕ → Type 0
Counted allow count text m = (n : ℕ) × (m ≡ count + n) × IsGroups allow n text

pub ipv6_loop-IsGroups :
    (fuel : ℕ) (allow : Bool) (count m : ℕ) (text : Bytes)
    → ipv6_loop fuel allow count text ≡ some m
    → (n : ℕ) × (m ≡ count + n) × IsGroups allow n text
ipv6_loop-IsGroups zero allow count m text h = absurd (unfold ipv6_loop in cc)
ipv6_loop-IsGroups (suc fuel) allow count m text h =
    split (cut b':' text) (cut-WasCut b':' text)
      (λ c behind. ipv6_loop-IsGroups fuel allow c m behind)
      (sym (ipv6_round_lem fuel allow count text) ∙ h)
  where
    at_end :
        (part : Bytes) (o : Option ℕ)
        → text ≡ part
        → part_count allow true part ≡ o
        → elim o [ none ↦ none | some k ↦ some (count + k) ] ≡ some m
        → Counted allow count text m
    at_end part none e p h = absurd cc
    at_end part (some k) e p h = elim (part_count-some allow true part k p) [
      | inl (hex, one) ↦ (1, ground (arith, h, one), rw e (group hex))
      | inr (a, _, v, two) ↦ (2, ground (arith, h, two), rw e (dotted a v))
    ]

    inside :
        (part behind : Bytes) (o : Option ℕ)
        → text ≡ part ++ (b':' ∷ behind)
        → ((c : ℕ) (b : Bytes) → ipv6_loop fuel allow c b ≡ some m → Counted allow c b m)
        → part_count allow false part ≡ o
        → elim o [ none ↦ none | some k ↦ ipv6_loop fuel allow (count + k) behind ] ≡ some m
        → Counted allow count text m
    inside part behind none e later p h = absurd cc
    inside part behind (some k) e later p h = elim (part_count-some allow false part k p) [
      | inl (hex, one) ↦
          let (n, size, g) = later (count + k) behind h in
          (suc n, omega arith, longer part behind hex g e)
      | inr (a, no', v, two) ↦ absurd cc
    ]

    split :
        (x : Bytes × Option Bytes)
        → WasCut b':' text x
        → ((c : ℕ) (b : Bytes) → ipv6_loop fuel allow c b ≡ some m → Counted allow c b m)
        → ipv6_round fuel allow count x ≡ some m
        → Counted allow count text m
    split (part, none) w later h =
        at_end part (part_count allow true part) w.0 refl (unfold ipv6_round in h)
    split (part, some behind) w later h =
        inside part behind (part_count allow false part) w.0 later refl (unfold ipv6_round in h)
