-- ===== src/Storage/Address.antt =====
-- The address tests of src/Utils/Storage/SQLiteDatabase.cpp. A loop over the parts of a text goes on
-- with the text behind the separator (`find` and `substr`), and has one round for each part, so that
-- one more than the length of the text is fuel enough.
pub mod Pieces
pub mod Spec
pub mod Decides
pub mod Ipv6
use watchlist.Prelude.{
  ℕ, zero, suc, ◌+◌, ◌-◌, ◌*◌, Bool, true, false, not, ◌&&◌, ◌||◌, Option, none, some, List, [],
  ◌∷◌, length, ltb, ◌==◌, if◌then◌else◌, is_empty, Bytes, all_of, is_digit, is_xdigit, is_alnum,
}

-- The text before the first separator, and the text behind it if there is one.
unfoldable pub cut : ℕ → Bytes → Bytes × Option Bytes
cut sep [] = ([], none)
cut sep (c ∷ cs) =
    let (part, rest) = cut sep cs in if c == sep then ([], some cs) else (c ∷ part, rest)

unfoldable pub decimal : ℕ → Bytes → ℕ
decimal value [] = value
decimal value (digit ∷ part) = decimal (value * 10 + (digit - b'0')) part

-- The two tests of a round, in the order of the code.
unfoldable pub is_octet : Bytes → Bool
unfolding decimal all_of is_digit
is_octet part =
    not (is_empty part || ltb 3 (length part) || not (all_of is_digit part))
    && not (ltb 255 (decimal 0 part))

-- The number of parts, or `none` for a `return false`.
unfoldable pub ipv4_parts : ℕ → ℕ → Bytes → Option ℕ
unfolding cut is_octet
ipv4_parts zero parts address = none
ipv4_parts (suc fuel) parts address =
    let (part, rest) = cut b'.' address in
    if not (is_octet part)
    then none
    else elim rest [ none ↦ some (suc parts) | some behind ↦ ipv4_parts fuel (suc parts) behind ]

abbrev pub is_some_of : ℕ → Option ℕ → Bool
is_some_of n none = false
is_some_of n (some k) = k == n

unfoldable pub is_valid_ipv4 : Bytes → Bool
unfolding ipv4_parts
is_valid_ipv4 address = is_some_of 4 (ipv4_parts (suc (length address)) 0 address)

unfoldable pub contains : ℕ → Bytes → Bool
contains sep [] = false
contains sep (c ∷ cs) = c == sep || contains sep cs

unfoldable pub is_hex_group : Bytes → Bool
unfolding all_of is_xdigit
is_hex_group part = not (is_empty part || ltb 4 (length part) || not (all_of is_xdigit part))

-- What a part adds to the count: `none` for a `return -1`.
unfoldable pub part_count : Bool → Bool → Bytes → Option ℕ
unfolding contains is_valid_ipv4 is_hex_group
part_count allow_ipv4 is_last part =
    if is_empty part
    then none
    else if contains b'.' part
    then (if not allow_ipv4 || not is_last || not (is_valid_ipv4 part) then none else some 2)
    else if not (is_hex_group part)
    then none
    else some 1

unfoldable pub ipv6_loop : ℕ → Bool → ℕ → Bytes → Option ℕ
unfolding cut part_count
ipv6_loop zero allow_ipv4 count sequence = none
ipv6_loop (suc fuel) allow_ipv4 count sequence =
    let (part, rest) = cut b':' sequence in
    elim rest [
      | none ↦ elim (part_count allow_ipv4 true part) [ none ↦ none | some k ↦ some (count + k) ]
      | some behind ↦ elim (part_count allow_ipv4 false part) [
        | none ↦ none
        | some k ↦ ipv6_loop fuel allow_ipv4 (count + k) behind
      ]
    ]

unfoldable pub count_ipv6_parts : Bytes → Bool → Option ℕ
unfolding ipv6_loop
count_ipv6_parts sequence allow_ipv4 =
    if is_empty sequence then some 0 else ipv6_loop (suc (length sequence)) allow_ipv4 0 sequence

abbrev pub behind_first : ℕ → Option (Bytes × Bytes) → Option (Bytes × Bytes)
behind_first c none = none
behind_first c (some (left, right)) = some (c ∷ left, right)

-- The texts before and behind the first `::`.
unfoldable pub find_compression : Bytes → Option (Bytes × Bytes)
find_compression [] = none
find_compression (c ∷ []) = none
find_compression (c ∷ d ∷ rest) =
    let later = find_compression (d ∷ rest) in
    if c == b':' && d == b':' then some ([], rest) else behind_first c later

abbrev pub fewer_than_eight : Option ℕ → Option ℕ → Bool
fewer_than_eight (some left) (some right) = ltb (left + right) 8
fewer_than_eight _ _ = false

unfoldable pub is_valid_ipv6 : Bytes → Bool
unfolding find_compression count_ipv6_parts
is_valid_ipv6 address = elim (find_compression address) [
  | none ↦ is_some_of 8 (count_ipv6_parts address true)
  | some (left, right) ↦ elim (find_compression right) [
    | some _ ↦ false
    | none ↦ fewer_than_eight (count_ipv6_parts left false) (count_ipv6_parts right true)
  ]
]

unfoldable pub last_or : ℕ → Bytes → ℕ
last_or c [] = c
last_or c (d ∷ ds) = last_or d ds

-- `front()` of a text that is not empty is its first byte, and `back()` its last.
abbrev pub ends_alnum : Bytes → Bool
ends_alnum [] = false
ends_alnum (c ∷ cs) = is_alnum c && is_alnum (last_or c cs)

abbrev pub is_label_byte : ℕ → Bool
is_label_byte c = is_alnum c || c == b'-'

unfoldable pub is_label : Bytes → Bool
unfolding last_or all_of is_alnum
is_label label =
    not (is_empty label || ltb 63 (length label) || not (ends_alnum label))
    && all_of is_label_byte label

unfoldable pub labels_loop : ℕ → Bytes → Bool
unfolding cut is_label
labels_loop zero hostname = false
labels_loop (suc fuel) hostname =
    let (label, rest) = cut b'.' hostname in
    if not (is_label label)
    then false
    else elim rest [ none ↦ true | some behind ↦ labels_loop fuel behind ]

-- `remove_suffix(1)` when the last byte is a dot.
unfoldable pub without_final_dot : Bytes → Bytes
without_final_dot [] = []
without_final_dot (c ∷ []) = if c == b'.' then [] else c ∷ []
without_final_dot (c ∷ d ∷ cs) = c ∷ without_final_dot (d ∷ cs)

abbrev pub is_numeric_or_dot : ℕ → Bool
is_numeric_or_dot c = is_digit c || c == b'.'

unfoldable pub is_valid_hostname : Bytes → Bool
unfolding without_final_dot labels_loop all_of is_digit
is_valid_hostname hostname =
    if is_empty hostname || ltb 253 (length hostname)
    then false
    else let name = without_final_dot hostname in
      if is_empty name
      then false
      else if all_of is_numeric_or_dot name
      then false
      else labels_loop (suc (length name)) name
