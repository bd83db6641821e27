-- ===== src/Messaging/Serialize/Members.antt =====
-- The members of an envelope: their text, their names, and what a lookup among them finds.
use watchlist.Prelude.{
  Bool, true, not, ◌&&◌, Option, none, some, List, [], ◌∷◌, ◌++◌, ◌≡◌, refl, ap, ◌∙◌, arith,
  Bool-cases, inl, inr, append_assoc, if◌then◌else◌, Bytes, equal, equal_iff, all_of, lookup, All,
}
use watchlist.Storage.Utf8.Spec.{IsUtf8}
use watchlist.Messaging.Json.{MembersText, last, more, quoted, HasDistinctNames, AreTexts}
use watchlist.Messaging.Serialize.{member, escape_json}
use watchlist.Messaging.Serialize.Grammar.{
  is_writable, is_plain, Fields, members_of, commas, joined, escape_json-StringBody,
  plain-StringBody, plain-IsUtf8,
}

-- A string that the serializer writes as JSON.
abbrev pub IsEncodable : Bytes → Type 0
IsEncodable v = (all_of is_writable v ≡ true) × IsUtf8 v

abbrev pub IsEncodableField : Bytes × Option Bytes → Type 0
IsEncodableField (name, none) = all_of is_plain name ≡ true
IsEncodableField (name, some v) = (all_of is_plain name ≡ true) × IsEncodable v

abbrev IsEncodableMember : Bytes × Bytes → Type 0
IsEncodableMember (name, v) = (all_of is_plain name ≡ true) × IsEncodable v

pub members_of-encodable :
    (fs : Fields) → All IsEncodableField fs → All IsEncodableMember (members_of fs)
members_of-encodable [] h = h
members_of-encodable ((n, none) ∷ fs) h = members_of-encodable fs h.1
members_of-encodable ((n, some v) ∷ fs) h = (h.0, members_of-encodable fs h.1)

pub AreTexts-members : (ms : List (Bytes × Bytes)) → All IsEncodableMember ms → AreTexts ms
AreTexts-members [] h = h
AreTexts-members ((n, v) ∷ ms) h = ((plain-IsUtf8 n h.0.0, h.0.1.1), AreTexts-members ms h.1)

member-quoted : (n v rest : Bytes) → member n v ++ rest ≡ quoted n (escape_json v) rest
member-quoted n v rest = ap (◌∷◌ b'"') (
    append_assoc n (b'"' ∷ b':' ∷ b'"' ∷ (escape_json v ++ b'"' ∷ [])) rest
    ∙ ap (λ (t : Bytes). n ++ (b'"' ∷ b':' ∷ b'"' ∷ t))
        (append_assoc (escape_json v) (b'"' ∷ []) rest))

pub MembersText-joined :
    (n v : Bytes) (ms : List (Bytes × Bytes))
    → All IsEncodableMember ((n, v) ∷ ms)
    → MembersText (joined true ((n, v) ∷ ms)) ((n, v) ∷ ms)
MembersText-joined n v [] h =
    last n n (escape_json v) v (plain-StringBody n h.0.0) (escape_json-StringBody v h.0.1.0)
      (member-quoted n v (b'}' ∷ [])) refl
MembersText-joined n v ((n', v') ∷ ms) h =
    more n n (escape_json v) v (plain-StringBody n h.0.0) (escape_json-StringBody v h.0.1.0)
      (member-quoted n v (commas ((n', v') ∷ ms))) (MembersText-joined n' v' ms h.1) refl

-- The names are pairwise different.
unfoldable pub is_fresh : Bytes → Fields → Bool
is_fresh name [] = true
is_fresh name ((n, o) ∷ fs) = not (equal n name) && is_fresh name fs

unfoldable pub are_distinct : Fields → Bool
unfolding is_fresh
are_distinct [] = true
are_distinct ((n, o) ∷ fs) = is_fresh n fs && are_distinct fs

unfoldable pub field : Bytes → Fields → Option Bytes
field name [] = none
field name ((n, o) ∷ fs) = if equal n name then o else field name fs

lookup-is_fresh :
    (name : Bytes) (fs : Fields) → is_fresh name fs ≡ true → lookup name (members_of fs) ≡ none
unfolding is_fresh lookup
lookup-is_fresh name [] h = refl
lookup-is_fresh name ((n, none) ∷ fs) h = lookup-is_fresh name fs (ground arith)
lookup-is_fresh name ((n, some v) ∷ fs) h = ground (arith, lookup-is_fresh name fs)

pub HasDistinctNames-members :
    (fs : Fields) → are_distinct fs ≡ true → HasDistinctNames (members_of fs)
unfolding are_distinct
HasDistinctNames-members [] h = tt
HasDistinctNames-members ((n, none) ∷ fs) h = HasDistinctNames-members fs (ground arith)
HasDistinctNames-members ((n, some v) ∷ fs) h =
    (lookup-is_fresh n fs (ground arith), HasDistinctNames-members fs (ground arith))

pub lookup-members_of :
    (name : Bytes) (fs : Fields)
    → are_distinct fs ≡ true
    → lookup name (members_of fs) ≡ field name fs
unfolding are_distinct lookup field
lookup-members_of name [] h = refl
lookup-members_of name ((n, none) ∷ fs) h = elim (Bool-cases (equal n name)) [
  | inl e ↦ rw e (ground (arith, (equal_iff n name).0 e, lookup-is_fresh n fs))
  | inr e ↦ rw e (lookup-members_of name fs (ground arith))
]
lookup-members_of name ((n, some v) ∷ fs) h = ground (arith, lookup-members_of name fs)
