-- ===== src/Messaging/Json.antt =====
-- The JSON library that the parser calls (nlohmann/json, not part of the repository), as a parameter,
-- and what the program relies on: the texts of RFC 8259 that are one flat object of strings.
use watchlist.Prelude.{
  ℕ, ◌≤◌, Bool, true, Option, none, some, List, [], ◌∷◌, ◌++◌, ◌≡◌, ◌≢◌, ◌==◌, if◌then◌else◌, Bytes,
  lookup, All,
}
use watchlist.Storage.Utf8.Spec.{IsUtf8}

pub record JsonLibrary : Type 1 where
  pub Value : Type 0
  -- `Json::parse(text, nullptr, false)`; a discarded value is `none`.
  pub parse : Bytes → Option Value
  pub is_object : Value → Bool
  pub find : Value → Bytes → Option Value
  pub is_string : Value → Bool
  pub get : Value → Bytes

-- The two-character escapes.
abbrev pub unescape : ℕ → Option ℕ
unescape c =
    if c == b'"'
    then some b'"'
    else if c == b'\\'
    then some b'\\'
    else if c == b'/'
    then some b'/'
    else if c == b'b'
    then some 8
    else if c == b'f'
    then some 12
    else if c == b'n'
    then some 10
    else if c == b'r'
    then some 13
    else if c == b't'
    then some 9
    else none

-- The text between two quotes, and the string that it stands for.
pub data StringBody : Bytes → Bytes → Type 0 where
  done : StringBody [] []
  plain :
      {text s : Bytes} (c : ℕ)
      → c ≢ b'"'
      → c ≢ b'\\'
      → 32 ≤ c
      → StringBody text s
      → StringBody (c ∷ text) (c ∷ s)
  escaped :
      {text s : Bytes} (x c : ℕ)
      → unescape x ≡ some c
      → StringBody text s
      → StringBody (b'\\' ∷ x ∷ text) (c ∷ s)

abbrev pub quoted : Bytes → Bytes → Bytes → Bytes
quoted name value rest = b'"' ∷ (name ++ (b'"' ∷ b':' ∷ b'"' ∷ (value ++ b'"' ∷ rest)))

-- The members of an object up to its closing brace.
pub data MembersText : Bytes → List (Bytes × Bytes) → Type 0 where
  last :
      {text : Bytes} {members : List (Bytes × Bytes)} (n name v value : Bytes)
      → StringBody n name
      → StringBody v value
      → text ≡ quoted n v (b'}' ∷ [])
      → members ≡ (name, value) ∷ []
      → MembersText text members
  more :
      {text rest : Bytes} {members later : List (Bytes × Bytes)} (n name v value : Bytes)
      → StringBody n name
      → StringBody v value
      → text ≡ quoted n v (b',' ∷ rest)
      → MembersText rest later
      → members ≡ (name, value) ∷ later
      → MembersText text members

abbrev pub HasDistinctNames : List (Bytes × Bytes) → Type 0
HasDistinctNames [] = Unit
HasDistinctNames ((k, v) ∷ ms) = (lookup k ms ≡ none) × HasDistinctNames ms

abbrev pub AreTexts : List (Bytes × Bytes) → Type 0
AreTexts = All (λ (m : Bytes × Bytes). IsUtf8 m.0 × IsUtf8 m.1)

module _ (j : JsonLibrary) where
  open j use {Value, parse, is_object, find, is_string, get}

  abbrev pub Holds : Option Value → Option Bytes → Type 0
  Holds none none = Unit
  Holds (some w) (some s) = (is_string w ≡ true) × (get w ≡ s)
  Holds _ _ = ⊥

  -- The value has these members, all of them strings, and no others.
  pub record IsObjectOf (members : List (Bytes × Bytes)) (v : Value) : Type 0 where
    pub object : is_object v ≡ true
    pub holds : (name : Bytes) → Holds (find v name) (lookup name members)

  -- An object of UTF-8 strings under distinct names is parsed to a value with those members.
  pub record ReadsObjects : Type 0 where
    pub reads :
        (body : Bytes) (members : List (Bytes × Bytes))
        → MembersText body members
        → HasDistinctNames members
        → AreTexts members
        → (v : Value) × (parse (b'{' ∷ body) ≡ some v) × IsObjectOf members v
