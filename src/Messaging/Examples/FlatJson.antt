-- ===== src/Messaging/Examples/FlatJson.antt =====
-- A parser of flat objects of strings, which shows that the assumptions on the JSON library can hold.
use watchlist.Prelude.{
  ℕ, Bool, true, false, Option, none, some, List, [], ◌∷◌, ◌++◌, ◌≡◌, refl, ap, ◌∙◌, arith,
  append_assoc, append-nil, leb, ◌==◌, if◌then◌else◌, Bytes, lookup,
}
use watchlist.Messaging.Json.{
  JsonLibrary, unescape, StringBody, done, plain, escaped, quoted, MembersText, last, more,
  ReadsObjects, Holds,
}

data Mode : Type 0 where
  at_name after_value finished : Mode
  in_name name_escape at_colon at_value : Bytes → Mode
  in_value value_escape : Bytes → Bytes → Mode

abbrev pub Members : Type 0
Members = List (Bytes × Bytes)

abbrev expect : ℕ → ℕ → Mode → Members → Option (Mode × Members)
expect wanted c m ms = if c == wanted then some (m, ms) else none

abbrev unescaped : Option ℕ → (ℕ → Mode) → Members → Option (Mode × Members)
unescaped none m ms = none
unescaped (some c) m ms = some (m c, ms)

step : Mode → Members → ℕ → Option (Mode × Members)
step at_name ms c = expect b'"' c (in_name []) ms
step (in_name n) ms c =
    if c == b'"'
    then some (at_colon n, ms)
    else if c == b'\\'
    then some (name_escape n, ms)
    else if leb 32 c
    then some (in_name (n ++ c ∷ []), ms)
    else none
step (name_escape n) ms c = unescaped (unescape c) (λ x. in_name (n ++ x ∷ [])) ms
step (at_colon n) ms c = expect b':' c (at_value n) ms
step (at_value n) ms c = expect b'"' c (in_value n []) ms
step (in_value n v) ms c =
    if c == b'"'
    then some (after_value, ms ++ (n, v) ∷ [])
    else if c == b'\\'
    then some (value_escape n v, ms)
    else if leb 32 c
    then some (in_value n (v ++ c ∷ []), ms)
    else none
step (value_escape n v) ms c = unescaped (unescape c) (λ x. in_value n (v ++ x ∷ [])) ms
step after_value ms c =
    if c == b',' then some (at_name, ms) else if c == b'}' then some (finished, ms) else none
step finished ms c = none

end : Mode → Members → Option Members
end finished ms = some ms
end _ ms = none

run : Mode → Members → Bytes → Option Members
unfolding step end
run m ms [] = end m ms
run m ms (c ∷ cs) = elim (step m ms c) [ none ↦ none | some (m', ms') ↦ run m' ms' cs ]

pub parse_object : Bytes → Option Members
unfolding run
parse_object [] = none
parse_object (c ∷ cs) = if c == b'{' then run at_name [] cs else none

run-name :
    {text s : Bytes} (n : Bytes) (ms : Members) (rest : Bytes)
    → StringBody text s
    → run (in_name n) ms (text ++ (b'"' ∷ rest)) ≡ run (at_colon (n ++ s)) ms rest
unfolding run
run-name n ms rest done = rw append-nil
run-name n ms rest (plain {s = s} c a b p t) =
    ground (arith, run-name (n ++ c ∷ []) ms rest t, append_assoc n (c ∷ []) s)
run-name n ms rest (escaped {s = s} x c e t) =
    ground (arith, run-name (n ++ c ∷ []) ms rest t, append_assoc n (c ∷ []) s)

run-value :
    {text s : Bytes} (n v : Bytes) (ms : Members) (rest : Bytes)
    → StringBody text s
    → run (in_value n v) ms (text ++ (b'"' ∷ rest)) ≡ run after_value (ms ++ (n, v ++ s) ∷ []) rest
unfolding run
run-value n v ms rest done = rw append-nil
run-value n v ms rest (plain {s = s} c a b p t) =
    ground (arith, run-value n (v ++ c ∷ []) ms rest t, append_assoc v (c ∷ []) s)
run-value n v ms rest (escaped {s = s} x c e t) =
    ground (arith, run-value n (v ++ c ∷ []) ms rest t, append_assoc v (c ∷ []) s)

run-quoted :
    {n name v value : Bytes} (ms : Members) (rest : Bytes)
    → StringBody n name
    → StringBody v value
    → run at_name ms (quoted n v rest) ≡ run after_value (ms ++ (name, value) ∷ []) rest
unfolding run
run-quoted {name = name} {v = v} ms rest a b =
    run-name [] ms (b':' ∷ b'"' ∷ (v ++ b'"' ∷ rest)) a ∙ run-value name [] ms rest b

run-comma : (ms : Members) (rest : Bytes) → run after_value ms (b',' ∷ rest) ≡ run at_name ms rest
unfolding run
run-comma ms rest = refl

run-brace : (ms : Members) → run after_value ms (b'}' ∷ []) ≡ some ms
unfolding run
run-brace ms = refl

run-MembersText :
    {text : Bytes} {members : Members} (ms : Members)
    → MembersText text members
    → run at_name ms text ≡ some (ms ++ members)
run-MembersText ms (last n name v value a b e m) =
    rw (e, m) (run-quoted ms (b'}' ∷ []) a b ∙ run-brace (ms ++ (name, value) ∷ []))
run-MembersText ms (more {rest = rest} {later = later} n name v value a b e t m) =
    rw (e, m)
      (run-quoted ms (b',' ∷ rest) a b
        ∙ run-comma (ms ++ (name, value) ∷ []) rest
        ∙ run-MembersText (ms ++ (name, value) ∷ []) t
        ∙ ap some (append_assoc ms ((name, value) ∷ []) later))

pub data JsonValue : Type 0 where
  object : Members → JsonValue
  text : Bytes → JsonValue

abbrev pub parse_value : Option Members → Option JsonValue
parse_value none = none
parse_value (some ms) = some (object ms)

abbrev pub is_object_value : JsonValue → Bool
is_object_value (object ms) = true
is_object_value (text s) = false

abbrev pub is_text : JsonValue → Bool
is_text (object ms) = false
is_text (text s) = true

abbrev pub text_of : JsonValue → Bytes
text_of (object ms) = []
text_of (text s) = s

abbrev pub as_text : Option Bytes → Option JsonValue
as_text none = none
as_text (some s) = some (text s)

abbrev pub find_in : JsonValue → Bytes → Option JsonValue
find_in (object ms) name = as_text (lookup name ms)
find_in (text s) name = none

abbrev pub flat_json : JsonLibrary
flat_json = record {
  Value = JsonValue;
  parse = λ t. parse_value (parse_object t);
  is_object = is_object_value;
  find = find_in;
  is_string = is_text;
  get = text_of;
}

Holds-as_text : (o : Option Bytes) → Holds flat_json (as_text o) o
Holds-as_text none = tt
Holds-as_text (some s) = (refl, refl)

parse_object-MembersText :
    {body : Bytes} {members : Members}
    → MembersText body members
    → parse_object (b'{' ∷ body) ≡ some members
unfolding parse_object
parse_object-MembersText t = run-MembersText [] t

pub flat_json-ReadsObjects : ReadsObjects flat_json
flat_json-ReadsObjects = record {
  reads = λ body members t distinct texts. (
    object members,
    ap parse_value (parse_object-MembersText t),
    record { object = refl; holds = λ name. Holds-as_text (lookup name members) },
  );
}
