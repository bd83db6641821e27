-- ===== src/Messaging/Serialize/Grammar.antt =====
-- What the serializers write is a flat JSON object of strings.
use watchlist.Prelude.{
  ℕ, ◌<◌, Bool, true, false, not, ◌&&◌, ◌||◌, Option, none, some, List, [], ◌∷◌, ◌++◌, ◌≡◌, refl,
  ◌∙◌, arith, Bool-cases, inl, inr, append_assoc, ltb, leb, ◌==◌, if◌then◌else◌, Bytes, bytes,
  all_of,
}
use watchlist.Storage.Utf8.Spec.{IsUtf8, empty, scalar}
use watchlist.Messaging.Types.{MqttRequest, MqttAck, to_string}
use watchlist.Messaging.Json.{StringBody, done, plain, escaped}
use watchlist.Messaging.Serialize.{
  escape_json, Writer, opened, member, append_field, append_optional_field, close,
  serialize_request, serialize_ack,
}

-- `EscapeJson` knows the quote, the backslash and three control characters; the others would be
-- written as they are, which JSON does not allow.
unfoldable pub is_writable : ℕ → Bool
is_writable c = leb 32 c || c == b'\n' || c == b'\r' || c == b'\t'

unfoldable pub is_plain : ℕ → Bool
is_plain c = leb 32 c && ltb c 128 && not (c == b'"') && not (c == b'\\')

-- The fields of an envelope in the order in which they are written, absent ones included.
abbrev pub Fields : Type 0
Fields = List (Bytes × Option Bytes)

abbrev pub add_present : Bytes → Option Bytes → List (Bytes × Bytes) → List (Bytes × Bytes)
add_present name none ms = ms
add_present name (some value) ms = (name, value) ∷ ms

abbrev pub members_of : Fields → List (Bytes × Bytes)
members_of [] = []
members_of ((name, o) ∷ fs) = add_present name o (members_of fs)

abbrev pub request_fields : MqttRequest → Fields
request_fields r =
    (bytes "id", some r.id)
    ∷ (bytes "type", some (to_string r.type))
    ∷ (bytes "created_utc", some r.created_utc)
    ∷ (bytes "source_client_id", some r.source_client_id)
    ∷ (bytes "script_name", r.script_name)
    ∷ (bytes "device_id", r.device_id)
    ∷ (bytes "payload", r.payload)
    ∷ (bytes "command", r.command)
    ∷ (bytes "key", r.key)
    ∷ (bytes "value", r.value)
    ∷ (bytes "prompt", r.prompt)
    ∷ []

abbrev pub ack_fields : MqttAck → Fields
ack_fields a =
    (bytes "request_id", some a.request_id)
    ∷ (bytes "status", some a.status)
    ∷ (bytes "message", some a.message)
    ∷ (bytes "completed_utc", some a.completed_utc)
    ∷ []

write_all : Fields → Writer → Writer
write_all [] w = w
write_all ((name, o) ∷ fs) w = write_all fs (append_optional_field name o w)

-- The members behind one another, each with its comma, in front of the closing brace.
abbrev pub commas : List (Bytes × Bytes) → Bytes
commas [] = b'}' ∷ []
commas ((k, v) ∷ ms) = b',' ∷ (member k v ++ commas ms)

abbrev pub joined : Bool → List (Bytes × Bytes) → Bytes
joined false ms = commas ms
joined true [] = b'}' ∷ []
joined true ((k, v) ∷ ms) = member k v ++ commas ms

member-joined :
    (first : Bool) (stream name v : Bytes) (ms : List (Bytes × Bytes))
    → ((if first then stream else stream ++ b',' ∷ []) ++ member name v) ++ commas ms
      ≡ stream ++ joined first ((name, v) ∷ ms)
member-joined true stream name v ms = append_assoc stream (member name v) (commas ms)
member-joined false stream name v ms =
    append_assoc (stream ++ b',' ∷ []) (member name v) (commas ms)
    ∙ append_assoc stream (b',' ∷ []) (member name v ++ commas ms)

write_all-joined :
    (fs : Fields) (w : Writer) → close (write_all fs w) ≡ w.stream ++ joined w.first (members_of fs)
unfolding write_all close append_optional_field append_field
write_all-joined [] w = joined_nil w.first
  where
    joined_nil : (b : Bool) → w.stream ++ b'}' ∷ [] ≡ w.stream ++ joined b []
    joined_nil true = refl
    joined_nil false = refl
write_all-joined ((name, none) ∷ fs) w = write_all-joined fs w
write_all-joined ((name, some v) ∷ fs) w =
    write_all-joined fs (append_field name v w)
    ∙ member-joined w.first w.stream name v (members_of fs)

pub serialize_request-joined :
    (r : MqttRequest) → serialize_request r ≡ b'{' ∷ joined true (members_of (request_fields r))
unfolding serialize_request write_all append_field append_optional_field
serialize_request-joined r = write_all-joined (request_fields r) opened

pub serialize_ack-joined :
    (a : MqttAck) → serialize_ack a ≡ b'{' ∷ joined true (members_of (ack_fields a))
unfolding serialize_ack write_all append_field append_optional_field
serialize_ack-joined a = write_all-joined (ack_fields a) opened

pub escape_json-StringBody :
    (v : Bytes) → all_of is_writable v ≡ true → StringBody (escape_json v) v
unfolding escape_json all_of is_writable
escape_json-StringBody [] h = done
escape_json-StringBody (c ∷ cs) h =
    let rest = escape_json-StringBody cs (ground arith) in
    elim (Bool-cases (c == b'\\')) [
      | inl e ↦ rw e (escaped b'\\' c (ground arith) rest)
      | inr e1 ↦ elim (Bool-cases (c == b'"')) [
        | inl e ↦ rw (e1, e) (escaped b'"' c (ground arith) rest)
        | inr e2 ↦ elim (Bool-cases (c == b'\n')) [
          | inl e ↦ rw (e1, e2, e) (escaped b'n' c (ground arith) rest)
          | inr e3 ↦ elim (Bool-cases (c == b'\r')) [
            | inl e ↦ rw (e1, e2, e3, e) (escaped b'r' c (ground arith) rest)
            | inr e4 ↦ elim (Bool-cases (c == b'\t')) [
              | inl e ↦ rw (e1, e2, e3, e4, e) (escaped b't' c (ground arith) rest)
              | inr e5 ↦
                  rw (e1, e2, e3, e4, e5)
                    (plain c (ground arith) (ground arith) (ground arith) rest)
            ]
          ]
        ]
      ]
    ]

pub plain-StringBody : (v : Bytes) → all_of is_plain v ≡ true → StringBody v v
unfolding all_of is_plain
plain-StringBody [] h = done
plain-StringBody (c ∷ cs) h =
    plain c (ground arith) (ground arith) (ground arith) (plain-StringBody cs (ground arith))

pub plain-IsUtf8 : (v : Bytes) → all_of is_plain v ≡ true → IsUtf8 v
unfolding all_of is_plain
plain-IsUtf8 [] h = empty
plain-IsUtf8 (c ∷ cs) h =
    scalar c (omega (arith, below)) (ground arith) (plain-IsUtf8 cs (ground arith))
  where
    below : c < 128
    below = ground arith
