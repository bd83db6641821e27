-- ===== src/Storage/Validation.antt =====
-- The tests of device items in src/Utils/Storage/SQLiteDatabase.cpp.
pub mod Storable
use watchlist.Prelude.{
  ℕ, zero, suc, ◌+◌, ◌/◌, ◌%◌, Bool, false, not, ◌||◌, List, [], ◌∷◌, ◌++◌, length, ltb,
  if◌then◌else◌, is_empty, Bytes, bytes, equal,
}
use watchlist.Storage.Item.{DatabaseItem, DatabaseField, validation_error, ok, err, Done, ◌>>◌}
use watchlist.Storage.Utf8.{is_valid_utf8}
use watchlist.Storage.Address.{is_valid_ipv4, is_valid_ipv6, is_valid_hostname}

-- `std::to_string` of a number that is not negative; a number has at most as many digits as its value
-- and one more.
unfoldable pub digits_text : ℕ → ℕ → Bytes
digits_text zero n = []
digits_text (suc fuel) n =
    let front = digits_text fuel (n / 10) in
    if ltb n 10 then (b'0' + n) ∷ [] else front ++ (b'0' + n % 10) ∷ []

unfoldable pub validate_sized_utf8 : Bytes → ℕ → DatabaseField → Bytes → Done
unfolding digits_text
validate_sized_utf8 value maximum field field_name =
    if is_empty value || ltb maximum (length value) || not (is_valid_utf8 value)
    then err (
        validation_error field (
          field_name
          ++ (bytes " must contain 1-"
              ++ (digits_text (suc maximum) maximum ++ bytes " valid UTF-8 bytes"))))
    else ok tt

unfoldable pub validate_address : Bytes → Done
validate_address address =
    if not (is_valid_ipv4 address || is_valid_ipv6 address || is_valid_hostname address)
    then err (
        validation_error DatabaseField.address
          (bytes "address must be an IPv4/IPv6 literal or ASCII DNS hostname of at most 253 bytes"))
    else ok tt

unfoldable pub validate_item : DatabaseItem → Done
unfolding validate_sized_utf8 validate_address
validate_item item =
    validate_sized_utf8 item.id 128 DatabaseField.id (bytes "device id")
    >> validate_sized_utf8 item.name 256 DatabaseField.name (bytes "device name")
    >> validate_address item.ip_address

unfoldable pub has_id : Bytes → List Bytes → Bool
has_id id [] = false
has_id id (seen ∷ ids) = equal seen id || has_id id ids

-- The loop of `ValidateItems`, with the set of the ids that were inserted.
unfoldable pub validate_items_from : List Bytes → List DatabaseItem → Done
unfolding has_id
validate_items_from ids [] = ok tt
validate_items_from ids (item ∷ items) =
    let rest = validate_items_from (item.id ∷ ids) items in
    validate_item item
    >> (if has_id item.id ids
        then err (
            validation_error DatabaseField.collection
              (bytes "replacement contains duplicate device id: " ++ item.id))
        else rest)

unfoldable pub validate_items : List DatabaseItem → Done
unfolding validate_items_from
validate_items items = validate_items_from [] items
