-- ===== src/Storage/Validation/Storable.antt =====
-- Which items the database accepts.
use watchlist.Prelude.{ℕ, ◌≤◌, [], ◌≡◌, ◌≢◌, ◌↔◌, inl, inr, arith, Bool-cases, length, Bytes, bytes}
use watchlist.Storage.Item.{DatabaseItem, DatabaseField, ok, err, Done, ◌>>◌}
use watchlist.Storage.Utf8.Spec.{IsUtf8}
use watchlist.Storage.Utf8.Rounds.{AreBytes}
use watchlist.Storage.Utf8.Decides.{is_valid_utf8_iff}
use watchlist.Storage.Address.{is_valid_ipv4, is_valid_ipv6}
use watchlist.Storage.Address.Spec.{Separated, IsOctet, IsHostname}
use watchlist.Storage.Address.Decides.{is_valid_ipv4_iff, is_valid_hostname_iff}
use watchlist.Storage.Address.Ipv6.Compression.{IsIpv6, is_valid_ipv6_iff}
use watchlist.Storage.Validation.{validate_sized_utf8, validate_address, validate_item}

pub record IsSizedText (maximum : ℕ) (value : Bytes) : Type 0 where
  pub given : value ≢ []
  pub size : length value ≤ maximum
  pub utf8 : IsUtf8 value

pub data IsAddress (address : Bytes) : Type 0 where
  ipv4 : Separated b'.' IsOctet 4 address → IsAddress address
  ipv6 : IsIpv6 address → IsAddress address
  hostname : IsHostname address → IsAddress address

pub record IsStorable (item : DatabaseItem) : Type 0 where
  pub id : IsSizedText 128 item.id
  pub name : IsSizedText 256 item.name
  pub address : IsAddress item.ip_address

then_iff : (m n : Done) → (m >> n ≡ ok tt) ↔ ((m ≡ ok tt) × (n ≡ ok tt))
then_iff (ok _) n = ground arith
then_iff (err e) n = ground arith

validate_sized_utf8_iff :
    (value : Bytes) (maximum : ℕ) (field : DatabaseField) (name : Bytes)
    → AreBytes value
    → (validate_sized_utf8 value maximum field name ≡ ok tt) ↔ IsSizedText maximum value
unfolding validate_sized_utf8
validate_sized_utf8_iff value maximum field name b = (
  λ h. record {
    given = ground (arith, h);
    size = ground (arith, h);
    utf8 = (is_valid_utf8_iff value b).0 (ground (arith, h));
  },
  λ t. ground (arith, t.given, t.size, (is_valid_utf8_iff value b).1 t.utf8),
)

validate_address_iff : (address : Bytes) → (validate_address address ≡ ok tt) ↔ IsAddress address
unfolding validate_address
validate_address_iff address = (accepted, tested)
  where
    accepted : validate_address address ≡ ok tt → IsAddress address
    accepted h = elim (Bool-cases (is_valid_ipv4 address)) [
      | inl four ↦ ipv4 ((is_valid_ipv4_iff address).0 four)
      | inr not_four ↦ elim (Bool-cases (is_valid_ipv6 address)) [
        | inl six ↦ ipv6 ((is_valid_ipv6_iff address).0 six)
        | inr not_six ↦ hostname ((is_valid_hostname_iff address).0 (ground (arith, h)))
      ]
    ]

    tested : IsAddress address → validate_address address ≡ ok tt
    tested (ipv4 p) = ground (arith, (is_valid_ipv4_iff address).1 p)
    tested (ipv6 p) = ground (arith, (is_valid_ipv6_iff address).1 p)
    tested (hostname p) = ground (arith, (is_valid_hostname_iff address).1 p)

abbrev id_test : DatabaseItem → Done
id_test item = validate_sized_utf8 item.id 128 DatabaseField.id (bytes "device id")

abbrev name_test : DatabaseItem → Done
name_test item = validate_sized_utf8 item.name 256 DatabaseField.name (bytes "device name")

abbrev texts : DatabaseItem → Done
texts item = id_test item >> name_test item

-- An item whose strings are bytes passes the test exactly when its id is a UTF-8 text of 1 to 128
-- bytes, its name one of 1 to 256, and its address an IPv4 literal, an IPv6 literal or a host name.
pub validate_item_iff :
    (item : DatabaseItem)
    → AreBytes item.id
    → AreBytes item.name
    → (validate_item item ≡ ok tt) ↔ IsStorable item
unfolding validate_item
validate_item_iff item b c = (
  λ h.
      let (front, third) = (then_iff (texts item) (validate_address item.ip_address)).0 h in
      let (first, second) = (then_iff (id_test item) (name_test item)).0 front in
      record {
        id = (validate_sized_utf8_iff item.id _ _ _ b).0 first;
        name = (validate_sized_utf8_iff item.name _ _ _ c).0 second;
        address = (validate_address_iff item.ip_address).0 third;
      },
  λ s. (then_iff (texts item) (validate_address item.ip_address)).1 (
    (then_iff (id_test item) (name_test item)).1 (
      (validate_sized_utf8_iff item.id 128 _ _ b).1 s.id,
      (validate_sized_utf8_iff item.name 256 _ _ c).1 s.name,
    ),
    (validate_address_iff item.ip_address).1 s.address,
  ),
)
