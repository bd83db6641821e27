-- ===== src/Storage/Examples.antt =====
-- The tests of src/Utils/Storage/SQLiteDatabase.cpp on one text and on one device.
use watchlist.Prelude.{[], ◌∷◌, ◌≡◌, ◌↔◌, arith, bytes, true}
use watchlist.Storage.Item.{DatabaseItem, ok}
use watchlist.Storage.Address.{is_valid_ipv4, is_valid_hostname}
use watchlist.Storage.Address.Spec.{Separated, IsOctet, IsHostname}
use watchlist.Storage.Address.Decides.{is_valid_ipv4_iff, is_valid_hostname_iff}
use watchlist.Storage.Validation.{validate_item}
use watchlist.Storage.Validation.Storable.{IsStorable, validate_item_iff}
use watchlist.Storage.Utf8.{is_valid_utf8}
use watchlist.Storage.Utf8.Spec.{IsUtf8}
use watchlist.Storage.Utf8.Decides.{is_valid_utf8_iff}

is_valid_utf8_iff_example : (is_valid_utf8 (0xc3 ∷ 0xa9 ∷ []) ≡ true) ↔ IsUtf8 (0xc3 ∷ 0xa9 ∷ [])
is_valid_utf8_iff_example = is_valid_utf8_iff (0xc3 ∷ 0xa9 ∷ []) (omega arith, (omega arith, tt))

is_valid_ipv4_iff_example :
    (is_valid_ipv4 (bytes "192.168.0.1") ≡ true) ↔ Separated b'.' IsOctet 4 (bytes "192.168.0.1")
is_valid_ipv4_iff_example = is_valid_ipv4_iff (bytes "192.168.0.1")

is_valid_hostname_iff_example :
    (is_valid_hostname (bytes "nas-1.local.") ≡ true) ↔ IsHostname (bytes "nas-1.local.")
is_valid_hostname_iff_example = is_valid_hostname_iff (bytes "nas-1.local.")

abbrev printer : DatabaseItem
printer = record {
  id = 0xc3 ∷ 0xa9 ∷ [];
  name = 80 ∷ 49 ∷ [];
  ip_address = bytes "::1";
  port = 631;
  alive = true;
}

validate_item_iff_example : (validate_item printer ≡ ok tt) ↔ IsStorable printer
validate_item_iff_example =
    validate_item_iff printer (omega arith, (omega arith, tt)) (omega arith, (omega arith, tt))
