-- ===== src/Storage/SqliteDatabase/Decoded.antt =====
-- `BindItem` and `DecodeDatabaseItem` of src/Utils/Storage/SQLiteDatabase.cpp: an item that was decoded is
-- decoded again from the row that it is bound to.
use watchlist.Prelude.{
  ℕ, true, false, not, ◌||◌, List, [], ◌∷◌, ◌≡◌, refl, sym, ap, ◌∙◌, arith, map, Bytes, ◌==◌,
}
use watchlist.Prelude.Int.{ℤ, pos, negsuc, pos_part, ltb_ℤ}
use watchlist.Storage.Item.{DatabaseItem, ok}
use watchlist.Storage.SqliteDatabase.{
  Column, text, integer, Row, bit, bind_item, text_column, integer_column, check, is_zero_or_one,
  checked_item, decode_database_item, decode_rows,
}
use watchlist.Storage.SqliteDatabase.Rows.{checked_item-ok, decode_rows-cons, then_ok}
use watchlist.Storage.SqliteDatabase.Initialize.Steps.{check-ok}
use watchlist.Storage.SqliteDatabase.Initialize.Valid.{not-false, first_ok, neither, check_then}

not_negative : (n : ℤ) → ltb_ℤ n (pos 0) ≡ false → n ≡ pos (pos_part n)
not_negative (pos n) h = refl
not_negative (negsuc n) h = absurd (ground (arith, h))

checked_item-port :
    (id name address : Bytes) (port alive : ℤ) (i : DatabaseItem)
    → checked_item id name address port alive ≡ ok i
    → port ≡ pos (pos_part port)
unfolding checked_item
checked_item-port id name address port alive i h =
    not_negative port
      (neither (ltb_ℤ port (pos 0)) (ltb_ℤ (pos 65535) port)
        (check_then (ltb_ℤ port (pos 0) || ltb_ℤ (pos 65535) port) _ _ i h).0).0

zero_or_one : (n : ℤ) → is_zero_or_one n ≡ true → n ≡ pos (bit (pos_part n == 1))
zero_or_one (pos n) h = ap pos (one_bit n h)
  where
    one_bit : (n : ℕ) → (n == 0 || n == 1) ≡ true → n ≡ bit (n == 1)
    one_bit n h = ground (arith, h)
zero_or_one (negsuc n) h = absurd cc

checked_item-alive :
    (id name address : Bytes) (port alive : ℤ) (i : DatabaseItem)
    → checked_item id name address port alive ≡ ok i
    → alive ≡ pos (bit (pos_part alive == 1))
unfolding checked_item
checked_item-alive id name address port alive i h = zero_or_one alive (
    not-false _ (
      check-ok _ _
        (first_ok (check (not (is_zero_or_one alive)) _) _ i (then_ok (check _ _) _ i h))))

pub decode_database_item-bind_item :
    (r : Row) (i : DatabaseItem)
    → decode_database_item r ≡ ok i
    → decode_database_item (bind_item i) ≡ ok i
unfolding decode_database_item text_column integer_column bind_item
decode_database_item-bind_item r i h = columns r.device_id r.name r.ip_address r.port r.alive i h
  where
    columns :
        (a b c d e : Column) (i : DatabaseItem)
        → decode_database_item
            (record { device_id = a; name = b; ip_address = c; port = d; alive = e })
          ≡ ok i
        → decode_database_item (bind_item i) ≡ ok i
    columns (text a) (text b) (text c) (integer d) (integer e) i h =
        let same : i ≡ _ = checked_item-ok a b c d e i h in
        let again : checked_item a b c (pos (pos_part d)) (pos (bit (pos_part e == 1))) ≡ ok i =
          ap (λ n. checked_item a b c n (pos (bit (pos_part e == 1))))
            (sym (checked_item-port a b c d e i h))
          ∙ ap (checked_item a b c d) (sym (checked_item-alive a b c d e i h))
          ∙ h in
        ap (λ i. decode_database_item (bind_item i)) same ∙ again
    columns _ _ _ _ _ i h = absurd cc

decode_rows-ok :
    (r : Row) (rs : List Row) (i : DatabaseItem) (is : List DatabaseItem)
    → decode_database_item r ≡ ok i
    → decode_rows rs ≡ ok is
    → decode_rows (r ∷ rs) ≡ ok (i ∷ is)
unfolding decode_rows
decode_rows-ok r rs i is e f = simp (e, f) refl

pub decode_rows-bind_item :
    (rows : List Row) (items : List DatabaseItem)
    → decode_rows rows ≡ ok items
    → decode_rows (map bind_item items) ≡ ok items
decode_rows-bind_item [] [] h = unfold decode_rows in refl
decode_rows-bind_item [] (i ∷ items) h = absurd (unfold decode_rows in cc)
decode_rows-bind_item (r ∷ rs) items h =
    let (i, is, e, f, whole) = decode_rows-cons r rs items h in
    rw whole (
      decode_rows-ok (bind_item i) (map bind_item is) i is (decode_database_item-bind_item r i e)
        (decode_rows-bind_item rs is f))
