-- ===== src/Storage/SqliteDatabase/Initialize/Valid.antt =====
-- The schema after an `Initialize` of src/Utils/Storage/SQLiteDatabase.cpp.
use watchlist.Prelude.{
  ℕ, length, All, Bool, true, false, not, ◌&&◌, ◌||◌, Option, none, some, List, [], ◌∷◌, ◌≡◌, refl,
  sym, ap, ◌∙◌, arith, map, Bytes, bytes, equal, equal_iff,
}
use watchlist.Prelude.Int.{ℤ, pos, negsuc}
use watchlist.Storage.Item.{Failure, Result, ok, err, Done, ◌>>◌}
use watchlist.Storage.SqliteDatabase.{check}
use watchlist.Storage.SqliteDatabase.Catalogue.{
  ColumnDefinition, IndexInfo, is_number, same_bit, same_number, same_column, same_all,
  column_definition, device_columns, create_v1_items_sql, normalize_sql, is_device_id_only, sql_of,
}
use watchlist.Storage.SqliteDatabase.Rows.{then_ok}
use watchlist.Storage.SqliteDatabase.Initialize.Laws.{Stored}
use watchlist.Storage.SqliteDatabase.Initialize.Steps.{check-ok}

-- An index of the table: unique, not partial, and over `device_id` only.
abbrev pub IsKey : (Bytes → List Bytes) → IndexInfo → Type 0
IsKey columns index =
    (index.unique ≡ pos 1) × (index.partial ≡ pos 0) × (columns index.name ≡ bytes "device_id" ∷ [])

-- The schema of version 1, its version aside.
pub record IsDeviceSchema (s : Stored) : Type 0 where
  pub only_items : s.objects ≡ bytes "table:items" ∷ []
  pub columns_lem : map column_definition s.columns ≡ device_columns
  pub one_index : (index : IndexInfo) × (s.indexes ≡ index ∷ []) × IsKey s.index_columns index
  pub sql_lem :
      (sql : Bytes) × (s.sql ≡ some (some sql))
      × (normalize_sql sql ≡ normalize_sql create_v1_items_sql)

pub not-false : (b : Bool) → not b ≡ false → b ≡ true
not-false true h = refl
not-false false h = absurd cc

both : (a b : Bool) → (a && b) ≡ true → (a ≡ true) × (b ≡ true)
both true b h = (refl, h)
both false b h = absurd cc

pub is_number-true : (n : ℕ) (z : ℤ) → is_number n z ≡ true → z ≡ pos n
is_number-true n (pos m) h = ap pos (ground (arith, h))
is_number-true n (negsuc m) h = absurd cc

pub same_number-true : (a b : ℤ) → same_number a b ≡ true → a ≡ b
same_number-true (pos m) (pos n) h = ap pos (ground (arith, h))
same_number-true (negsuc m) (negsuc n) h = ap negsuc (ground (arith, h))
same_number-true (pos m) (negsuc n) h = absurd cc
same_number-true (negsuc m) (pos n) h = absurd cc

same_bit-true : (a b : Bool) → same_bit a b ≡ true → a ≡ b
same_bit-true true b h = sym h
same_bit-true false true h = absurd cc
same_bit-true false false h = refl

pub same_column-true : (a b : ColumnDefinition) → same_column a b ≡ true → a ≡ b
unfolding same_column
same_column-true a b h =
    let (rest, key) = both _ (same_number a.primary_key b.primary_key) h in
    let (rest, bit) = both _ (same_bit a.not_null b.not_null) rest in
    let (name, kind) = both (equal a.name b.name) (equal a.declared_type b.declared_type) rest in
    let name : a.name ≡ b.name = (equal_iff a.name b.name).0 name in
    let kind : a.declared_type ≡ b.declared_type =
      (equal_iff a.declared_type b.declared_type).0 kind in
    let bit : a.not_null ≡ b.not_null = same_bit-true a.not_null b.not_null bit in
    let key : a.primary_key ≡ b.primary_key = same_number-true a.primary_key b.primary_key key in
    λ i. record { name = name i; declared_type = kind i; not_null = bit i; primary_key = key i }

pub same_all-true :
    {A : Type 0} (same : A → A → Bool)
    → ((x y : A) → same x y ≡ true → x ≡ y)
    → (xs ys : List A) → same_all same xs ys ≡ true
    → xs ≡ ys
unfolding same_all
same_all-true same sound [] [] h = refl
same_all-true same sound [] (y ∷ ys) h = absurd cc
same_all-true same sound (x ∷ xs) [] h = absurd cc
same_all-true same sound (x ∷ xs) (y ∷ ys) h =
    let (first, rest) = both (same x y) (same_all same xs ys) h in
    ap (λ z. z ∷ xs) (sound x y first) ∙ ap (◌∷◌ y) (same_all-true same sound xs ys rest)

pub is_device_id_only-true :
    (cs : List Bytes) → is_device_id_only cs ≡ true → cs ≡ bytes "device_id" ∷ []
is_device_id_only-true [] h = absurd cc
is_device_id_only-true (c ∷ []) h = ap (λ x. x ∷ []) ((equal_iff c (bytes "device_id")).0 h)
is_device_id_only-true (c ∷ d ∷ cs) h = absurd cc

pub sql_of-ok : (o : Option (Option Bytes)) (sql : Bytes) → sql_of o ≡ ok sql → o ≡ some (some sql)
unfolding sql_of
sql_of-ok (some (some x)) sql h = ground (arith, h)
sql_of-ok (some none) sql h = absurd cc
sql_of-ok none sql h = absurd cc

pub neither : (a b : Bool) → (a || b) ≡ false → (a ≡ false) × (b ≡ false)
neither true b h = absurd cc
neither false b h = (refl, h)

pub first_ok : {B : Type 0} (m : Done) (k : Result B) (b : B) → m >> k ≡ ok b → m ≡ ok tt
first_ok (ok _) k b h = refl
first_ok (err e) k b h = absurd cc

pub check_then :
    {B : Type 0} (b : Bool) (f : Failure) (k : Result B) (x : B)
    → check b f >> k ≡ ok x
    → (b ≡ false) × (k ≡ ok x)
check_then b f k x h = (check-ok b f (first_ok (check b f) k x h), then_ok (check b f) k x h)

pub ok-injective : {B : Type 0} {x y : B} → ok x ≡ ok y → x ≡ y
ok-injective {B} {x} {y} h = ap value h
  where
    value : Result B → B
    value (ok z) = z
    value (err e) = x

pub only_one :
    (P : IndexInfo → Type 0) (xs : List IndexInfo)
    → length xs ≡ 1
    → All P xs
    → (index : IndexInfo) × (xs ≡ index ∷ []) × P index
only_one P [] e h = absurd (omega arith)
only_one P (x ∷ []) e h = (x, refl, h.0)
only_one P (x ∷ y ∷ ys) e h = absurd (omega arith)
