-- ===== src/Storage/SqliteDatabase/Initialize/Steps.antt =====
-- Statements of src/Utils/Storage/SQLiteDatabase.cpp one behind the other, and within a transaction.
use mathlib.Core.Path.{subst}
use watchlist.Prelude.{Bool, true, false, ◌≡◌, refl}
use watchlist.Storage.Item.{Failure, Result, ok, err, Done}
use watchlist.Storage.SqliteDatabase.{check}
use watchlist.Storage.SqliteDatabase.Initialize.{read_then}
use watchlist.Storage.SqliteDatabase.Transactions.{Then, Thrown}
use watchlist.Storage.SqliteDatabase.Initialize.Laws.{Returns}

pub returned : {A : Type 0} (r : Result A) (a wanted : A) → Returns r wanted → r ≡ ok a → a ≡ wanted
returned r a wanted h e = subst (λ r. Returns r wanted) e h

pub check-ok : (b : Bool) (f : Failure) → check b f ≡ ok tt → b ≡ false
unfolding check
check-ok true f h = absurd cc
check-ok false f h = refl

pub read_then-Then :
    {A D : Type 0} (m : Result A) (f : A → D → Done × D) (db : D) (P : D → Type 0)
    → ((a : A) → m ≡ ok a → Then (f a db).0 (P (f a db).1))
    → Then (read_then m f db).0 (P (read_then m f db).1)
read_then-Then (ok a) f db P step = step a refl
read_then-Then (err e) f db P step = tt

pub read_then-Thrown :
    {A D : Type 0} (m : Result A) (f : A → D → Done × D) (db : D) (P : D → Type 0)
    → P db
    → ((a : A) → Thrown (f a db).0 (P (f a db).1))
    → Thrown (read_then m f db).0 (P (read_then m f db).1)
read_then-Thrown (ok a) f db P h step = step a
read_then-Thrown (err e) f db P h step = h

pub read_then-always :
    {A D : Type 0} (m : Result A) (f : A → D → Done × D) (db : D) (P : D → Type 0)
    → P db
    → ((a : A) → P (f a db).1)
    → P (read_then m f db).1
read_then-always (ok a) f db P h step = step a
read_then-always (err e) f db P h step = h
