-- ===== src/Storage/SqliteDatabase/Transactions.antt =====
-- The transactions of src/Utils/Storage/SQLiteDatabase.cpp, and what they rely on of SQLite.
use mathlib.Core.Path.{subst}
use watchlist.Prelude.{◌≡◌, refl, sym, ◌∙◌}
use watchlist.Storage.Item.{ok, err, Done}
use watchlist.Storage.SqliteDatabase.{
  Sqlite, then_run, end_transaction, within_transaction, transaction,
}

-- Where a statement succeeds.
abbrev pub Then : Done → Type 0 → Type 0
Then (ok _) P = P
Then (err e) P = Unit

-- Where a call throws.
abbrev pub Thrown : Done → Type 0 → Type 0
Thrown (ok _) P = Unit
Thrown (err e) P = P

pub Then-intro : (r : Done) (P : Type 0) → (r ≡ ok tt → P) → Then r P
Then-intro (ok _) P h = h refl
Then-intro (err e) P h = tt

pub Then-map : (r : Done) (P Q : Type 0) → (P → Q) → Then r P → Then r Q
Then-map (ok _) P Q f h = f h
Then-map (err e) P Q f h = tt

-- `S` is what a database holds, and `saved` what a rollback brings back: a transaction's begin saves what
-- is held. A begin that throws leaves the database as it was, and so does a commit that succeeds.
pub record KeepsTransactions (q : Sqlite) (S : Type 0) : Type 0 where
  pub stored : q.Db → S
  pub saved : q.Db → S
  pub begin_stored : (db : q.Db) → stored (q.begin_transaction db).1 ≡ stored db
  pub begin_saved :
      (db : q.Db) → Then (q.begin_transaction db).0 (saved (q.begin_transaction db).1 ≡ stored db)
  pub commit_stored : (db : q.Db) → Then (q.commit db).0 (stored (q.commit db).1 ≡ stored db)
  pub commit_saved : (db : q.Db) → saved (q.commit db).1 ≡ saved db
  pub rollback_stored : (db : q.Db) → stored (q.rollback db) ≡ saved db

module _ (q : Sqlite) where
  pub then_run-Then :
      (x : Done × q.Db) (f : q.Db → Done × q.Db) (R P : q.Db → Type 0)
      → Then x.0 (R x.1)
      → ((y : q.Db) → R y → Then (f y).0 (P (f y).1))
      → Then (then_run q x f).0 (P (then_run q x f).1)
  then_run-Then (ok _, y) f R P h step = step y h
  then_run-Then (err e, y) f R P h step = tt

  pub then_run-always :
      (x : Done × q.Db) (f : q.Db → Done × q.Db) (P : q.Db → Type 0)
      → P x.1
      → ((y : q.Db) → P y → P (f y).1)
      → P (then_run q x f).1
  then_run-always (ok _, y) f P h step = step y h
  then_run-always (err e, y) f P h step = h

  module _ {S : Type 0} (k : KeepsTransactions q S) where
    abbrev Rolled : Done × q.Db → S → Type 0
    Rolled x v = Thrown (end_transaction q x).0 (k.stored (end_transaction q x).1 ≡ v)

    rolled_back :
        (x : Done × q.Db) (v : S)
        → k.saved x.1 ≡ v
        → Thrown (end_transaction q x).0 (k.stored (end_transaction q x).1 ≡ v)
    rolled_back (ok _, db) v h = tt
    rolled_back (err e, db) v h = k.rollback_stored db ∙ h

    -- A transaction that throws leaves the database as it was.
    pub transaction-Thrown :
        (body : q.Db → Done × q.Db) (db : q.Db)
        → ((y : q.Db) → k.saved (body y).1 ≡ k.saved y)
        → Thrown (transaction q body db).0 (k.stored (transaction q body db).1 ≡ k.stored db)
    unfolding transaction within_transaction
    transaction-Thrown body db keeps =
        begun (q.begin_transaction db) (k.begin_stored db) (k.begin_saved db)
      where
        begun :
            (x : Done × q.Db)
            → k.stored x.1 ≡ k.stored db
            → Then x.0 (k.saved x.1 ≡ k.stored db)
            → Thrown
                (within_transaction q body x).0
                (k.stored (within_transaction q body x).1 ≡ k.stored db)
        begun (err e, y) same saved = same
        begun (ok _, y) same saved = rolled_back (then_run q (body y) q.commit) (k.stored db) (
            then_run-always (body y) q.commit (λ z. k.saved z ≡ k.stored db) (keeps y ∙ saved)
              (λ z h. k.commit_saved z ∙ h))

    committed :
        (x : Done × q.Db) (P : S → Type 0)
        → Then x.0 (P (k.stored x.1))
        → Then (end_transaction q x).0 (P (k.stored (end_transaction q x).1))
    committed (ok _, db) P h = h
    committed (err e, db) P h = tt

    commit-keeps :
        (P : S → Type 0) (y : q.Db)
        → P (k.stored y)
        → Then (q.commit y).0 (P (k.stored (q.commit y).1))
    commit-keeps P y h =
        Then-map (q.commit y).0 (k.stored (q.commit y).1 ≡ k.stored y) (P (k.stored (q.commit y).1))
          (λ e. subst P (sym e) h) (k.commit_stored y)

    -- What the body of a transaction establishes, the transaction does.
    pub transaction-Then :
        (body : q.Db → Done × q.Db) (db : q.Db) (P : S → Type 0)
        → ((y : q.Db) → k.stored y ≡ k.stored db → Then (body y).0 (P (k.stored (body y).1)))
        → Then (transaction q body db).0 (P (k.stored (transaction q body db).1))
    unfolding transaction within_transaction
    transaction-Then body db P step = begun (q.begin_transaction db) (k.begin_stored db)
      where
        begun :
            (x : Done × q.Db)
            → k.stored x.1 ≡ k.stored db
            → Then (within_transaction q body x).0 (P (k.stored (within_transaction q body x).1))
        begun (err e, y) same = tt
        begun (ok _, y) same = committed (then_run q (body y) q.commit) P (
            then_run-Then (body y) q.commit (λ z. P (k.stored z)) (λ z. P (k.stored z))
              (step y same) (commit-keeps P))
