-- ===== src/Storage/Item.antt =====
-- src/Utils/Storage/DatabaseItem.hpp: the stored device and the errors of the storage layer.
use watchlist.Prelude.{ℕ, Bool, Bytes}

pub record DatabaseItem : Type 0 where
  pub id : Bytes
  pub name : Bytes
  pub ip_address : Bytes
  pub port : ℕ
  pub alive : Bool

pub data DatabaseField : Type 0 where
  id name address port alive collection : DatabaseField

-- What a storage call can throw. `foreign` is not derived from `std::exception`.
pub data Failure : Type 0 where
  validation_error : DatabaseField → Bytes → Failure
  schema_error : Bytes → Failure
  logic_error : Bytes → Failure
  invalid_argument : Bytes → Failure
  sqlite_error : Bytes → Failure
  runtime_error : Bytes → Failure
  foreign : Failure

pub data Result {ℓ} (A : Type ℓ) : Type ℓ where
  ok : A → Result A
  err : Failure → Result A

infixl 5 ◌>>=◌ ◌>>◌
abbrev pub ◌>>=◌ {ℓ κ} : {A : Type ℓ} {B : Type κ} → Result A → (A → Result B) → Result B
err failure >>= next = err failure
ok value >>= next = next value

abbrev pub Done : Type 0
Done = Result (Unit {0})

abbrev pub ◌>>◌ {ℓ} : {B : Type ℓ} → Done → Result B → Result B
first >> second = first >>= λ _. second
