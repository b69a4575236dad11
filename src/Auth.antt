-- ===== src/Auth.antt =====
-- src/auth.rs, and what both connection types are generic over.
use mzmq_rs.Prelude.{ℕ, Bool, false, Bytes}
use mzmq_rs.Heapless.{TableVecs}

pub data Mechanism : Type 0 where
  null plain : Mechanism

-- `AuthCheck::check`, by user name and password. Of an `Authenticator` it is `authenticate`, which
-- the application supplies.
abbrev pub AuthCheck : Type 0
AuthCheck = Bytes → Bytes → Bool

-- `impl AuthCheck for ()`
abbrev pub unit_check : AuthCheck
unit_check username password = false

-- The const parameters of a connection: entries and bytes per entry of its table, the capacity of its
-- frame decoder; the number of values of `usize`; the vectors of the table.
pub record Config : Type 1 where
  pub usize : ℕ
  pub max_entries : ℕ
  pub max_len : ℕ
  pub frame_cap : ℕ
  pub vecs : TableVecs max_entries max_len
