-- ===== src/Lease/Platform.antt =====
-- What internal/tunnel/lease/store.go takes from outside the repository: JSON, base32, random bytes,
-- the clock, the listening sockets and bbolt. A transaction of bbolt happens whole or not at all.
use hyrule_network_proxy.Prelude.{ℕ, String, Bool, true, false, Option, List, ℤ}
use hyrule_network_proxy.Prelude.Map.{Map}
use hyrule_network_proxy.Lease.Error.{Result, ok, err, commit_failed}
use hyrule_network_proxy.Lease.Model.{Lease, Net}

-- json.Marshal and json.Unmarshal at a Lease, and the encoding of tokens.
pub record Platform : Type 0 where
  pub marshal : Lease → Option (List ℕ)
  pub unmarshal : List ℕ → Option Lease
  pub encode_token : List ℕ → String
  pub net : Net

-- What one operation meets: the ports that can be listened on, what rand.Read fills in, the clock,
-- and whether the transaction commits.
pub record Env : Type 0 where
  pub listen : ℕ → Bool
  pub random : Option (List ℕ)
  pub now : ℤ
  pub commits : Bool

-- The bucket "leases", if it exists: the marshalled rows by their keys.
abbrev pub Bucket : Type 0
Bucket = Map String (List ℕ)

pub record Db : Type 0 where
  pub bucket : Option Bucket

-- db.Update(f): the function's error rolls back, and so does a commit that fails.
abbrev pub commit : Bool → Result Db → Result Db
commit commits (err e) = err e
commit true (ok db) = ok db
commit false (ok db) = err commit_failed

unfoldable pub update : Bool → (Option Bucket → Result (Option Bucket)) → Db → Result Db
update commits f db =
    commit commits (elim (f db.bucket) [ ok b ↦ ok (record { bucket = b }) | err e ↦ err e ])
