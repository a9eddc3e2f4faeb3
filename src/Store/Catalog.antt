-- ===== src/Store/Catalog.antt =====
-- The tables of queues, targets and target revisions behind internal/store/queues.go, targets.go
-- and target_revisions.go. Each method runs in one transaction, so a method that ends in an error
-- leaves the tables as they were, and so does a failure of the database. A timestamp is a number.
pub mod Queues
pub mod Targets
pub mod Hosted
pub mod History
pub mod Restore
use speedtest_tracker.Base.{ℕ, String, Bool, true, false, List, [], ◌∷◌, Option, none, some}

pub record Queue : Type 0 where
  pub id : ℕ
  pub name : String
  pub created_at : ℕ

-- The JSON documents are texts. The queue name is no column: `scanTarget` fills it from the join.
pub record Target : Type 0 where
  pub id : ℕ
  pub name : String
  pub engine : String
  pub enabled : Bool
  pub queue_id : ℕ
  pub queue_name : String
  pub options : String
  pub thresholds : String
  pub rotation_index : ℕ
  pub created_at : ℕ
  pub updated_at : ℕ

pub data RevisionAction : Type 0 where
  create update delete revert restore : RevisionAction

-- A stored snapshot: a target, with the queue name "lane" that old ones carry instead of the id.
pub data Snapshot : Type 0 where
  garbled : Snapshot
  parsed : Target → String → Snapshot

pub record Revision : Type 0 where
  pub target_id : ℕ
  pub version : ℕ
  pub action : RevisionAction
  pub snapshot : Snapshot
  pub created_at : ℕ

-- Queues by ascending id; targets and revisions in the order of their insertion, newest first. The
-- numbers are the AUTOINCREMENT counters.
pub record Db : Type 0 where
  pub queues : List Queue
  pub next_queue : ℕ
  pub targets : List Target
  pub next_target : ℕ
  pub revisions : List Revision

pub data DbError : Type 0 where
  not_found name_conflict last_queue queue_in_use id_conflict unreadable not_positive : DbError

-- What migration 0007 leaves of an empty database.
unfoldable pub migrated : Db
migrated = record {
  queues =
      record { id = 1; name = "wan"; created_at = 0 }
      ∷ record { id = 2; name = "lan"; created_at = 0 }
      ∷ [];
  next_queue = 3;
  targets = [];
  next_target = 1;
  revisions = [];
}

-- A method returns the tables and either what it found or the error.
pub data Reply {ℓ} (A : Type ℓ) : Type ℓ where
  ok : A → Reply A
  err : DbError → Reply A
