-- ===== src/Session.antt =====
-- The worker's SQLAlchemy session (src/scanpod_enterprise/db.py: `SessionLocal`): the committed
-- database, and the rows that the transaction has added since the last commit. There is no automatic
-- flush. An exception that the code lets through is a value.
pub mod Frames
use transport_lookout.Prelude.{ℕ, ◌+◌, String, Option, List, [], ◌∷◌, ◌++◌}
use transport_lookout.Config.{Env}
use transport_lookout.Model.{
  Db, HostObservation, ServiceObservation, DiscoveryObservation, AuditEvent, Field,
}

-- `type(exc).__name__`, `exc.stderr` where there is one, and `str(exc)`.
pub record Failure : Type 0 where
  pub type_name : String
  pub stderr : Option String
  pub message : String

pub data Try {ℓ} (A : Type ℓ) : Type ℓ where
  raised : Failure → Try A
  returned : A → Try A

infixl 5 ◌>>=◌
abbrev pub ◌>>=◌ {ℓ κ} : {B : Type κ} {A : Type ℓ} → Try B → (B → Try A) → Try A
raised failure >>= next = raised failure
returned value >>= next = next value

pub record Session : Type 0 where
  pub db : Db
  pub new_hosts : List HostObservation
  pub new_services : List ServiceObservation
  pub new_discoveries : List DiscoveryObservation
  pub new_audits : List AuditEvent

abbrev pub open_session : Db → Session
open_session db = record {
  db = db;
  new_hosts = [];
  new_services = [];
  new_discoveries = [];
  new_audits = [];
}

-- `session.commit()`
unfoldable pub commit : Session → Session
commit s = open_session (record s.db {
  hosts = s.db.hosts ++ s.new_hosts;
  services = s.db.services ++ s.new_services;
  discoveries = s.db.discoveries ++ s.new_discoveries;
  audits = s.db.audits ++ s.new_audits;
})

-- `session.rollback()`
unfoldable pub rollback : Session → Session
rollback s = open_session s.db

-- An identifier is drawn for a row; it is not given back by a rollback.
abbrev pub draw : Session → Session
draw s = record s { db = record s.db { drawn = s.db.drawn + 1 } }

unfoldable pub add_audit : Env → String → String → String → String → List Field → Session → Session
add_audit env actor action resource_type resource_id detail s = record (draw s) {
  new_audits =
      s.new_audits
      ++ record {
        id = env.uuid4 s.db.drawn;
        actor = actor;
        action = action;
        resource_type = resource_type;
        resource_id = resource_id;
        detail = detail;
      }
        ∷ [];
}
