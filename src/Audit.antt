-- ===== src/Audit.antt =====
-- src/scanpod_enterprise/services.py: `audit`.
use transport_lookout.Prelude.{◌+◌, String, List, [], ◌∷◌, ◌++◌}
use transport_lookout.Config.{Env}
use transport_lookout.Model.{Db, AuditEvent, Field}

unfoldable pub audit : Env → String → String → String → String → List Field → Db → Db
audit env actor action resource_type resource_id detail db = record db {
  audits = db.audits ++ event ∷ [];
  drawn = db.drawn + 1;
}
  where
    event : AuditEvent
    event = record {
      id = env.uuid4 db.drawn;
      actor = actor;
      action = action;
      resource_type = resource_type;
      resource_id = resource_id;
      detail = detail;
    }
