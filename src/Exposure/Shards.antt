-- ===== src/Exposure/Shards.antt =====
-- The read model is rebuilt without touching a shard.
use transport_lookout.Prelude.{ℕ, arith}
use transport_lookout.Config.{Env}
use transport_lookout.Model.{Db, ScanRun}
use transport_lookout.Exposure.{materialize_current_exposures}
use transport_lookout.Shard.Change.{IsValid, Change, Change-frame}

pub materialize_current_exposures-Change :
    (env : Env) (now : ℕ) (run : ScanRun) (db : Db)
    → IsValid env db
    → Change env db (materialize_current_exposures env now run db).1
materialize_current_exposures-Change env now run db v =
    Change-frame _ v (unfold materialize_current_exposures in ground arith)
      (unfold materialize_current_exposures in ground arith)
