-- ===== src/Session/Frames.antt =====
-- What the session does to the database apart from the statements on shards: it draws identifiers and
-- writes rows of other tables.
use transport_lookout.Prelude.{String, ◌≤◌, ◌≡◌, refl, ◌∙◌, List, arith}
use transport_lookout.Config.{Env}
use transport_lookout.Model.{Field}
use transport_lookout.Session.{Session, commit, add_audit}

pub record Frames (s t : Session) : Type 0 where
  pub shards_same : t.db.shards ≡ s.db.shards
  pub drawn_le : s.db.drawn ≤ t.db.drawn

pub Frames-refl : (s : Session) → Frames s s
Frames-refl s = record { shards_same = refl; drawn_le = omega arith }

pub Frames-trans : {s t u : Session} → Frames s t → Frames t u → Frames s u
Frames-trans f g = record {
  shards_same = g.shards_same ∙ f.shards_same;
  drawn_le = omega (arith, f.drawn_le, g.drawn_le);
}

pub commit-Frames : (s : Session) → Frames s (commit s)
unfolding commit
commit-Frames s = record { shards_same = refl; drawn_le = omega arith }

pub add_audit-Frames :
    (env : Env) (actor action resource_type resource_id : String) (detail : List Field)
    (s : Session)
    → Frames s (add_audit env actor action resource_type resource_id detail s)
unfolding add_audit
add_audit-Frames env actor action resource_type resource_id detail s = record {
  shards_same = refl;
  drawn_le = omega arith;
}
