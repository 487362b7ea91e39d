-- ===== src/Models/Playstate.antt =====
-- src/models/playstate.rs
pub mod Upsert
use vorleser_server.Prelude.{List, [], ◌∷◌}
use vorleser_server.Exec.{pure, ◌>>=◌, ◌>>◌, for_each}
use vorleser_server.Db.{Uuid, NaiveDateTime, F64, User, Playstate}
use vorleser_server.Db.Table
use vorleser_server.Db.Backend.{Backend, Query}

-- A `DateTime<Utc>` is the same instant as the naive time.
pub record ApiPlaystate : Type 0 where
  pub audiobook_id : Uuid
  pub position : F64
  pub timestamp : NaiveDateTime

unfoldable pub to_api_playstate : Playstate → ApiPlaystate
to_api_playstate self = record {
  audiobook_id = self.audiobook_id;
  position = self.position;
  timestamp = self.timestamp;
}

unfoldable pub to_playstate : ApiPlaystate → User → Playstate
to_playstate self user = record {
  audiobook_id = self.audiobook_id;
  user_id = user.id;
  position = self.position;
  timestamp = self.timestamp;
}

module _ (B : Backend) where
  unfoldable pub upsert : Playstate → Query B.State Playstate
  upsert self = do B.playstates.replace (self ∷ []); pure self

  -- The transaction of `update_playstates` in src/api/libraries.rs.
  unfoldable pub upsert_all : User → List ApiPlaystate → Query B.State (Unit {0})
  upsert_all current_user states =
      for_each (λ state. upsert (to_playstate state current_user)) states
