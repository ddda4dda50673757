-- ===== src/Institution/Workers/SharedKeys.antt =====
-- Sources with the same content share one stored file
-- (apps/institution-server/institution_server/workers.py).
use predixa_learn.Prelude.{◌≡◌, Bool, Option, some, Text}
use predixa_learn.Institution.Storage.{validate_key}
use predixa_learn.Institution.Workers.State.{Source, Descriptor, Database, Library, Answer, refused}
use predixa_learn.Institution.Workers.Sources.{Upload, source_key, find_source}

-- A source that was staged has the key of its content.
record HasKey (lib : Library) (tenant id : Text) (u : Upload) (d : Descriptor) : Type 0 where
  stored : Text
  validated : validate_key (source_key lib tenant u.bytes) ≡ some stored
  in_descriptor : d.storage_key ≡ some stored
  id_is : d.artifact_id ≡ id

-- A source that passed its verification, after its file is gone
module _ (lib : Library) (d : Descriptor) (tenant : Text) (allow_assigned : Bool)
    (db db' : Database) (x : Text × Source)
    (found_again : find_source tenant d.artifact_id db' ≡ find_source tenant d.artifact_id db) where
  Missing : Answer (Text × Source) → Type 0
  Missing r = r ≡ refused 422 "source_missing"
