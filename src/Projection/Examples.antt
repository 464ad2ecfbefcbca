-- ===== src/Projection/Examples.antt =====
-- An instance of the theorem of Projection/Rules.antt.
use tamarackdb.Prelude.{◌≡◌, ◌≢◌, ◌↔◌, [], none, some}
use tamarackdb.Prelude.Eq.{bytes}
use tamarackdb.Projection.{
  Key, Create, Replace, Delete, validate_create, validate_replace, validate_delete,
}
use tamarackdb.Projection.Rules.{IsKey, validate_writes_iff}

abbrev user : Key
user = record { typ = bytes "user"; id = bytes "7" }

abbrev created : Create
created = record { key = user; payload = some (bytes "{}") }

abbrev replaced : Replace
replaced = record { key = user; version = bytes "v1"; payload = none }

abbrev deleted : Delete
deleted = record { key = user; version = [] }

validate_writes_iff_example :
    ((validate_create created ≡ none) ↔ (IsKey user × (created.payload ≢ none)))
    × ((validate_replace replaced ≡ none)
        ↔ (IsKey user × (replaced.version ≢ []) × (replaced.payload ≢ none)))
    × ((validate_delete deleted ≡ none) ↔ (IsKey user × (deleted.version ≢ [])))
validate_writes_iff_example = validate_writes_iff created replaced deleted
