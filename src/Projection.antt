-- ===== src/Projection.antt =====
-- internal/projection/projection.go: keys and writes of projections, and their validation. A sentinel
-- error of the package stands for the `ValidationError` that wraps it; messages are left out.
pub mod Rules
mod Examples
use tamarackdb.Prelude.{
  ℕ, ◌+◌, ◌≡◌, ◌↔◌, Bool, true, false, ◌&&◌, not, List, [], Option, none, some, arith, length,
  if◌then◌else◌,
}
use tamarackdb.Prelude.Eq.{Eq, Bytes, bytes_beq, bytes_beq_iff}
use tamarackdb.Names.{valid_name, valid_value}
use tamarackdb.Dcb.Event.{first_error}

pub record Key : Type 0 where
  pub typ : Bytes
  pub id : Bytes

abbrev pub key_beq : Key → Key → Bool
key_beq a b = bytes_beq a.typ b.typ && bytes_beq a.id b.id

pub key_beq_iff : (a b : Key) → (key_beq a b ≡ true) ↔ (a ≡ b)
key_beq_iff a b = ground (arith, bytes_beq_iff a.typ b.typ, bytes_beq_iff a.id b.id)

instance abbrev pub projection_key_eq : Eq Key
projection_key_eq = record { beq = key_beq; beq_iff = key_beq_iff }

-- A nil payload is `none`.
pub record Create : Type 0 where
  pub key : Key
  pub payload : Option Bytes

pub record Replace : Type 0 where
  pub key : Key
  pub version : Bytes
  pub payload : Option Bytes

pub record Delete : Type 0 where
  pub key : Key
  pub version : Bytes

pub record Writes : Type 0 where
  pub creates : List Create
  pub replaces : List Replace
  pub deletes : List Delete

abbrev pub writes_len : Writes → ℕ
writes_len w = length w.creates + length w.replaces + length w.deletes

pub data ValidationError : Type 0 where
  missing_type missing_id invalid_type invalid_id missing_payload missing_version : ValidationError

unfoldable pub validate_key : Key → Option ValidationError
validate_key k =
    if bytes_beq k.typ []
    then some missing_type
    else if bytes_beq k.id []
    then some missing_id
    else if not (valid_name k.typ)
    then some invalid_type
    else if not (valid_value k.id)
    then some invalid_id
    else none

unfoldable pub validate_version : Bytes → Option ValidationError
validate_version version = if bytes_beq version [] then some missing_version else none

unfoldable pub validate_payload : Option Bytes → Option ValidationError
validate_payload none = some missing_payload
validate_payload (some p) = none

unfoldable pub validate_create : Create → Option ValidationError
unfolding validate_key validate_payload
validate_create c = first_error (validate_key c.key) (validate_payload c.payload)

unfoldable pub validate_replace : Replace → Option ValidationError
unfolding validate_key validate_version validate_payload
validate_replace r =
    first_error (validate_key r.key)
      (first_error (validate_version r.version) (validate_payload r.payload))

unfoldable pub validate_delete : Delete → Option ValidationError
unfolding validate_key validate_version
validate_delete d = first_error (validate_key d.key) (validate_version d.version)
