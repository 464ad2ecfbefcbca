-- ===== src/Tx/State.antt =====
-- internal/tx/tx.go, projections.go, pause.go and stats.go: the types. A rule that a call breaks
-- stands for its message.
use tamarackdb.Prelude.{ℕ, Bool, List, Option}
use tamarackdb.Prelude.Eq.{Bytes}
use tamarackdb.Prelude.Assoc.{Assoc}
use tamarackdb.Prelude.Exec.{Exec}
use tamarackdb.Dcb.Event.{PendingEvent}
use tamarackdb.Dcb.Query.{Query, AppendCondition}
use tamarackdb.Projection.{Key}
use tamarackdb.Writer.{Server, WriterError, TurnEnv}

pub record Config : Type 0 where
  pub idle_timeout : ℕ
  pub max_events_per_tx : ℕ
  pub max_reads_per_tx : ℕ
  pub max_projections_per_tx : ℕ
  pub max_events_per_tx_read : ℕ
  pub max_open_tx : ℕ

pub record OpenCondition : Type 0 where
  pub query : Query
  pub position : ℕ

pub record ProjectionState : Type 0 where
  pub read_found : Bool
  pub read_version : Bytes
  pub unread : Bool
  pub found : Bool
  pub payload : Bytes
  pub written : Bool

pub record Transaction : Type 0 where
  pub id : Bytes
  pub busy : Bool
  pub last_used : ℕ
  pub open_condition : Option OpenCondition
  pub conditions : List AppendCondition
  pub events : List PendingEvent
  pub projections : Assoc Key ProjectionState
  pub touched : List Key
  pub written : ℕ

pub data PauseState : Type 0 where
  running pause_requested paused : PauseState

pub record Stats : Type 0 where
  pub begun : ℕ
  pub committed : ℕ
  pub abandoned : ℕ
  pub expired : ℕ
  pub design_errors : ℕ
  pub paused : ℕ
  pub busy : ℕ
  pub too_many : ℕ
  pub largest_read : ℕ

-- The registry with the server it writes to. `ticks` counts the readings of the clock, `ids` the
-- identifiers drawn.
pub record World : Type 0 where
  pub txs : Assoc Bytes Transaction
  pub stats : Stats
  pub pause : PauseState
  pub pause_since : ℕ
  pub server : Server
  pub ticks : ℕ
  pub ids : ℕ

pub data DesignRule : Type 0 where
  read_while_open write_without_read commit_while_open : DesignRule
  projections_while_open no_projection : DesignRule
  appears_twice created_while_found not_read_first replaced_while_absent : Key → DesignRule

pub data Limit : Type 0 where
  events_limit reads_limit projections_limit read_limit : Limit

pub data Conflict : Type 0 where
  already_exists created_since_read version_moved : Key → Conflict

pub data TxError : Type 0 where
  not_found busy_error too_many_error paused_error : TxError
  design : DesignRule → TxError
  too_large : Limit → ℕ → TxError
  conflict : Conflict → TxError
  writer_error : WriterError → TxError
  index_out_of_range : TxError

-- `cfg`, and what the registry takes from outside: its clock, the clock of `dcb.Now`, and the
-- generator of identifiers, each by the number of the call.
pub record TxEnv : Type 0 where
  pub cfg : Config
  pub now : ℕ → ℕ
  pub wall : ℕ → ℕ
  pub new_id : ℕ → Bytes
  pub turns : TurnEnv

abbrev pub Action : Type 0 → Type 0
Action A = Exec TxError World A

-- A call on a transaction: its value and the transaction as it leaves it.
abbrev pub Call : Type 0 → Type 0
Call A = Transaction → Action (A × Transaction)
