-- ===== src/Agent.antt =====
-- crates/carryctx-core/src/domain/agent.rs: agent kinds, names and records.
use Prim.Native.Char.{Char, code}
use Prim.Native.String.{len}
use carryctx.Base.{
  String, Bool, not, ◌&&◌, ◌||◌, Option, none, some, ◌==◌, if◌then◌else◌, leb, ltb, Result, ok, err,
}
use carryctx.Base.Text.{is_ascii_digit, is_ascii_uppercase, is_ascii_lowercase, all_chars}
use carryctx.Error.{CarryCtxError, validation_error}

pub data AgentStatus : Type 0 where
  active deactivated : AgentStatus

pub data AgentKind : Type 0 where
  commander subagent : AgentKind

-- `AgentKind::parse`
unfoldable pub parse_kind : String → Option AgentKind
parse_kind value =
    if value == "commander"
    then some commander
    else if value == "subagent"
    then some subagent
    else none

name_char : Char → Bool
unfolding is_ascii_digit is_ascii_uppercase is_ascii_lowercase
name_char c =
    is_ascii_digit c
    || is_ascii_uppercase c
    || is_ascii_lowercase c
    || leb (code c) b'-' && leb b'-' (code c)
    || leb (code c) b'_' && leb b'_' (code c)

-- `name.len()` counts bytes.
unfoldable pub validate_agent_name : String → Result CarryCtxError (Unit {0})
unfolding all_chars name_char
validate_agent_name name =
    if name == ""
    then err (validation_error "Agent name cannot be empty.")
    else if ltb 64 (len name)
    then err (validation_error "Agent name must be 64 characters or fewer.")
    else if not (all_chars name_char name)
    then err
        (validation_error "Agent name can only contain letters, numbers, hyphens, and underscores.")
    else ok tt

-- The record without its free-form metadata and timestamps, which no modelled operation reads.
pub record Agent : Type 0 where
  pub id : String
  pub project_id : String
  pub name : String
  pub role : Option String
  pub kind : Option String
  pub status : AgentStatus
