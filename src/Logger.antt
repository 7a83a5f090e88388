-- ===== src/Logger.antt =====
-- The log lines (kvcluster/raft/logger.hpp). The stream that they go to is a text at whose end each
-- line is put; the constructor's minimal level is used nowhere in the source.
use raft_drive.Prelude.{
  ℕ, zero, suc, ◌+◌, ◌/◌, ◌%◌, Bool, true, false, [], ◌∷◌, ◌++◌, if◌then◌else◌, ◌==◌, Bytes, bytes,
  ℤ, pos, negsuc,
}

pub data LogLevel : Type 0 where
  debug info warn error : LogLevel

pub data LogType : Type 0 where
  statechange election heartbeat replication deletion apply persister_event snapshot_event
        error_event :
      LogType
  kv_request kv_reply kv_statemachine kv_error : LogType

pub record LogEvent : Type 0 where
  pub type : LogType
  pub id : ℤ
  pub current_term : ℕ
  pub message : Bytes
  pub is_raft : Bool

unfoldable pub raft_event : LogType → ℤ → ℕ → Bytes → LogEvent
raft_event type id term message = record {
  type = type;
  id = id;
  current_term = term;
  message = message;
  is_raft = true;
}

unfoldable pub server_event : LogType → ℤ → Bytes → LogEvent
server_event type id message = record {
  type = type;
  id = id;
  current_term = 0;
  message = message;
  is_raft = false;
}

unfoldable pub type_to_string : LogType → Bytes
type_to_string statechange = bytes "STATECHANGE"
type_to_string election = bytes "ELECTION"
type_to_string heartbeat = bytes "HEARTBEAT"
type_to_string replication = bytes "REPLICATION"
type_to_string deletion = bytes "DELETION"
type_to_string apply = bytes "APPLY"
type_to_string persister_event = bytes "PERSISTER"
type_to_string snapshot_event = bytes "SNAPSHOT"
type_to_string error_event = bytes "ERROR"
type_to_string kv_request = bytes "KV_REQ"
type_to_string kv_reply = bytes "KV_REP"
type_to_string kv_statemachine = bytes "KV_STATEMACHINE"
type_to_string kv_error = bytes "KV_ERROR"

unfoldable pub level_to_string : LogLevel → Bytes
level_to_string debug = bytes "DEBUG"
level_to_string info = bytes "INFO"
level_to_string warn = bytes "WARN"
level_to_string error = bytes "ERROR"

-- `os << n`: at most 10 decimal digits for a number of 32 bits.
unfoldable pub decimal_from : ℕ → ℕ → Bytes → Bytes
decimal_from zero n digits = digits
decimal_from (suc k) n digits =
    let more = (48 + n % 10) ∷ digits in
    let rest = decimal_from k (n / 10) more in if n / 10 == 0 then more else rest

abbrev pub decimal : ℕ → Bytes
decimal n = decimal_from 10 n []

abbrev pub decimal_int : ℤ → Bytes
decimal_int (pos n) = decimal n
decimal_int (negsuc n) = bytes "-" ++ decimal (n + 1)

unfoldable pub event_to_string : LogEvent → Bytes
unfolding type_to_string decimal_from
event_to_string e =
    if e.is_raft
    then bytes "Raft: "
      ++ (decimal_int e.id
          ++ (bytes " CurrentTerm: "
              ++ (decimal e.current_term
                  ++ (bytes " [" ++ (type_to_string e.type ++ (bytes "] " ++ e.message))))))
    else bytes "Server: "
      ++ (decimal_int e.id ++ (bytes " [" ++ (type_to_string e.type ++ (bytes "] " ++ e.message))))

abbrev log_line : Bytes → LogLevel → LogEvent → Bytes
log_line source level e =
    source
    ++ (bytes " [" ++ (level_to_string level ++ (bytes "] " ++ (event_to_string e ++ (10 ∷ [])))))

abbrev is_debug : LogLevel → Bool
is_debug debug = true
is_debug info = false
is_debug warn = false
is_debug error = false

unfoldable pub log_raft : LogLevel → LogEvent → Bytes → Bytes
unfolding event_to_string level_to_string
log_raft level e out = if is_debug level then out else out ++ log_line (bytes "[Raft]") level e

unfoldable pub log_kv_server : LogLevel → LogEvent → Bytes → Bytes
unfolding event_to_string level_to_string
log_kv_server level e out =
    if is_debug level then out else out ++ log_line (bytes "[KVServer]") level e
