-- ===== src/Core/Replay/Decode.antt =====
-- packages/core/src/replay.ts: what a snapshot and an action envelope are read from, and what kind of
-- resource they are about.
use ahp_inspector.Base.{
  String, Bool, true, false, ◌&&◌, ◌||◌, Option, none, some, if◌then◌else◌, is_some, ◌>>=◌, str_eq,
  starts_with,
}
use ahp_inspector.Base.Int.{ℤ}
use ahp_inspector.Shared.Json.{Json, get, as_record, as_string, as_number, as_array, bool, truthy}
use ahp_inspector.Core.Replay.{
  ReplayResourceKind, root, session, chat, terminal, changeset, annotations, resource_watch,
  automation, automation_run, ReplayResourceKey, Protocol,
}

pub record DecodedSnapshot : Type 0 where
  pub resource : String
  pub state : Json
  pub from_seq : ℤ

pub record ActionOrigin : Type 0 where
  pub client_id : String
  pub client_seq : ℤ

pub record DecodedActionEnvelope : Type 0 where
  pub channel : String
  pub action : Json
  pub server_seq : ℤ
  pub origin : Option ActionOrigin
  pub rejection_reason : Option String

unfoldable pub read_snapshot : Json → Option DecodedSnapshot
unfolding as_record as_string as_number
read_snapshot value = do
  fields ← as_record (some value)
  resource ← as_string (get fields "resource")
  from_seq ← as_number (get fields "fromSeq")
  state ← as_record (get fields "state")
  some (record { resource = resource; state = state; from_seq = from_seq })

read_origin : Option Json → Option ActionOrigin
unfolding as_record as_string as_number
read_origin value = do
  fields ← as_record value
  client_id ← as_string (get fields "clientId")
  client_seq ← as_number (get fields "clientSeq")
  some (record { client_id = client_id; client_seq = client_seq })

unfoldable pub action_type_of : Option Json → Option String
unfolding as_record as_string
action_type_of action = do fields ← as_record action; as_string (get fields "type")

unfoldable pub read_action_envelope : Option Json → Option DecodedActionEnvelope
unfolding as_record as_string as_number read_origin action_type_of
read_action_envelope value = do
  fields ← as_record value
  channel ← as_string (get fields "channel")
  server_seq ← as_number (get fields "serverSeq")
  action ← as_record (get fields "action")
  _ ← action_type_of (some action)
  some (record {
    channel = channel;
    action = action;
    server_seq = server_seq;
    origin = read_origin (get fields "origin");
    rejection_reason = as_string (get fields "rejectionReason");
  })

-- tests of one property of a value
abbrev is_string : Json → String → Bool
is_string v key = is_some (as_string (get v key))

abbrev is_number : Json → String → Bool
is_number v key = is_some (as_number (get v key))

abbrev is_array : Json → String → Bool
is_array v key = is_some (as_array (get v key))

abbrev is_rec : Json → String → Bool
is_rec v key = is_some (as_record (get v key))

abbrev is_boolean : Json → String → Bool
is_boolean v key = elim (get v key) [ some (bool b) ↦ true | _ ↦ false ]

is_root_state : Json → Bool
is_root_state v = is_array v "agents"

is_session_state : Json → Bool
is_session_state v = is_string v "lifecycle" && is_array v "activeClients" && is_array v "chats"

is_chat_state : Json → Bool
is_chat_state v =
    is_string v "resource"
    && is_string v "title"
    && is_number v "status"
    && is_string v "modifiedAt"
    && is_array v "turns"

is_terminal_state : Json → Bool
is_terminal_state v =
    is_string v "title" && is_array v "content" && is_rec v "claim" && is_rec v "lifecycle"

legacy_summary : Option Json → Bool
legacy_summary none = false
legacy_summary (some summary) =
    is_string summary "title"
    && is_number summary "status"
    && (is_string summary "modifiedAt" || is_number summary "modifiedAt")

unfoldable pub is_legacy_session_state : Json → Bool
unfolding legacy_summary
is_legacy_session_state v =
    legacy_summary (as_record (get v "summary")) && is_string v "lifecycle" && is_array v "turns"

is_changeset_state : Json → Bool
is_changeset_state v = is_string v "status" && is_array v "files"

is_annotations_state : Json → Bool
is_annotations_state v = is_array v "annotations"

is_resource_watch_state : Json → Bool
is_resource_watch_state v = is_string v "root" && is_boolean v "recursive"

is_automation_catalog_state : Json → Bool
is_automation_catalog_state v = is_array v "automations"

is_automation_run_state : Json → Bool
is_automation_run_state v =
    is_string v "resource"
    && is_string v "automation"
    && is_rec v "origin"
    && is_rec v "lifecycle"
    && is_array v "sessions"

unfoldable pub infer_snapshot_kind : DecodedSnapshot → ReplayResourceKind
unfolding is_root_state is_session_state is_legacy_session_state is_chat_state is_terminal_state
    is_changeset_state is_annotations_state is_resource_watch_state is_automation_catalog_state
    is_automation_run_state
infer_snapshot_kind snapshot =
    let v = snapshot.state in
    if str_eq snapshot.resource "agenthost:/root"
    then root
    else if is_root_state v
    then root
    else if is_session_state v || is_legacy_session_state v
    then session
    else if is_chat_state v
    then chat
    else if is_terminal_state v
    then terminal
    else if is_changeset_state v
    then changeset
    else if is_annotations_state v
    then annotations
    else if is_resource_watch_state v
    then resource_watch
    else if is_automation_catalog_state v
    then automation
    else if is_automation_run_state v
    then automation_run
    else ReplayResourceKind.unknown

-- the kind that the name of an action begins with
unfoldable pub kind_of_action : String → ReplayResourceKind
kind_of_action type =
    if starts_with type "root/"
    then root
    else if starts_with type "session/"
    then session
    else if starts_with type "chat/"
    then chat
    else if starts_with type "terminal/"
    then terminal
    else if starts_with type "changeset/"
    then changeset
    else if starts_with type "annotations/"
    then annotations
    else if starts_with type "resourceWatch/"
    then resource_watch
    else if starts_with type "automationRun/"
    then automation_run
    else if starts_with type "automation/"
    then automation
    else ReplayResourceKind.unknown

unfoldable pub infer_known_action_target : String → String → ReplayResourceKey
unfolding kind_of_action
infer_known_action_target type channel = record { kind = kind_of_action type; uri = channel }

-- the type of an action that the protocol knows; the action itself is what it was
unfoldable pub read_known_action : Protocol → Option Json → Option String
unfolding action_type_of truthy
read_known_action protocol action = do
  type ← truthy (action_type_of action)
  if protocol.introduced type then some type else none
