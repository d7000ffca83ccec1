-- ===== src/Server/Frames.antt =====
-- packages/server/src/app-state.ts: the frames that the server emits to its subscribers, and the texts
-- of its warnings. `toFixed` rounds a half up.
use Prim.Native.Char.{code}
use Prim.Native.String.{[], ◌∷◌}
use ahp_inspector.Base.{
  ℕ, ◌+◌, ◌*◌, ◌/◌, ◌%◌, String, str_eq, Bool, true, false, ◌&&◌, ◌||◌, Option, none, some, List,
  if◌then◌else◌, ltb, leb, ◌==◌, or_else, ◌-◌,
}
use ahp_inspector.Base.Int.{ℤ}
use ahp_inspector.Base.Text.{append, show_ℕ, digit, text_length, slice_units}
use ahp_inspector.Core.Correlator.{Status}
use ahp_inspector.Core.Row.{EventRow, LatencyBand}

pub record LogMeta : Type 0 where
  pub filename : String
  pub size_bytes : ℕ
  pub started_at : ℤ
  pub log_key : String

pub data WatchErrorCode : Type 0 where
  oversized_line read_error read_stat_failed read_stream_failed : WatchErrorCode
  reader_callback_failed watch_close_failed watch_failed watch_fatal : WatchErrorCode

pub data Phase : Type 0 where
  idle loading complete : Phase

pub data RotationReason : Type 0 where
  shrink rename : RotationReason

pub record PatchUpdate : Type 0 where
  pub idx : ℕ
  pub status : Status
  pub latency_ms : Option ℤ
  pub latency_band : Option LatencyBand
  pub summary : Option String
  pub pair_idx : Option ℕ

pub record LoadProgress : Type 0 where
  pub phase : Phase
  pub loaded_rows : ℕ
  pub loaded_bytes : ℕ
  pub total_bytes : Option ℕ
  pub percent : Option ℕ

pub record WatchError : Type 0 where
  pub code : WatchErrorCode
  pub message : String

pub data SsePayload : Type 0 where
  snapshot_begin : LogMeta → ℕ → SsePayload
  snapshot_chunk : List EventRow → ℕ → SsePayload
  snapshot_end : SsePayload
  append_rows : List EventRow → ℕ → SsePayload
  load_progress : LoadProgress → SsePayload
  stream_backlog : ℕ → ℕ → SsePayload
  patch : List PatchUpdate → SsePayload
  ping bye log_reset : SsePayload
  error : String → String → SsePayload
  rotation : ℕ → RotationReason → SsePayload
  watch_error : WatchError → SsePayload

-- `(n / unit).toFixed(1)`
to_fixed1 : ℕ → ℕ → String
unfolding show_ℕ digit
to_fixed1 n unit =
    let tenths = (n * 20 + unit) / (unit * 2) in
    append (show_ℕ (tenths / 10)) ("." ∷ digit (tenths % 10) ∷ [])

-- `(n / unit).toFixed(2)`
to_fixed2 : ℕ → ℕ → String
unfolding show_ℕ digit
to_fixed2 n unit =
    let cents = (n * 200 + unit) / (unit * 2) in
    append (show_ℕ (cents / 100)) ("." ∷ digit (cents / 10 % 10) ∷ digit (cents % 10) ∷ [])

unfoldable pub format_bytes : ℕ → String
unfolding to_fixed1 to_fixed2 show_ℕ
format_bytes n =
    if ltb n 1024
    then append (show_ℕ n) " B"
    else if ltb n (1024 * 1024)
    then append (to_fixed1 n 1024) " KiB"
    else if ltb n (1024 * 1024 * 1024)
    then append (to_fixed1 n (1024 * 1024)) " MiB"
    else append (to_fixed2 n (1024 * 1024 * 1024)) " GiB"

-- the fields of an exception that the server reads
pub record HostError : Type 0 where
  pub code : Option String
  pub system_code : Option String

abbrev known_code : String → Option WatchErrorCode
known_code code =
    if str_eq code "read-stat-failed"
    then some read_stat_failed
    else if str_eq code "read-stream-failed"
    then some read_stream_failed
    else if str_eq code "reader-callback-failed"
    then some reader_callback_failed
    else if str_eq code "watch-close-failed"
    then some watch_close_failed
    else if str_eq code "watch-failed"
    then some watch_failed
    else none

unfoldable pub tail_reader_error_code : HostError → Option WatchErrorCode
tail_reader_error_code err = elim err.code [ none ↦ none | some code ↦ known_code code ]

-- `/^[A-Z0-9_]+$/`
all_upper : String → Bool
all_upper [] = true
all_upper (c ∷ s) =
    ((leb b'A' (code c) && leb (code c) b'Z')
      || (leb b'0' (code c) && leb (code c) b'9')
      || code c == b'_')
    && all_upper s

is_system_code : String → Bool
unfolding all_upper
is_system_code [] = false
is_system_code (c ∷ s) = all_upper (c ∷ s)

-- `WATCH_ERROR_MESSAGES[code]`
watch_error_message : WatchErrorCode → Option String
watch_error_message read_stat_failed = some "Unable to read log metadata."
watch_error_message read_stream_failed = some "Unable to read log data."
watch_error_message reader_callback_failed = some "The log reader callback failed."
watch_error_message watch_close_failed = some "Unable to stop watching the log."
watch_error_message watch_failed = some "Unable to watch the log for changes."
watch_error_message _ = none

with_system_code : String → Option String → String
unfolding is_system_code slice_units text_length
with_system_code base none = base
with_system_code base (some system) =
    if is_system_code system
    then append (slice_units (text_length base - 1) base) (append " (" (append system ")."))
    else base

unfoldable pub watch_error_payload : HostError → Bool → WatchError
unfolding tail_reader_error_code watch_error_message with_system_code
watch_error_payload err fatal =
    let code = or_else (tail_reader_error_code err) (if fatal then watch_fatal else read_error) in
    let base =
      or_else (watch_error_message code)
        (if fatal then "Unable to watch the log for changes." else "Unable to read log data.") in
    record { code = code; message = with_system_code base err.system_code }
