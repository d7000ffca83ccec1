-- ===== src/Server/AppState/Ingest.antt =====
-- packages/server/src/app-state.ts: the ingest loop, from a chunk's bytes to the store.
use ahp_inspector.Base.{
  ℕ, ◌+◌, String, Bool, not, Option, none, some, List, [], ◌∷◌, if◌then◌else◌, ltb, or_else,
  is_some,
}
use ahp_inspector.Base.Text.{append, show}
use ahp_inspector.Shared.Json.{Json}
use ahp_inspector.Shared.Event.{AhpEvent, NormalizeMeta, Direction, c2s}
use ahp_inspector.Shared.ParseError.{make_parse_error_event}
use ahp_inspector.Parser.Splitter.{
  Units, SplitLine, push_detailed, checkpoint, finalize_if, Outcome, result, overflow,
  utf8_byte_length,
}
use ahp_inspector.Parser.Normalizer.{normalize}
use ahp_inspector.Parser.Line.{parse_line, WireMeta, extract_wire_meta}
use ahp_inspector.Server.Frames.{read_error, complete}
use ahp_inspector.Server.AppState.{
  Runtime, AppState, emit_watch_error, on_oversized_bytes, report_skipped, emit_load_progress,
  loaded,
}
use ahp_inspector.Server.AppState.Rows.{store_append}

module _ (rt : Runtime) where
  ingest_meta : AppState → Direction → Option WireMeta → ℕ → NormalizeMeta
  unfolding show
  ingest_meta s dir none byte_length = record {
    seq = s.seq;
    dir = dir;
    ts = rt.now s.seq;
    ts_raw = show (rt.now s.seq);
    byte_offset = s.byte_offset;
    byte_length = byte_length;
  }
  ingest_meta s dir (some wire) byte_length = record {
    seq = s.seq;
    dir = or_else wire.dir dir;
    ts = wire.ts;
    ts_raw = wire.ts_raw;
    byte_offset = s.byte_offset;
    byte_length = byte_length;
  }

  event_of : AppState → Units → ℕ → Option String → Option Json → AhpEvent
  unfolding ingest_meta make_parse_error_event normalize extract_wire_meta
  event_of s text byte_length (some reason) raw =
      make_parse_error_event (ingest_meta s c2s none byte_length) reason (rt.text_of text)
  event_of s text byte_length none (some raw) =
      normalize raw
        (ingest_meta s (rt.infer_dir raw) (extract_wire_meta rt.lib.parse_date raw) byte_length)
  event_of s text byte_length none none =
      make_parse_error_event (ingest_meta s c2s none byte_length) "" (rt.text_of text)

  unfoldable pub event_of_line : AppState → SplitLine → AhpEvent
  unfolding event_of parse_line
  event_of_line s line =
      let parsed = parse_line rt.parse_json line.text s.byte_offset line.byte_length in
      event_of s parsed.text line.byte_length parsed.error parsed.raw

  unfoldable pub ingest_line : SplitLine → AppState → AppState
  unfolding event_of_line store_append
  ingest_line line s =
      let stored = store_append rt (event_of_line s line) s in
      record stored {
        seq = stored.seq + 1;
        byte_offset = stored.byte_offset + (line.byte_length + line.terminator_bytes);
      }

  unfoldable pub ingest_lines : List SplitLine → AppState → AppState
  unfolding ingest_line
  ingest_lines [] s = s
  ingest_lines (line ∷ lines) s = ingest_lines lines (ingest_line line s)

  -- the tail is a complete line
  unfoldable pub is_complete : AppState → Units → Bool
  unfolding parse_line utf8_byte_length
  is_complete s text =
      not (is_some (parse_line rt.parse_json text s.byte_offset (utf8_byte_length text)).error)

  unfoldable pub finalize_valid_tail : AppState → AppState
  unfolding is_complete finalize_if ingest_lines
  finalize_valid_tail s =
      let finalized = finalize_if (is_complete s) s.splitter in
      ingest_lines finalized.1 (record s { splitter = finalized.0 })

  -- the bytes of an oversized line up to here, which the splitter goes on dropping
  unfoldable pub take_checkpoint : AppState → AppState
  unfolding checkpoint on_oversized_bytes
  take_checkpoint s =
      let taken = checkpoint s.splitter in
      let counted = record s { splitter = taken.0 } in
      if ltb 0 taken.1 then on_oversized_bytes taken.1 0 counted else counted

  unfoldable pub on_initial_read_complete : ℕ → ℕ → AppState → AppState
  unfolding take_checkpoint finalize_valid_tail emit_load_progress
  on_initial_read_complete bytes total s =
      emit_load_progress complete
        (finalize_valid_tail (take_checkpoint (loaded bytes (some total) s)))

  unfoldable pub on_pushed : Outcome → AppState → AppState
  unfolding ingest_lines emit_watch_error
  on_pushed overflow s =
      emit_watch_error
        (record {
          code = read_error;
          message =
              append "Failed to parse log chunk: LineSplitter tail buffer exceeded "
                "16777216 bytes without a newline";
        })
        s
  on_pushed (result r) s =
      ingest_lines r.lines (record s { byte_offset = s.byte_offset + r.leading_bytes })

  -- a chunk's text; the splitter's callback runs before its call returns
  unfoldable pub on_text : Units → AppState → AppState
  unfolding push_detailed report_skipped on_pushed
  on_text text s =
      let pushed = push_detailed s.splitter text in
      on_pushed pushed.outcome
        (report_skipped pushed.skipped (record s { splitter = pushed.splitter }))

  unfoldable pub on_chunk : List ℕ → AppState → AppState
  unfolding on_text
  on_chunk bytes s =
      let decoded = rt.decode s.decoder bytes in
      on_text decoded.0 (record s { decoder = decoded.1 })
