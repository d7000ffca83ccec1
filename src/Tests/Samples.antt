-- ===== src/Tests/Samples.antt =====
-- Messages and events that the tests share.
use ahp_inspector.Base.{ℕ, ◌*◌}
use ahp_inspector.Base.Int.{pos}
use ahp_inspector.Shared.Json.{Json, obj, field, end, str, num, null}
use ahp_inspector.Shared.Event.{Direction, c2s, s2c, NormalizeMeta, AhpEvent}
use ahp_inspector.Parser.Normalizer.{normalize}

abbrev pub meta_of : ℕ → Direction → NormalizeMeta
meta_of seq dir = record {
  seq = seq;
  dir = dir;
  ts = pos (100 * seq);
  ts_raw = "";
  byte_offset = 40 * seq;
  byte_length = 39;
}

abbrev pub ping_message : Json
ping_message = obj (field "id" (num (pos 1)) (field "method" (str "ping") end))

abbrev pub pong_message : Json
pong_message = obj (field "id" (num (pos 1)) (field "result" null end))

abbrev pub ping : AhpEvent
ping = normalize ping_message (meta_of 0 c2s)

abbrev pub pong : AhpEvent
pong = normalize pong_message (meta_of 1 s2c)
