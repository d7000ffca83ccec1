-- ===== src/Tests/Shared.antt =====
-- Events, correlation keys and parse errors at concrete inputs.
use ahp_inspector.Base.{◌+◌, ◌≤◌, true, ◌≡◌, ◌↔◌, refl}
use ahp_inspector.Base.Int.{negsuc}
use ahp_inspector.Shared.Json.{obj, field, end, arr, cons, nil, num, null, bool}
use ahp_inspector.Shared.Stringify.{stringify}
use ahp_inspector.Shared.Event.{s2c, c2s}
use ahp_inspector.Shared.Correlation.{
  opposite, correlation_key_for_request, correlation_key_for_response,
}
use ahp_inspector.Shared.Correlation.Injective.{correlation_keys_iff}
use ahp_inspector.Shared.ParseError.{utf8_length, capped, max_raw_text_bytes, capped_bound}
use ahp_inspector.Parser.Normalizer.Shapes.{normalize-IsNormal}
use ahp_inspector.Tests.Samples.{ping, pong, ping_message, pong_message, meta_of}

stringify_test :
    stringify
      (obj (field "a\n" (arr (cons (num (negsuc 11)) (cons null nil))) (field "b" (bool true) end)))
    ≡ "{\"a\\n\":[-12,null],\"b\":true}"
unfolding stringify
stringify_test = refl

correlation_keys_iff_example :
    (correlation_key_for_request ping ≡ correlation_key_for_response pong)
    ↔ ((ping.dir ≡ opposite pong.dir) × (ping.id ≡ pong.id))
correlation_keys_iff_example =
    correlation_keys_iff ping pong (normalize-IsNormal ping_message (meta_of 0 c2s)).id_tag
      (normalize-IsNormal pong_message (meta_of 1 s2c)).id_tag

capped_bound_example :
    (utf8_length "{\"id\":" ≤ max_raw_text_bytes → capped "{\"id\":" ≡ "{\"id\":")
    × (utf8_length (capped "{\"id\":") ≤ max_raw_text_bytes + 2)
capped_bound_example = capped_bound "{\"id\":"
