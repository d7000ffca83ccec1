-- ===== src/Shared/Correlation.antt =====
-- packages/shared/src/correlation.ts: the key under which a request waits for its response.
pub mod Injective
use ahp_inspector.Base.{String, Option, none, or_else}
use ahp_inspector.Base.Text.{append, show}
use ahp_inspector.Shared.Event.{
  Direction, c2s, s2c, IdType, number, string, MessageId, num, str, AhpEvent,
}

abbrev pub CorrelationKey : Type 0
CorrelationKey = String

abbrev null_session : String
null_session = "∅"

abbrev pub dir_text : Direction → String
dir_text c2s = "c2s"
dir_text s2c = "s2c"

abbrev pub id_type_text : IdType → String
id_type_text number = "number"
id_type_text string = "string"
id_type_text IdType.null = "null"

-- `String(id)`
unfoldable pub id_text : MessageId → String
unfolding show
id_text (num n) = show n
id_text (str s) = s
id_text MessageId.null = "null"

unfoldable pub make_correlation_key :
    Option String → Direction → IdType → MessageId → CorrelationKey
make_correlation_key session request_dir id_type id = append (or_else session null_session) (
    append "::" (
      append (dir_text request_dir)
        (append "::" (append (id_type_text id_type) (append "::" (id_text id))))))

abbrev pub opposite : Direction → Direction
opposite c2s = s2c
opposite s2c = c2s

unfoldable pub correlation_key_for_request : AhpEvent → CorrelationKey
unfolding make_correlation_key
correlation_key_for_request ev = make_correlation_key none ev.dir ev.id_type ev.id

unfoldable pub correlation_key_for_response : AhpEvent → CorrelationKey
unfolding make_correlation_key
correlation_key_for_response ev = make_correlation_key none (opposite ev.dir) ev.id_type ev.id
