-- ===== src/Tests/App.antt =====
-- An open log: a request and its response in two chunks, the second without its newline.
use ahp_inspector.Base.{
  length, ◌≤◌, ℕ, ◌%◌, String, true, none, some, List, [], ◌∷◌, map, ◌≡◌, refl, ◌∙◌, arith, ◌⊎◌,
  inl, inr, if◌then◌else◌, ◌==◌,
}
use ahp_inspector.Base.Int.{pos}
use ahp_inspector.Shared.Json.{Json, has}
use ahp_inspector.Shared.Event.{Direction, c2s, s2c}
use ahp_inspector.Parser.Splitter.{Units}
use ahp_inspector.Parser.Splitter.Bytes.{well_formed}
use ahp_inspector.Parser.Splitter.Balance.{well_formed-cons}
use ahp_inspector.Shared.Correlation.{correlation_key_for_request, correlation_key_for_response}
use ahp_inspector.Core.Store.{size}
use ahp_inspector.Core.Correlator.{ok, pair_of, latency_of, status_of}
use ahp_inspector.Core.Labels.{TextLibrary}
use ahp_inspector.Server.AppState.{Runtime, create_app_state}
use ahp_inspector.Server.AppState.Calls.{
  Call, read_start, read_complete, chunk, tick, run, run-Synced,
}
use ahp_inspector.Server.AppState.Synced.{IsSynced}
use ahp_inspector.Server.AppState.Views.{replayed_warnings, replayed_warnings-bound}
use ahp_inspector.Server.AppState.Account.{Account, bytes_read, run-Account}
use ahp_inspector.Tests.Samples.{ping_message, pong_message}

abbrev lib : TextLibrary
lib = record {
  lower = λ s. s;
  decode_base64 = λ s. none;
  decode_uri = λ s. some s;
  parse_json = λ s. none;
  parse_date = λ s. none;
}

-- "p" stands for the request's text, "r" for the response's
abbrev parse : Units → Json ⊎ String
parse (c ∷ []) =
    if c == b'p'
    then inl ping_message
    else if c == b'r'
    then inl pong_message
    else inr "Unexpected token"
parse _ = inr "Unexpected token"

abbrev direction : Json → Direction
direction v = if has v "method" then c2s else s2c

abbrev ascii : List ℕ → List ℕ → Units × List ℕ
ascii held bytes = (map (λ b. b % 128) bytes, [])

abbrev pub runtime : Runtime
runtime = record {
  lib = lib;
  decode = ascii;
  parse_json = parse;
  text_of = λ u. "";
  infer_dir = direction;
  now = λ n. pos n;
  summarize = λ ev method. "";
}

ascii-paired : (held bytes : List ℕ) → well_formed (ascii held bytes).0 ≡ true
unfolding well_formed
ascii-paired held [] = refl
ascii-paired held (b ∷ bytes) =
    well_formed-cons (b % 128) (map (λ b. b % 128) bytes) (ground arith) ∙ ascii-paired held bytes

abbrev pub calls : List Call
calls =
    read_start 3
    ∷ chunk (b'p' ∷ 10 ∷ [])
    ∷ chunk (b'r' ∷ [])
    ∷ read_complete 3 3
    ∷ tick (pos 100) (pos 30)
    ∷ []

run-Synced_example : IsSynced (run runtime calls)
run-Synced_example = run-Synced runtime calls

run-Account_example : Account (bytes_read runtime calls create_app_state 0) (run runtime calls)
run-Account_example = run-Account runtime ascii-paired calls

offset_test : (run runtime calls).byte_offset ≡ 3
unfolding run size correlation_key_for_request correlation_key_for_response
offset_test = refl

statuses_test : map (λ row. row.status) (run runtime calls).rows ≡ ok ∷ ok ∷ []
unfolding run size correlation_key_for_request correlation_key_for_response pair_of latency_of
    status_of
statuses_test = refl

replayed_warnings-bound_example : length (replayed_warnings (run runtime calls)) ≤ 50
replayed_warnings-bound_example = replayed_warnings-bound runtime calls
