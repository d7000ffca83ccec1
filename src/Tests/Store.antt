-- ===== src/Tests/Store.antt =====
-- The store and its correlator: a request, and the response that answers it.
use ahp_inspector.Base.{
  ℕ, ◌≤◌, none, some, ◌≡◌, ◌⊎◌, refl, length, lookup, remove, insert, string_eq,
}
use ahp_inspector.Shared.Event.{s2c, c2s}
use ahp_inspector.Shared.Correlation.{
  CorrelationKey, opposite, correlation_key_for_request, correlation_key_for_response,
  make_correlation_key, id_text,
}
use ahp_inspector.Base.Text.{show}
use ahp_inspector.Parser.Normalizer.{normalize}
use ahp_inspector.Parser.Normalizer.Shapes.{normalize-IsNormal}
use ahp_inspector.Core.Store.{empty, append, at}
use ahp_inspector.Core.Store.Columns.{IsConsistent, empty-IsConsistent, append-IsConsistent}
use ahp_inspector.Core.Correlator.{
  ok, error, pair_of, status_of, max_pending, init, on_append, on_event, on_request, on_response,
  pair, park_request, displace_request, add_changed,
}
use ahp_inspector.Core.Correlator.Paired.{Answers}
use ahp_inspector.Core.Correlator.Runs.{
  System, start, ingest, ingests, Reach, here, next, pair_of-partner, parked_bounds,
  partners_same_id,
}
use ahp_inspector.Tests.Samples.{ping, pong, ping_message, pong_message, meta_of}

append-IsConsistent_example : IsConsistent (append (append empty ping) pong)
append-IsConsistent_example =
    append-IsConsistent (append empty ping) pong (append-IsConsistent empty ping empty-IsConsistent)

abbrev answered : System
answered = ingest (ingest start ping) pong

answered-Reach : Reach answered
answered-Reach = next (next here (ingests start ping)) (ingests (ingest start ping) pong)

paired_test : pair_of answered.correlator 0 ≡ some 1
unfolding pair_of append empty at init on_append on_event on_request on_response pair park_request
    displace_request normalize correlation_key_for_request correlation_key_for_response
    make_correlation_key id_text show add_changed lookup remove insert
paired_test = refl

pair_of-partner_example :
    (pair_of answered.correlator 1 ≡ some 0)
    × (Answers answered.store.events 0 1 ⊎ Answers answered.store.events 1 0)
    × (status_of answered.correlator 0 ≡ status_of answered.correlator 1)
    × ((status_of answered.correlator 0 ≡ ok) ⊎ (status_of answered.correlator 0 ≡ error))
pair_of-partner_example = pair_of-partner answered-Reach 0 1 paired_test

parked_bounds_example :
    (length answered.correlator.pending_requests ≤ max_pending)
    × (length answered.correlator.pending_responses ≤ max_pending)
    × ((k : CorrelationKey) (i : ℕ)
        → lookup k answered.correlator.pending_requests ≡ some i
        → lookup k answered.correlator.pending_responses ≡ none)
parked_bounds_example = parked_bounds answered-Reach

partners_same_id_example : (ping.dir ≡ opposite pong.dir) × (ping.id ≡ pong.id)
unfolding append empty at
partners_same_id_example =
    partners_same_id answered-Reach
      (
        (normalize-IsNormal ping_message (meta_of 0 c2s)).id_tag,
        ((normalize-IsNormal pong_message (meta_of 1 s2c)).id_tag, tt),
      )
      0 1 ping pong paired_test refl refl
