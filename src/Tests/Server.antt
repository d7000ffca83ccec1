-- ===== src/Tests/Server.antt =====
-- The cache of replays at a log that grows.
use ahp_inspector.Base.{[], ◌∷◌, ◌==◌, ◌≡◌, refl}
use ahp_inspector.Base.Int.{pos}
use ahp_inspector.Core.Replay.Run.{replay_to_index}
use ahp_inspector.Server.StateReplayIndex.{Host, StateReplayIndex, new_index, reset, state_at_index}
use ahp_inspector.Server.StateReplayIndex.Transparent.{
  IsValid, state_at_index-replay, fresh-IsValid,
}
use ahp_inspector.Tests.Samples.{ping, pong}
use ahp_inspector.Tests.Replay.{protocol}

-- events are told apart by their sequence numbers, and each replay counts for 100 bytes
abbrev host : Host
host = record { protocol = protocol; same = λ a b. a.seq == b.seq; estimate = λ result stop. 100 }

abbrev index : StateReplayIndex
index = new_index (ping ∷ []) 2 250

fresh-IsValid_example :
    IsValid host (ping ∷ []) (new_index (ping ∷ []) 2 250)
    × IsValid host (ping ∷ []) (reset (ping ∷ []) index)
fresh-IsValid_example = fresh-IsValid host (ping ∷ []) 2 250 index

-- the replay to event 0, cached, and again when the log has grown
abbrev warm : StateReplayIndex
warm = (state_at_index host (ping ∷ []) (pos 0) index).1

warm-IsValid : IsValid host (ping ∷ []) warm
warm-IsValid =
    (state_at_index-replay host (ping ∷ []) (ping ∷ []) (pos 0) index (λ _. ([], refl))
      (fresh-IsValid host (ping ∷ []) 2 250 index).0).1

state_at_index-replay_example :
    ((state_at_index host (ping ∷ pong ∷ []) (pos 0) warm).0.result
      ≡ replay_to_index protocol (ping ∷ pong ∷ []) (pos 0))
    × IsValid host (ping ∷ pong ∷ []) (state_at_index host (ping ∷ pong ∷ []) (pos 0) warm).1
state_at_index-replay_example =
    state_at_index-replay host (ping ∷ []) (ping ∷ pong ∷ []) (pos 0) warm (λ _. (pong ∷ [], refl))
      warm-IsValid
