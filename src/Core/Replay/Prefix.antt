-- ===== src/Core/Replay/Prefix.antt =====
-- What a replay depends on: the events up to its target.
use ahp_inspector.Base.{
  ℕ, suc, zero, ◌+◌, ◌<◌, ◌≤◌, List, [], ◌∷◌, ◌++◌, ◌≡◌, refl, ap, ◌∙◌, arith, length,
  length-append, take, true, ltb,
}
use ahp_inspector.Base.Int.{pos}
use ahp_inspector.Shared.Event.{AhpEvent}
use ahp_inspector.Core.Replay.{Protocol, ReplayContext}
use ahp_inspector.Core.Replay.Run.{replay_from, replay_to_index, in_range, process_event}

length-take : (n : ℕ) (es : List AhpEvent) → n ≤ length es → length (take n es) ≡ n
length-take zero es h = refl
length-take (suc n) [] h = elim h [ ]
length-take (suc n) (e ∷ es) h = ap suc (length-take n es (omega arith))

take_all : (n : ℕ) (es : List AhpEvent) → length es ≤ n → take n es ≡ es
take_all zero [] h = refl
take_all zero (e ∷ es) h = elim h [ ]
take_all (suc n) [] h = refl
take_all (suc n) (e ∷ es) h = ap (◌∷◌ e) (take_all n es (omega arith))

take_append : (n : ℕ) (es more : List AhpEvent) → n ≤ length es → take n (es ++ more) ≡ take n es
take_append zero es more h = refl
take_append (suc n) [] more h = elim h [ ]
take_append (suc n) (e ∷ es) more h = ap (◌∷◌ e) (take_append n es more (omega arith))

replay_from-append :
    (protocol : Protocol) (ctx : ReplayContext) (es more : List AhpEvent) (i : ℕ)
    → replay_from protocol ctx (es ++ more) i
      ≡ replay_from protocol (replay_from protocol ctx es i) more (i + length es)
unfolding replay_from
replay_from-append protocol ctx [] more i = ap (replay_from protocol ctx more) (omega arith)
replay_from-append protocol ctx (e ∷ es) more i =
    replay_from-append protocol (process_event protocol ctx e i) es more (suc i)
    ∙ ap
        (replay_from protocol (replay_from protocol (process_event protocol ctx e i) es (suc i))
          more)
        (omega arith)

-- A replay up to an event of the log does not change when the log grows.
pub replay_to_index-append :
    (protocol : Protocol) (es more : List AhpEvent) (i : ℕ)
    → i < length es
    → replay_to_index protocol (es ++ more) (pos i) ≡ replay_to_index protocol es (pos i)
unfolding replay_to_index in_range
replay_to_index-append protocol es more i h =
    let same = take_append (suc i) es more (omega arith) in
    let short = ltb_true i (length es) h in
    let long = ltb_true i (length (es ++ more)) (omega (arith, length-append es more)) in
    rw same (rw short (rw long refl))
  where
    ltb_true : (a b : ℕ) → a < b → ltb a b ≡ true
    ltb_true a b k = ground arith
