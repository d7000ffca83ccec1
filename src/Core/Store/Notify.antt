-- ===== src/Core/Store/Notify.antt =====
-- The listeners of a store: `subscribe`, the closure that unsubscribes, and the loop of `append` that
-- tells each of the new range. Functions are told apart by their place in the program, a number. A
-- listener acts on a state and may throw; the loop counts a warning and goes on.
use ahp_inspector.Base.{ℕ, ◌+◌, Bool, [], ◌∷◌, if◌then◌else◌, Map, insert, remove, nat_eq}
use ahp_inspector.Shared.Event.{AhpEvent}
use ahp_inspector.Core.Store.{EventStore, AppendRange, append, range_of}

-- the state that the listener leaves, and whether it threw
abbrev pub AppendListener {ℓ} : Type ℓ → Type ℓ
AppendListener S = AppendRange → S → S × Bool

abbrev pub Listeners {ℓ} : Type ℓ → Type ℓ
Listeners S = Map ℕ (AppendListener S)

module _ {ℓ} {S : Type ℓ} where
  unfoldable pub subscribe : Listeners S → ℕ → AppendListener S → Listeners S
  unfolding insert
  subscribe subs id fn = insert id fn subs

  unfoldable pub unsubscribe : Listeners S → ℕ → Listeners S
  unfolding remove
  unsubscribe subs id = remove id subs

  unfoldable pub dispatch : Listeners S → AppendRange → S → ℕ → S × ℕ
  dispatch [] range s warnings = (s, warnings)
  dispatch ((_, fn) ∷ subs) range s warnings =
      dispatch subs range (fn range s).0 (warnings + (if (fn range s).1 then 1 else 0))

  -- `append` as a whole: the columns first, then the listeners
  unfoldable pub append_and_notify :
      Listeners S → EventStore → AhpEvent → (EventStore → S) → EventStore × S × ℕ
  unfolding dispatch append
  append_and_notify subs store ev view =
      let store' = append store ev in
      let (s, warnings) = dispatch subs (range_of store) (view store') 0 in (store', s, warnings)
