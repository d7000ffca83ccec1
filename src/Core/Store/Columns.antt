-- ===== src/Core/Store/Columns.antt =====
-- The columns and the side indices agree with the events.
use mathlib.Core.List.{map-append, append-nil}
use ahp_inspector.Base.{
  ℕ, ◌+◌, String, Bool, false, Option, none, some, List, [], ◌∷◌, ◌++◌, map, ◌≡◌, refl, sym, ap,
  subst, ◌∙◌, arith, length, if◌then◌else◌, Eq, Map, lookup, or_else, lookup-insert, string_eq,
  str_eq, Bool-cases, inl, inr,
}
use ahp_inspector.Shared.Event.{AhpEvent, EventKind, Direction}
use ahp_inspector.Core.Store.{EventStore, append, push_index, index_method, empty, kind_eq, dir_eq}

-- the indices, from `i` on, of the events that pass the test
pub positions : (AhpEvent → Bool) → ℕ → List AhpEvent → List ℕ
positions p i [] = []
positions p i (e ∷ es) = let rest = positions p (i + 1) es in if p e then i ∷ rest else rest

positions-append :
    (p : AhpEvent → Bool) (i : ℕ) (es : List AhpEvent) (e : AhpEvent)
    → positions p i (es ++ e ∷ []) ≡ positions p i es ++ (if p e then (i + length es) ∷ [] else [])
unfolding positions
positions-append p i [] e = ground arith
positions-append p i (x ∷ es) e = ground (arith, positions-append p (i + 1) es e)

module _ {ℓ} {K : Type ℓ} ⦃e : Eq K⦄ where
  abbrev indices : K → Map K (List ℕ) → List ℕ
  indices k m = or_else (lookup k m) []

  indices-push :
      (m : Map K (List ℕ)) (j k : K) (i : ℕ)
      → indices k (push_index m j i) ≡ indices k m ++ (if e.beq j k then i ∷ [] else [])
  unfolding push_index
  indices-push m j k i = elim (Bool-cases (e.beq j k)) [
    | inl same ↦ rw (lookup-insert j k _ m) (rw same (rw ((e.beq_iff j k).0 same)))
    | inr other ↦ rw (lookup-insert j k _ m) (rw other (rw append-nil))
  ]

abbrev names : String → Option String → Bool
names k none = false
names k (some m) = str_eq m k

pub record IsConsistent (s : EventStore) : Type 0 where
  pub seq : s.seq ≡ map (λ e. e.seq) s.events
  pub ts : s.ts ≡ map (λ e. e.ts) s.events
  pub ts_raw : s.ts_raw ≡ map (λ e. e.ts_raw) s.events
  pub kind : s.kind ≡ map (λ e. e.kind) s.events
  pub dir : s.dir ≡ map (λ e. e.dir) s.events
  pub method : s.method ≡ map (λ e. e.method) s.events
  pub id : s.id ≡ map (λ e. e.id) s.events
  pub id_type : s.id_type ≡ map (λ e. e.id_type) s.events
  pub session_id : s.session_id ≡ map (λ e. e.session_id) s.events
  pub action_type : s.action_type ≡ map (λ e. e.action_type) s.events
  pub server_seq : s.server_seq ≡ map (λ e. e.server_seq) s.events
  pub byte_offset : s.byte_offset ≡ map (λ e. e.byte_offset) s.events
  pub byte_length : s.byte_length ≡ map (λ e. e.byte_length) s.events
  pub by_kind :
      (k : EventKind) → indices k s.by_kind ≡ positions (λ e. kind_eq.beq e.kind k) 0 s.events
  pub by_dir : (d : Direction) → indices d s.by_dir ≡ positions (λ e. dir_eq.beq e.dir d) 0 s.events
  pub by_method :
      (m : String) → indices m s.by_method ≡ positions (λ e. names m e.method) 0 s.events

pub empty-IsConsistent : IsConsistent empty
unfolding empty positions lookup
empty-IsConsistent = record {
  seq = refl;
  ts = refl;
  ts_raw = refl;
  kind = refl;
  dir = refl;
  method = refl;
  id = refl;
  id_type = refl;
  session_id = refl;
  action_type = refl;
  server_seq = refl;
  byte_offset = refl;
  byte_length = refl;
  by_kind = λ k. refl;
  by_dir = λ d. refl;
  by_method = λ m. refl;
}

-- a column grows with the events
column {ℓ} :
    {A : Type ℓ} (f : AhpEvent → A) (xs : List A) (es : List AhpEvent) (e : AhpEvent)
    → xs ≡ map f es
    → xs ++ f e ∷ [] ≡ map f (es ++ e ∷ [])
column f xs es e h = rw h (sym (map-append f es (e ∷ [])))

-- a list of indices grows with the events
grown :
    (p : AhpEvent → Bool) (xs : List ℕ) (es : List AhpEvent) (e : AhpEvent)
    → xs ≡ positions p 0 es
    → xs ++ (if p e then length es ∷ [] else []) ≡ positions p 0 (es ++ e ∷ [])
grown p xs es e h =
    let z : 0 + length es ≡ length es = omega arith in
    rw h (
      sym
        (positions-append p 0 es e ∙ ap (λ n. positions p 0 es ++ (if p e then n ∷ [] else [])) z))

method_grown :
    (s : EventStore) (ev : AhpEvent) (m : String)
    → indices m s.by_method ≡ positions (λ e. names m e.method) 0 s.events
    → (o : Option String) → ev.method ≡ o
    → indices m s.by_method ++ (if names m o then length s.events ∷ [] else [])
      ≡ positions (λ e. names m e.method) 0 (s.events ++ ev ∷ [])
method_grown s ev m h o e =
    subst
      (λ o.
        indices m s.by_method ++ (if names m o then length s.events ∷ [] else [])
        ≡ positions (λ e. names m e.method) 0 (s.events ++ ev ∷ []))
      e (grown (λ e. names m e.method) _ s.events ev h)

by_method_grows :
    (s : EventStore) (ev : AhpEvent) (m : String)
    → indices m s.by_method ≡ positions (λ e. names m e.method) 0 s.events
    → (o : Option String) → ev.method ≡ o
    → indices m (index_method s.by_method o (length s.events))
      ≡ positions (λ e. names m e.method) 0 (s.events ++ ev ∷ [])
by_method_grows s ev m h none e =
    sym (append-nil (indices m s.by_method)) ∙ method_grown s ev m h none e
by_method_grows s ev m h (some j) e =
    indices-push s.by_method j m (length s.events) ∙ method_grown s ev m h (some j) e

-- Appending an event keeps every column in step with the events, and every side index the list of
-- the positions of the events with its key.
pub append-IsConsistent :
    (s : EventStore) (ev : AhpEvent) → IsConsistent s → IsConsistent (append s ev)
unfolding append
append-IsConsistent s ev h = record {
  seq = column (λ e. e.seq) s.seq s.events ev h.seq;
  ts = column (λ e. e.ts) s.ts s.events ev h.ts;
  ts_raw = column (λ e. e.ts_raw) s.ts_raw s.events ev h.ts_raw;
  kind = column (λ e. e.kind) s.kind s.events ev h.kind;
  dir = column (λ e. e.dir) s.dir s.events ev h.dir;
  method = column (λ e. e.method) s.method s.events ev h.method;
  id = column (λ e. e.id) s.id s.events ev h.id;
  id_type = column (λ e. e.id_type) s.id_type s.events ev h.id_type;
  session_id = column (λ e. e.session_id) s.session_id s.events ev h.session_id;
  action_type = column (λ e. e.action_type) s.action_type s.events ev h.action_type;
  server_seq = column (λ e. e.server_seq) s.server_seq s.events ev h.server_seq;
  byte_offset = column (λ e. e.byte_offset) s.byte_offset s.events ev h.byte_offset;
  byte_length = column (λ e. e.byte_length) s.byte_length s.events ev h.byte_length;
  by_kind =
      λ k. indices-push s.by_kind ev.kind k (length s.events) ∙ grown _ _ s.events ev (h.by_kind k);
  by_dir =
      λ d. indices-push s.by_dir ev.dir d (length s.events) ∙ grown _ _ s.events ev (h.by_dir d);
  by_method = λ m. by_method_grows s ev m (h.by_method m) ev.method refl;
}
