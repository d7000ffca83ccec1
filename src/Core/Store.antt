-- ===== src/Core/Store.antt =====
-- packages/core/src/event-store.ts: append-only columns, one for each field that scans read, beside
-- the events, with side indices by kind, direction and method.
pub mod Columns
pub mod Notify
use ahp_inspector.Base.{
  ℕ, suc, ◌+◌, String, Option, none, some, List, [], ◌∷◌, ◌++◌, ◌≡◌, ◌↔◌, true, arith, length,
  get_elem?, ◌==◌, Eq, Map, lookup, insert, or_else, string_eq,
}
use ahp_inspector.Base.Int.{ℤ}
use ahp_inspector.Shared.Event.{
  AhpEvent, Direction, c2s, s2c, EventKind, request, response, client_notification,
  server_notification, action, protocol_notification, log, parse_error, MessageId, IdType,
}

abbrev pub kind_rank : EventKind → ℕ
kind_rank request = 0
kind_rank response = 1
kind_rank client_notification = 2
kind_rank server_notification = 3
kind_rank action = 4
kind_rank protocol_notification = 5
kind_rank log = 6
kind_rank parse_error = 7

abbrev pub dir_rank : Direction → ℕ
dir_rank c2s = 0
dir_rank s2c = 1

pub kind_rank_iff : (a b : EventKind) → ((kind_rank a == kind_rank b) ≡ true) ↔ (a ≡ b)
kind_rank_iff a b = ground arith

pub dir_rank_iff : (a b : Direction) → ((dir_rank a == dir_rank b) ≡ true) ↔ (a ≡ b)
dir_rank_iff a b = ground arith

instance abbrev pub kind_eq : Eq EventKind
kind_eq = record { beq = λ a b. kind_rank a == kind_rank b; beq_iff = kind_rank_iff }

instance abbrev pub dir_eq : Eq Direction
dir_eq = record { beq = λ a b. dir_rank a == dir_rank b; beq_iff = dir_rank_iff }

pub record AppendRange : Type 0 where
  pub from : ℕ
  pub to : ℕ

pub record EventStore : Type 0 where
  pub seq : List ℕ
  pub ts : List ℤ
  pub ts_raw : List String
  pub kind : List EventKind
  pub dir : List Direction
  pub method : List (Option String)
  pub id : List MessageId
  pub id_type : List IdType
  pub session_id : List (Option String)
  pub action_type : List (Option String)
  pub server_seq : List (Option ℤ)
  pub byte_offset : List ℕ
  pub byte_length : List ℕ
  pub events : List AhpEvent
  pub by_kind : Map EventKind (List ℕ)
  pub by_dir : Map Direction (List ℕ)
  pub by_method : Map String (List ℕ)

-- the store as constructed, and what `reset` leaves of any store
unfoldable pub empty : EventStore
empty = record {
  seq = [];
  ts = [];
  ts_raw = [];
  kind = [];
  dir = [];
  method = [];
  id = [];
  id_type = [];
  session_id = [];
  action_type = [];
  server_seq = [];
  byte_offset = [];
  byte_length = [];
  events = [];
  by_kind = [];
  by_dir = [];
  by_method = [];
}

unfoldable pub reset : EventStore → EventStore
unfolding empty
reset s = empty

unfoldable pub size : EventStore → ℕ
size s = length s.events

unfoldable pub at : EventStore → ℕ → Option AhpEvent
at s idx = get_elem? s.events idx

-- `pushIndex`
unfoldable pub push_index {ℓ} : {K : Type ℓ} ⦃e : Eq K⦄ → Map K (List ℕ) → K → ℕ → Map K (List ℕ)
unfolding lookup insert
push_index m key idx = insert key (or_else (lookup key m) [] ++ idx ∷ []) m

abbrev index_method : Map String (List ℕ) → Option String → ℕ → Map String (List ℕ)
index_method m none idx = m
index_method m (some method) idx = push_index m method idx

-- `append`, but for the calls of the listeners (`Notify`); the index of the event is the old size
unfoldable pub append : EventStore → AhpEvent → EventStore
unfolding push_index
append s ev = record {
  seq = s.seq ++ ev.seq ∷ [];
  ts = s.ts ++ ev.ts ∷ [];
  ts_raw = s.ts_raw ++ ev.ts_raw ∷ [];
  kind = s.kind ++ ev.kind ∷ [];
  dir = s.dir ++ ev.dir ∷ [];
  method = s.method ++ ev.method ∷ [];
  id = s.id ++ ev.id ∷ [];
  id_type = s.id_type ++ ev.id_type ∷ [];
  session_id = s.session_id ++ ev.session_id ∷ [];
  action_type = s.action_type ++ ev.action_type ∷ [];
  server_seq = s.server_seq ++ ev.server_seq ∷ [];
  byte_offset = s.byte_offset ++ ev.byte_offset ∷ [];
  byte_length = s.byte_length ++ ev.byte_length ∷ [];
  events = s.events ++ ev ∷ [];
  by_kind = push_index s.by_kind ev.kind (length s.events);
  by_dir = push_index s.by_dir ev.dir (length s.events);
  by_method = index_method s.by_method ev.method (length s.events);
}

-- the range that the listeners are told of
abbrev pub range_of : EventStore → AppendRange
range_of s = record { from = length s.events; to = length s.events + 1 }
