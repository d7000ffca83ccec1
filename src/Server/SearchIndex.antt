-- ===== src/Server/SearchIndex.antt =====
-- packages/server/src/search-index.ts: substring search over the events, with a cache of their texts
-- that is bounded in bytes. `toLowerCase` of the whole of Unicode is the parameter `lower`. A search
-- that yields lets other code run: what that code does at a yield is a list of changes.
pub mod Texts
pub mod Scan
pub mod Async
use ahp_inspector.Base.{
  ℕ, zero, suc, ◌+◌, ◌-◌, ◌*◌, ◌%◌, String, str_eq, Bool, true, false, ◌&&◌, ◌||◌, Option, none,
  some, List, [], ◌∷◌, ◌++◌, if◌then◌else◌, Map, lookup, insert, nat_eq, ltb, leb, ◌==◌, length,
  get_elem?,
}
use ahp_inspector.Base.Text.{append, text_length, includes}
use ahp_inspector.Shared.Json.{Json, truthy}
use ahp_inspector.Shared.Stringify.{stringify}
use ahp_inspector.Shared.Event.{AhpEvent, MessageId, num, str, null}
use ahp_inspector.Shared.Correlation.{id_text}

abbrev pub default_max_search_cache_bytes : ℕ
default_max_search_cache_bytes = 64 * 1024 * 1024

abbrev pub max_scan_restarts : ℕ
max_scan_restarts = 2

pub record SearchIndex : Type 0 where
  pub events : List AhpEvent
  pub cached_text : Map ℕ String
  pub max_cached_text_bytes : ℕ
  pub cached_text_bytes : ℕ
  pub generation : ℕ

unfoldable pub new_search_index : ℕ → SearchIndex
new_search_index max_cached_text_bytes = record {
  events = [];
  cached_text = [];
  max_cached_text_bytes = max_cached_text_bytes;
  cached_text_bytes = 0;
  generation = 0;
}

unfoldable pub estimated_retained_bytes : SearchIndex → ℕ
estimated_retained_bytes s = length s.events * 8 + s.cached_text_bytes

unfoldable pub append_event : AhpEvent → SearchIndex → SearchIndex
append_event ev s = record s { events = s.events ++ ev ∷ [] }

unfoldable pub reset : SearchIndex → SearchIndex
reset s = record s {
  generation = s.generation + 1;
  events = [];
  cached_text = [];
  cached_text_bytes = 0;
}

abbrev id_of : MessageId → Option String
id_of null = none
id_of (num n) = some (id_text (num n))
id_of (str s) = some (id_text (str s))

-- `parts.filter(Boolean).join(" ")`
join_filled : List (Option String) → String
join_filled [] = ""
join_filled (part ∷ parts) =
    let rest = join_filled parts in
    elim (truthy part) [
      | none ↦ rest
      | some text ↦ if str_eq rest "" then text else append text (append " " rest)
    ]

unfoldable pub searchable_text : (String → String) → AhpEvent → String
unfolding join_filled id_text stringify truthy
searchable_text lower event = lower (
    join_filled (
      event.method
      ∷ event.action_type
      ∷ event.session_id
      ∷ event.turn_id
      ∷ id_of event.id
      ∷ some (elim event.raw [ none ↦ "" | some raw ↦ stringify raw ])
      ∷ []))

-- a text that was computed, kept if it fits
unfoldable pub keep_text : ℕ → String → SearchIndex → String × SearchIndex
unfolding text_length
keep_text i text s =
    let cost_bytes = text_length text * 2 in
    (
      text,
      if leb cost_bytes (s.max_cached_text_bytes - s.cached_text_bytes)
          then record s {
            cached_text = insert i text s.cached_text;
            cached_text_bytes = s.cached_text_bytes + cost_bytes;
          }
          else s,
    )

unfoldable pub text_for : (String → String) → ℕ → AhpEvent → SearchIndex → String × SearchIndex
unfolding keep_text searchable_text
text_for lower i event s = elim (lookup i s.cached_text) [
  | none ↦ keep_text i (searchable_text lower event) s
  | some cached ↦ (cached, s)
]

pub record ScanResult : Type 0 where
  pub matches : List ℕ
  pub truncated : Bool

-- `event && this.#textFor(i, event).includes(q)`
unfoldable pub visit_event :
    (String → String) → String → ℕ → Option AhpEvent → SearchIndex → Bool × SearchIndex
unfolding text_for includes
visit_event lower q i none s = (false, s)
visit_event lower q i (some event) s =
    let seen = text_for lower i event s in (includes seen.0 q, seen.1)

-- whether an index matches; the empty query matches all, and reads no text
unfoldable pub visit : (String → String) → String → ℕ → SearchIndex → Bool × SearchIndex
unfolding visit_event
visit lower q i s =
    if str_eq q "" then (true, s) else visit_event lower q i (get_elem? s.events i) s

-- the loop of `#scanRange`: `rounds` indices from `i` on
unfoldable pub scan_rounds :
    (String → String) → String → ℕ → ℕ → ℕ → List ℕ → SearchIndex → ScanResult × SearchIndex
unfolding visit
scan_rounds lower q limit zero i matches s = (record { matches = matches; truncated = false }, s)
scan_rounds lower q limit (suc rounds) i matches s =
    let seen = visit lower q i s in
    let taken = scan_rounds lower q limit rounds (i + 1) (matches ++ i ∷ []) seen.1 in
    let passed = scan_rounds lower q limit rounds (i + 1) matches seen.1 in
    if seen.0
    then (if ltb (length matches) limit
        then taken
        else (record { matches = matches; truncated = true }, seen.1))
    else passed

unfoldable pub scan : (String → String) → String → ℕ → SearchIndex → ScanResult × SearchIndex
unfolding scan_rounds
scan lower q limit s = scan_rounds lower q limit (length s.events) 0 [] s

-- what other code does to the index while a search waits
pub data Change : Type 0 where
  appends : AhpEvent → Change
  resets : Change

unfoldable pub change : List Change → SearchIndex → SearchIndex
unfolding append_event reset
change [] s = s
change (appends ev ∷ cs) s = change cs (append_event ev s)
change (resets ∷ cs) s = change cs (reset s)

abbrev yields_at : ℕ → ℕ → Bool
yields_at yield_every i = ltb 0 yield_every && ltb 0 i && (i % yield_every == 0)

-- the loop of `#scanAsyncGeneration`: none is the `null` of a search that found the index reset
unfoldable pub scan_generation :
    (String → String)
    → String
    → ℕ
    → ℕ
    → ℕ
    → (ℕ → List Change)
    → ℕ
    → ℕ
    → List ℕ
    → SearchIndex
    → Option ScanResult × SearchIndex
unfolding visit change
scan_generation lower q limit yield_every generation others zero i matches s = (
  if generation == s.generation
      then some (record { matches = matches; truncated = false })
      else none,
  s,
)
scan_generation lower q limit yield_every generation others (suc rounds) i matches s =
    let seen = visit lower q i s in
    let next = matches ++ (if seen.0 then i ∷ [] else []) in
    let waited = change (others i) seen.1 in
    let after =
      scan_generation lower q limit yield_every generation others rounds (i + 1) next waited in
    let on =
      scan_generation lower q limit yield_every generation others rounds (i + 1) next seen.1 in
    if seen.0 && leb limit (length matches)
    then (some (record { matches = matches; truncated = true }), seen.1)
    else if yields_at yield_every i
    then (if generation == waited.generation then after else (none, waited))
    else on

-- the attempts of `scanAsync`: none stands for SearchIndexChangedError
unfoldable pub attempts :
    (String → String)
    → String
    → ℕ
    → ℕ
    → (ℕ → ℕ → List Change)
    → ℕ
    → SearchIndex
    → Option ScanResult × SearchIndex
unfolding scan_generation
attempts lower q limit yield_every others zero s = (none, s)
attempts lower q limit yield_every others (suc left) s =
    let tried =
      scan_generation lower q limit yield_every s.generation (others left) (length s.events) 0 []
        s in
    let again = attempts lower q limit yield_every others left tried.1 in
    elim tried.0 [ none ↦ again | some found ↦ (some found, tried.1) ]

unfoldable pub scan_async :
    (String → String)
    → String
    → ℕ
    → ℕ
    → (ℕ → ℕ → List Change)
    → SearchIndex
    → Option ScanResult × SearchIndex
unfolding attempts
scan_async lower q limit yield_every others s =
    attempts lower q limit yield_every others (suc max_scan_restarts) s
