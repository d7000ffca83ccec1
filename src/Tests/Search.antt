-- ===== src/Tests/Search.antt =====
-- Searches of the index at two events, alone and while a third is appended.
use ahp_inspector.Base.{ℕ, String, false, some, List, [], ◌∷◌, ◌≡◌, refl, length, lookup, insert}
use ahp_inspector.Server.SearchIndex.{
  SearchIndex, Change, appends, new_search_index, append_event, scan, scan_async, scan_generation,
  searchable_text, scan_rounds, visit, visit_event, text_for, keep_text,
}
use ahp_inspector.Server.SearchIndex.Texts.{
  IsValid, IsAfter, new_search_index-IsValid, append_event-IsValid,
}
use ahp_inspector.Server.SearchIndex.Scan.{hits, cut, scan-hits}
use ahp_inspector.Server.SearchIndex.Async.{Searched, scan_generation-Searched, scan_async-hits}
use ahp_inspector.Shared.Json.{truthy}
use ahp_inspector.Shared.Stringify.{stringify}
use ahp_inspector.Shared.Correlation.{id_text}
use ahp_inspector.Base.Text.{show, includes, text_length}
use ahp_inspector.Parser.Normalizer.{normalize}
use ahp_inspector.Parser.Extract.{extract_session_id, extract_turn_id}
use ahp_inspector.Tests.Samples.{ping, pong}

abbrev lower : String → String
lower text = text

abbrev index : SearchIndex
index = append_event pong (append_event ping (new_search_index 60))

index-IsValid : IsValid lower index
index-IsValid =
    append_event-IsValid lower pong _
      (append_event-IsValid lower ping _ (new_search_index-IsValid lower 60))

text_test : searchable_text lower ping ≡ "ping 1 {\"id\":1,\"method\":\"ping\"}"
unfolding searchable_text normalize stringify id_text show truthy extract_session_id extract_turn_id
text_test = refl

scan_test : (scan lower "result" 5 index).0 ≡ record { matches = 1 ∷ []; truncated = false }
unfolding scan scan_rounds visit visit_event text_for keep_text includes text_length append_event
    new_search_index lookup insert searchable_text normalize stringify id_text show truthy
    extract_session_id extract_turn_id
scan_test = refl

scan-hits_example :
    ((scan lower "ping" 1 index).0 ≡ cut 1 (hits lower "ping" index.events (length index.events) 0))
    × IsAfter lower index (scan lower "ping" 1 index).1
scan-hits_example = scan-hits lower "ping" 1 index index-IsValid

-- another event comes at each yield
abbrev others : ℕ → List Change
others i = appends ping ∷ []

scan_generation-Searched_example :
    Searched lower others 4 index.generation
      (hits lower "1" index.events (length index.events) 0)
      (scan_generation lower "1" 4 1 index.generation others (length index.events) 0 [] index)
scan_generation-Searched_example = scan_generation-Searched lower "1" 4 1 others index index-IsValid

scan_async-hits_example :
    (scan_async lower "1" 4 1 (λ attempt. others) index).0
    ≡ some (cut 4 (hits lower "1" index.events (length index.events) 0))
scan_async-hits_example =
    scan_async-hits lower "1" 4 1 (λ attempt. others) index index-IsValid (λ attempt i. refl)
