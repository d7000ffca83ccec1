-- ===== src/Core/Projection/Shows.antt =====
-- What a row shows of the correlator's data.
use ahp_inspector.Base.{ℕ, String, Option, none, ◌≡◌, refl, ◌⊎◌, inl, inr}
use ahp_inspector.Base.Int.{ℤ}
use ahp_inspector.Shared.Event.{AhpEvent, EventKind, parse_error}
use ahp_inspector.Core.Correlator.{Status, n_a}
use ahp_inspector.Core.Row.{EventRow}
use ahp_inspector.Core.Labels.{TextLibrary}
use ahp_inspector.Core.Projection.{
  EventRowExtras, band_for, project_row, project, project_error, project_message,
}

-- the row has these data, and the band of the latency
abbrev pub Shows : EventRow → Status → Option ℤ → Option ℕ → Type 0
Shows row status latency pair =
    (row.status ≡ status)
    × (row.latency_ms ≡ latency)
    × (row.pair_idx ≡ pair)
    × (row.latency_band ≡ band_for latency)

module _ (lib : TextLibrary) (summarize : AhpEvent → Option String → String) where
  module _ (ev : AhpEvent) (idx : ℕ) (st : Status) (latency : Option ℤ) (extras : EventRowExtras)
      (method : Option String) where
    project-Shows :
        (kind : EventKind)
        → ((kind ≡ parse_error)
            × Shows (project lib summarize ev idx st latency extras method kind) n_a none none)
          ⊎ Shows
              (project lib summarize ev idx st latency extras method kind)
              st
              latency
              extras.pair_idx
    unfolding project project_error project_message band_for
    project-Shows parse_error = inl (refl, (refl, refl, refl, refl))
    project-Shows _ = inr (refl, refl, refl, refl)

    -- The row of a parse error shows nothing, and any other shows what it was given.
    pub project_row-Shows :
        ((ev.kind ≡ parse_error)
          × Shows (project_row lib summarize ev idx st latency extras method) n_a none none)
        ⊎ Shows
            (project_row lib summarize ev idx st latency extras method)
            st
            latency
            extras.pair_idx
    unfolding project_row
    project_row-Shows = project-Shows ev.kind

    project-idx :
        (kind : EventKind) → (project lib summarize ev idx st latency extras method kind).idx ≡ idx
    unfolding project project_error project_message
    project-idx parse_error = refl
    project-idx _ = refl

  pub project_row-idx :
      (ev : AhpEvent) (idx : ℕ) (st : Status) (latency : Option ℤ) (extras : EventRowExtras)
      (method : Option String)
      → (project_row lib summarize ev idx st latency extras method).idx ≡ idx
  unfolding project_row
  project_row-idx ev idx st latency extras method =
      project-idx ev idx st latency extras method ev.kind
