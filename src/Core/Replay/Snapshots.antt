-- ===== src/Core/Replay/Snapshots.antt =====
-- packages/core/src/replay.ts: the installation of snapshots.
use ahp_inspector.Base.{ℕ, none, some, List, [], ◌∷◌, if◌then◌else◌, insert, string_eq}
use ahp_inspector.Base.Text.{append}
use ahp_inspector.Shared.Json.{Json, str}
use ahp_inspector.Core.Replay.{
  ReplayResourceKind, ReplayConfidence, complete, unknown_snapshot, warning, ReplayDiagnostic,
  ReplayResourceState, ReplayContext, kind_eq, add_diagnostic, malformed, put_resource, details_of,
}
use ahp_inspector.Core.Replay.Decode.{DecodedSnapshot, read_snapshot, infer_snapshot_kind}

-- the entry of a snapshot
unfoldable pub baseline :
    DecodedSnapshot
    → ReplayResourceKind
    → ℕ
    → ReplayConfidence
    → List ReplayDiagnostic
    → ReplayResourceState
baseline snapshot kind event_idx confidence diagnostics = record {
  key = record { kind = kind; uri = snapshot.resource };
  state = snapshot.state;
  baseline_event_idx = event_idx;
  last_applied_event_idx = event_idx;
  baseline_from_seq = some snapshot.from_seq;
  last_server_seq = some snapshot.from_seq;
  confidence = confidence;
  diagnostics = diagnostics;
}

unknown_shape : DecodedSnapshot → ℕ → ReplayDiagnostic
unknown_shape snapshot event_idx = record {
  code = unknown_snapshot;
  severity = warning;
  event_idx = event_idx;
  message = append "Snapshot resource " (append snapshot.resource " has unknown state shape");
  details = details_of (("resource", some (str snapshot.resource)) ∷ []);
}

unfoldable pub install_decoded : ReplayContext → DecodedSnapshot → ℕ → ReplayContext
unfolding infer_snapshot_kind baseline unknown_shape add_diagnostic insert
install_decoded ctx snapshot event_idx =
    let kind = infer_snapshot_kind snapshot in
    let diagnostic = unknown_shape snapshot event_idx in
    if kind_eq kind ReplayResourceKind.unknown
    then put_resource (add_diagnostic ctx diagnostic)
        (baseline snapshot kind event_idx ReplayConfidence.unknown (diagnostic ∷ []))
    else put_resource ctx (baseline snapshot kind event_idx complete [])

unfoldable pub install_snapshot : ReplayContext → Json → ℕ → ReplayContext
unfolding install_decoded read_snapshot
install_snapshot ctx value event_idx = elim (read_snapshot value) [
  | none ↦ malformed ctx event_idx "Malformed snapshot"
  | some snapshot ↦ install_decoded ctx snapshot event_idx
]

unfoldable pub install_snapshots : ReplayContext → List Json → ℕ → ReplayContext
unfolding install_snapshot
install_snapshots ctx [] event_idx = ctx
install_snapshots ctx (value ∷ values) event_idx =
    install_snapshots (install_snapshot ctx value event_idx) values event_idx
