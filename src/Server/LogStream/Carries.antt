-- ===== src/Server/LogStream/Carries.antt =====
-- What is written and what is queued says of the rows what the log has emitted.
use mathlib.Core.List.{append_assoc, append-nil}
use ahp_inspector.Base.{
  ℕ, true, false, Option, none, some, List, [], ◌∷◌, ◌++◌, ◌≡◌, refl, sym, ap, subst, ◌∙◌, arith,
  if-cases, is_some, Bool-cases, inl, inr,
}
use ahp_inspector.Core.Row.{EventRow}
use ahp_inspector.Server.Frames.{SsePayload, ping}
use ahp_inspector.Server.LogStream.{
  SseBackpressureLimits, QueuedFrame, EndReason, overflow, LogStream, new_stream, last, set_last,
  merged, request_end, make_queued_frame, replace_last, push_frame, coalesce_payloads, enqueue,
  take_next, take_frame, land, frame_written, ping_behind, write_ping, StreamEvent, emitted, taken,
  wrote, timer, pinged, ended, stream_step, stream_run,
}
use ahp_inspector.Server.LogStream.Totals.{last-split, merged-last}
use ahp_inspector.Server.LogStream.Coalesce.{coalesce_payloads-Joins}
use ahp_inspector.Ui.Stream.Rows.{
  rows_after, rows_after_all, Fits, FitsAll, rows_after_all-append, FitsAll-append,
}

abbrev pub payloads : List QueuedFrame → List SsePayload
payloads [] = []
payloads (f ∷ fs) = f.payload ∷ payloads fs

payloads-append :
    (q : List QueuedFrame) (f : QueuedFrame) → payloads (q ++ f ∷ []) ≡ payloads q ++ f.payload ∷ []
payloads-append [] f = refl
payloads-append (g ∷ q) f = ap (◌∷◌ g.payload) (payloads-append q f)

-- the frames fit one after the other, and lead from the rows before to the rows after
abbrev pub Leads : List EventRow → List SsePayload → List EventRow → Type 0
Leads before fs after = (rows_after_all before fs ≡ after) × FitsAll Fits before fs

Leads-append :
    (before after : List EventRow) (fs : List SsePayload) (f : SsePayload)
    → Leads before fs after
    → Fits after f
    → Leads before (fs ++ f ∷ []) (rows_after after f)
Leads-append before after fs f l h = (
  rows_after_all-append before fs f ∙ ap (λ xs. rows_after xs f) l.0,
  FitsAll-append Fits before fs f l.1 (subst (λ xs. Fits xs f) (sym l.0) h),
)

-- the last frame on its own
Leads-last :
    (before after : List EventRow) (fs : List SsePayload) (f : SsePayload)
    → Leads before (fs ++ f ∷ []) after
    → (mid : List EventRow) × Leads before fs mid × Fits mid f × (rows_after mid f ≡ after)
unfolding rows_after_all FitsAll
Leads-last before after [] f l = (before, (refl, tt), l.1.0, l.0)
Leads-last before after (g ∷ fs) f l =
    let (mid, rest, h, e) = Leads-last (rows_after before g) after fs f (l.0, l.1.1) in
    (mid, (rest.0, (l.1.0, rest.1)), h, e)

-- until its end a stream is subscribed, and carries the log's rows
pub record Carries (before : List EventRow) (s : LogStream) (rows : List EventRow) : Type 0 where
  pub subscribed : is_some s.end_reason ≡ false → s.subscribed ≡ true
  pub leads : is_some s.end_reason ≡ false → Leads before (s.written ++ payloads s.queue) rows

module _ (before : List EventRow) where
  request_end-Carries :
      (reason : EndReason) (s : LogStream) (rows : List EventRow)
      → is_some s.end_reason ≡ false
      → Carries before (request_end reason s) rows
  unfolding request_end
  request_end-Carries reason s rows o = rw o (record {
    subscribed = λ e. absurd (ground (arith, e));
    leads = λ e. absurd (ground (arith, e));
  })

  module _ (limits : SseBackpressureLimits) (size_of : SsePayload → ℕ) where
    push_frame-Carries :
        (f : SsePayload) (s : LogStream) (rows : List EventRow)
        → is_some s.end_reason ≡ false
        → Fits rows f
        → Carries before s rows
        → Carries before (push_frame limits size_of f s) (rows_after rows f)
    unfolding push_frame
    push_frame-Carries f s rows o h c =
        if-cases (λ t. Carries before t (rows_after rows f)) _ _ _
          (λ e. request_end-Carries overflow s (rows_after rows f) o)
          (λ e. record {
            subscribed = c.subscribed;
            leads = λ o.
                subst (λ fs. Leads before fs (rows_after rows f))
                  (append_assoc s.written (payloads s.queue) (f ∷ [])
                    ∙ ap (◌++◌ s.written)
                        (sym (payloads-append s.queue (make_queued_frame limits size_of f false))))
                  (Leads-append before rows (s.written ++ payloads s.queue) f (c.leads o) h);
          })

    replace_last-Carries :
        (last_frame : QueuedFrame) (f joined : SsePayload) (s : LogStream) (rows : List EventRow)
        → is_some s.end_reason ≡ false
        → last s.queue ≡ some last_frame
        → coalesce_payloads last_frame.payload f ≡ some joined
        → Fits rows f
        → Carries before s rows
        → Carries before (replace_last limits size_of last_frame joined s) (rows_after rows f)
    unfolding replace_last
    replace_last-Carries last_frame f joined s rows o l j h c =
        if-cases (λ t. Carries before t (rows_after rows f)) _ _ _
          (λ e. request_end-Carries overflow s (rows_after rows f) o)
          (λ e.
            let new = make_queued_frame limits size_of joined true in
            let (front, whole, changed) = last-split s.queue last_frame new l in
            let ws = s.written ++ payloads front in
            let end_at = λ (q : List QueuedFrame) (g : QueuedFrame) (w : q ≡ front ++ g ∷ []).
              ap (λ q. s.written ++ payloads q) w
              ∙ ap (◌++◌ s.written) (payloads-append front g)
              ∙ sym (append_assoc s.written (payloads front) (g.payload ∷ [])) in
            let (mid, until, fits, reached) =
              Leads-last before rows ws last_frame.payload (
                subst (λ fs. Leads before fs rows) (end_at s.queue last_frame whole) (c.leads o)) in
            let (fits_joined, same) =
              coalesce_payloads-Joins mid last_frame.payload f joined j fits
                (subst (λ xs. Fits xs f) (sym reached) h) in
            record {
              subscribed = c.subscribed;
              leads = λ o.
                  subst (λ fs. Leads before fs (rows_after rows f))
                    (sym (end_at (set_last s.queue new) new changed))
                    (subst (Leads before (ws ++ joined ∷ []))
                      (same ∙ ap (λ xs. rows_after xs f) reached)
                      (Leads-append before mid ws joined until fits_joined));
            })

    enqueue-Carries :
        (f : SsePayload) (s : LogStream) (rows : List EventRow)
        → Fits rows f
        → Carries before s rows
        → Carries before (enqueue limits size_of f s) (rows_after rows f)
    unfolding enqueue
    enqueue-Carries f s rows h c =
        if-cases (λ t. Carries before t (rows_after rows f)) (is_some s.end_reason) _ _
          (λ e. ended_stream e) (λ e. by (merged (last s.queue) f) refl e)
      where
        ended_stream : is_some s.end_reason ≡ true → Carries before s (rows_after rows f)
        ended_stream e = record {
          subscribed = λ o. absurd (ground (arith, o, e));
          leads = λ o. absurd (ground (arith, o, e));
        }

        by :
            (m : Option (QueuedFrame × SsePayload))
            → merged (last s.queue) f ≡ m
            → is_some s.end_reason ≡ false
            → Carries before
                (elim m [
                  | none ↦ push_frame limits size_of f s
                  | some m ↦ replace_last limits size_of m.0 m.1 s
                ])
                (rows_after rows f)
        by none e o = push_frame-Carries f s rows o h c
        by (some m) e o =
            let (at_end, joined) = merged-last s.queue f m e in
            replace_last-Carries m.0 f m.1 s rows o at_end joined h c

  take_next-Carries :
      (o : Option QueuedFrame) (q : List QueuedFrame) (s : LogStream) (rows : List EventRow)
      → s.queue ≡ q
      → Carries before s rows
      → Carries before (take_next o q s) rows
  unfolding take_next
  take_next-Carries (some frame) q s rows d c = c
  take_next-Carries none [] s rows d c = c
  take_next-Carries none (frame ∷ frames) s rows d c = record {
    subscribed = c.subscribed;
    leads = λ o.
        subst (λ fs. Leads before fs rows)
          (ap (λ q. s.written ++ payloads q) d
            ∙ sym (append_assoc s.written (frame.payload ∷ []) (payloads frames)))
          (c.leads o);
  }

  land-Carries :
      (o : Option QueuedFrame) (s : LogStream) (rows : List EventRow)
      → Carries before s rows
      → Carries before (land o s) rows
  unfolding land
  land-Carries none s rows c = c
  land-Carries (some frame) s rows c = record { subscribed = c.subscribed; leads = c.leads }

  ping_behind-Carries :
      (q : List QueuedFrame) (s : LogStream) (rows : List EventRow)
      → s.queue ≡ q
      → Carries before s rows
      → Carries before (ping_behind q s) rows
  unfolding ping_behind rows_after
  ping_behind-Carries (frame ∷ q) s rows d c = c
  ping_behind-Carries [] s rows d c =
      if-cases (λ t. Carries before t rows) _ _ _
        (λ e. record {
          subscribed = c.subscribed;
          leads = λ o.
              let whole : (fs : List SsePayload) → fs ++ payloads s.queue ≡ fs =
                λ fs. ap (λ q. fs ++ payloads q) d ∙ append-nil fs in
              subst (λ fs. Leads before fs rows) (sym (whole (s.written ++ ping ∷ [])))
                (Leads-append before rows s.written ping
                  (subst (λ fs. Leads before fs rows) (whole s.written) (c.leads o)) tt);
        })
        (λ e. c)

-- the frames of the log among the events
unfoldable pub emitted_of : List StreamEvent → List SsePayload
emitted_of [] = []
emitted_of (emitted f ∷ es) = f ∷ emitted_of es
emitted_of (taken ∷ es) = emitted_of es
emitted_of (wrote ∷ es) = emitted_of es
emitted_of (timer ∷ es) = emitted_of es
emitted_of (pinged ∷ es) = emitted_of es
emitted_of (ended reason ∷ es) = emitted_of es

module _ (before : List EventRow) (limits : SseBackpressureLimits) (size_of : SsePayload → ℕ) where
  emitted-Carries :
      (f : SsePayload) (s : LogStream) (rows : List EventRow)
      → Fits rows f
      → Carries before s rows
      → Carries before (stream_step limits size_of (emitted f) s) (rows_after rows f)
  unfolding stream_step
  emitted-Carries f s rows h c =
      if-cases (λ t. Carries before t (rows_after rows f)) s.subscribed _ _
        (λ e. enqueue-Carries before limits size_of f s rows h c)
        (λ e. record {
          subscribed = λ o. absurd (ground (arith, e, c.subscribed o));
          leads = λ o. absurd (ground (arith, e, c.subscribed o));
        })

  ended-Carries :
      (reason : EndReason) (s : LogStream) (rows : List EventRow)
      → Carries before s rows
      → Carries before (request_end reason s) rows
  ended-Carries reason s rows c = elim (Bool-cases (is_some s.end_reason)) [
    | inl over ↦ unfold request_end in rw over c
    | inr still ↦ request_end-Carries before reason s rows still
  ]

  -- Frames that fit are emitted by the log, in any interleaving with the writer's rounds, the ends of
  -- its writes, the heartbeat and requests to end. As long as the stream has not ended, the frames
  -- written and those queued, merged ones included, fit and make of the rows what the emitted frames
  -- make of them.
  pub stream_run-Carries :
      (es : List StreamEvent) (s : LogStream) (rows : List EventRow)
      → FitsAll Fits rows (emitted_of es)
      → Carries before s rows
      → Carries before (stream_run limits size_of es s) (rows_after_all rows (emitted_of es))
  unfolding stream_run stream_step take_frame frame_written write_ping emitted_of FitsAll
      rows_after_all
  stream_run-Carries [] s rows h c = c
  stream_run-Carries (emitted f ∷ es) s rows h c =
      stream_run-Carries es _ (rows_after rows f) h.1 (emitted-Carries f s rows h.0 c)
  stream_run-Carries (taken ∷ es) s rows h c = stream_run-Carries es _ rows h (
      if-cases (λ t. Carries before t rows) (is_some s.end_reason) _ _ (λ e. c)
        (λ e. take_next-Carries before s.in_flight s.queue s rows refl c))
  stream_run-Carries (wrote ∷ es) s rows h c =
      stream_run-Carries es _ rows h (land-Carries before s.in_flight s rows c)
  stream_run-Carries (timer ∷ es) s rows h c =
      stream_run-Carries es _ rows h (record { subscribed = c.subscribed; leads = c.leads })
  stream_run-Carries (pinged ∷ es) s rows h c =
      stream_run-Carries es _ rows h (ping_behind-Carries before s.queue s rows refl c)
  stream_run-Carries (ended reason ∷ es) s rows h c =
      stream_run-Carries es _ rows h (ended-Carries reason s rows c)

pub new_stream-Carries : (before : List EventRow) → Carries before new_stream before
unfolding rows_after_all FitsAll
new_stream-Carries before = record { subscribed = λ o. refl; leads = λ o. (refl, tt) }
