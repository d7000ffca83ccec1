-- ===== src/Server/LogStream/Queue.antt =====
-- The account and the bounds of a stream.
use ahp_inspector.Base.{
  ℕ, ◌≤◌, true, false, Option, none, some, List, [], ◌∷◌, ◌++◌, ◌≡◌, refl, ap, ◌∙◌, arith, length,
  if-cases, is_some,
}
use ahp_inspector.Server.Frames.{SsePayload}
use ahp_inspector.Server.LogStream.{
  SseBackpressureLimits, QueuedFrame, EndReason, overflow, LogStream, new_stream, last, merged,
  clear_queued_frames, request_end, make_queued_frame, exceeds_limits, replace_last, push_frame,
  enqueue, take_next, take_frame, land, frame_written, ping_behind, write_ping, StreamEvent,
  emitted, taken, wrote, timer, pinged, ended, stream_step, stream_run,
}
use ahp_inspector.Server.LogStream.Totals.{
  last-split, merged-last, total, in_writing, held, release_all-eq, flight-total, flight-length,
  tail-total, tail-length,
}

-- the counters count these frames
pub record Counted (byte_count frame_count row_count : ℕ) (frames : List QueuedFrame) : Type 0 where
  pub bytes : byte_count ≡ total (λ f. f.byte_length) frames
  pub number : frame_count ≡ length frames
  pub rows : row_count ≡ total (λ f. f.row_count) frames

pub record Within (limits : SseBackpressureLimits) (byte_count frame_count row_count : ℕ)
    : Type 0 where
  pub bytes : byte_count ≤ limits.max_bytes
  pub number : frame_count ≤ limits.max_frames
  pub rows : row_count ≤ limits.max_rows

-- the counters count what is queued and what is being written, within the limits; an ended stream has
-- nothing queued
pub record Kept (limits : SseBackpressureLimits) (s : LogStream) : Type 0 where
  pub counted : Counted s.pending_bytes s.pending_frames s.pending_rows (held s)
  pub within : Within limits s.pending_bytes s.pending_frames s.pending_rows
  pub ends : is_some s.end_reason ≡ true → s.queue ≡ []

cleared-Kept :
    (limits : SseBackpressureLimits) (reason : EndReason) (s : LogStream)
    → Kept limits s
    → Kept limits (record (clear_queued_frames s) { end_reason = some reason; subscribed = false })
cleared-Kept limits reason s k =
    let (b, n, r, w) = release_all-eq s.queue s in
    record {
      counted = record {
        bytes = omega (arith, b, k.counted.bytes, flight-total (λ f. f.byte_length) s _ w);
        number = omega (arith, n, k.counted.number, flight-length s _ w);
        rows = omega (arith, r, k.counted.rows, flight-total (λ f. f.row_count) s _ w);
      };
      within = record {
        bytes = omega (arith, b, k.within.bytes);
        number = omega (arith, n, k.within.number);
        rows = omega (arith, r, k.within.rows);
      };
      ends = λ e. refl;
    }

request_end-Kept :
    (limits : SseBackpressureLimits) (reason : EndReason) (s : LogStream)
    → Kept limits s
    → Kept limits (request_end reason s)
unfolding request_end
request_end-Kept limits reason s k =
    if-cases (Kept limits) (is_some s.end_reason) _ _ (λ e. k) (λ e. cleared-Kept limits reason s k)

under_limits :
    (limits : SseBackpressureLimits) (size_of : SsePayload → ℕ) (bytes frames rows : ℕ)
    → exceeds_limits limits size_of bytes frames rows ≡ false
    → (bytes ≤ limits.max_bytes) × (frames ≤ limits.max_frames) × (rows ≤ limits.max_rows)
under_limits limits size_of bytes frames rows h =
    (ground (arith, h), ground (arith, h), ground (arith, h))

module _ (limits : SseBackpressureLimits) (size_of : SsePayload → ℕ) where
  push_frame-Kept :
      (payload : SsePayload) (s : LogStream)
      → is_some s.end_reason ≡ false
      → Kept limits s
      → Kept limits (push_frame limits size_of payload s)
  unfolding push_frame
  push_frame-Kept payload s o k =
      if-cases (Kept limits) _ _ _ (λ e. request_end-Kept limits overflow s k)
        (λ e.
          let (b, n, r) = under_limits limits size_of _ _ _ e in
          let frame = make_queued_frame limits size_of payload false in
          let ws = in_writing s.in_flight in
          record {
            counted = record {
              bytes =
                  omega (arith, k.counted.bytes, tail-total (λ f. f.byte_length) ws s.queue frame);
              number = omega (arith, k.counted.number, tail-length ws s.queue frame);
              rows = omega (arith, k.counted.rows, tail-total (λ f. f.row_count) ws s.queue frame);
            };
            within = record { bytes = b; number = n; rows = r };
            ends = λ e. absurd (ground (arith, o, e));
          })

  replace_last-Kept :
      (frame : QueuedFrame) (payload : SsePayload) (s : LogStream)
      → is_some s.end_reason ≡ false
      → last s.queue ≡ some frame
      → Kept limits s
      → Kept limits (replace_last limits size_of frame payload s)
  unfolding replace_last
  replace_last-Kept frame payload s o l k =
      if-cases (Kept limits) _ _ _ (λ e. request_end-Kept limits overflow s k)
        (λ e.
          let (b, n, r) = under_limits limits size_of _ _ _ e in
          let new = make_queued_frame limits size_of payload true in
          let ws = in_writing s.in_flight in
          let (front, whole, changed) = last-split s.queue frame new l in
          let was = λ (f : QueuedFrame → ℕ).
            ap (λ q. total f (ws ++ q)) whole ∙ tail-total f ws front frame in
          let becomes = λ (f : QueuedFrame → ℕ).
            ap (λ q. total f (ws ++ q)) changed ∙ tail-total f ws front new in
          record {
            counted = record {
              bytes =
                  omega (
                    arith,
                    k.counted.bytes,
                    was (λ f. f.byte_length),
                    becomes (λ f. f.byte_length),
                  );
              number = omega (
                arith,
                k.counted.number,
                ap (λ q. length (ws ++ q)) whole ∙ tail-length ws front frame,
                ap (λ q. length (ws ++ q)) changed ∙ tail-length ws front new,
              );
              rows =
                  omega (arith, k.counted.rows, was (λ f. f.row_count), becomes (λ f. f.row_count));
            };
            within = record { bytes = b; number = n; rows = r };
            ends = λ e. absurd (ground (arith, o, e));
          })

  enqueue-Kept :
      (payload : SsePayload) (s : LogStream)
      → Kept limits s
      → Kept limits (enqueue limits size_of payload s)
  unfolding enqueue
  enqueue-Kept payload s k =
      if-cases (Kept limits) (is_some s.end_reason) _ _ (λ e. k)
        (λ e. by (merged (last s.queue) payload) refl e)
    where
      by :
          (m : Option (QueuedFrame × SsePayload))
          → merged (last s.queue) payload ≡ m
          → is_some s.end_reason ≡ false
          → Kept limits (elim m [
            | none ↦ push_frame limits size_of payload s
            | some m ↦ replace_last limits size_of m.0 m.1 s
          ])
      by none e o = push_frame-Kept payload s o k
      by (some m) e o = replace_last-Kept m.0 m.1 s o (merged-last s.queue payload m e).0 k

  take_next-Kept :
      (o : Option QueuedFrame) (q : List QueuedFrame) (s : LogStream)
      → s.in_flight ≡ o
      → s.queue ≡ q
      → is_some s.end_reason ≡ false
      → Kept limits s
      → Kept limits (take_next o q s)
  unfolding take_next
  take_next-Kept (some frame) q s e d o k = k
  take_next-Kept none [] s e d o k = k
  take_next-Kept none (frame ∷ frames) s e d o k =
      let same : held s ≡ frame ∷ frames = ap (λ w. in_writing w ++ s.queue) e ∙ d in
      record {
        counted = record {
          bytes = k.counted.bytes ∙ ap (total (λ f. f.byte_length)) same;
          number = k.counted.number ∙ ap length same;
          rows = k.counted.rows ∙ ap (total (λ f. f.row_count)) same;
        };
        within = k.within;
        ends = λ e. absurd (ground (arith, o, e));
      }

  land-Kept :
      (o : Option QueuedFrame) (s : LogStream)
      → s.in_flight ≡ o
      → Kept limits s
      → Kept limits (land o s)
  unfolding land
  land-Kept none s e k = k
  land-Kept (some frame) s e k =
      let same : held s ≡ frame ∷ s.queue = ap (λ w. in_writing w ++ s.queue) e in
      record {
        counted = record {
          bytes = omega (arith, k.counted.bytes, ap (total (λ f. f.byte_length)) same);
          number = omega (arith, k.counted.number, ap length same);
          rows = omega (arith, k.counted.rows, ap (total (λ f. f.row_count)) same);
        };
        within = record {
          bytes = omega (arith, k.within.bytes);
          number = omega (arith, k.within.number);
          rows = omega (arith, k.within.rows);
        };
        ends = k.ends;
      }

  ping_behind-Kept :
      (q : List QueuedFrame) (s : LogStream) → Kept limits s → Kept limits (ping_behind q s)
  unfolding ping_behind
  ping_behind-Kept (frame ∷ q) s k = k
  ping_behind-Kept [] s k =
      if-cases (Kept limits) _ _ _
        (λ e. record { counted = k.counted; within = k.within; ends = k.ends }) (λ e. k)

  stream_step-Kept :
      (e : StreamEvent) (s : LogStream)
      → Kept limits s
      → Kept limits (stream_step limits size_of e s)
  unfolding stream_step take_frame frame_written write_ping
  stream_step-Kept (emitted payload) s k =
      if-cases (Kept limits) s.subscribed _ _ (λ e. enqueue-Kept payload s k) (λ e. k)
  stream_step-Kept taken s k =
      if-cases (Kept limits) (is_some s.end_reason) _ _ (λ e. k)
        (λ e. take_next-Kept s.in_flight s.queue s refl refl e k)
  stream_step-Kept wrote s k = land-Kept s.in_flight s refl k
  stream_step-Kept timer s k = record { counted = k.counted; within = k.within; ends = k.ends }
  stream_step-Kept pinged s k = ping_behind-Kept s.queue s k
  stream_step-Kept (ended reason) s k = request_end-Kept limits reason s k

  -- Whatever happens at a stream that keeps its account and its bounds, it keeps them: the counters
  -- count what is queued and the frame that is being written, none of them passes its limit, and a
  -- stream that ends has nothing queued.
  pub stream_run-Kept :
      (es : List StreamEvent) (s : LogStream)
      → Kept limits s
      → Kept limits (stream_run limits size_of es s)
  unfolding stream_run
  stream_run-Kept [] s k = k
  stream_run-Kept (e ∷ es) s k =
      stream_run-Kept es (stream_step limits size_of e s) (stream_step-Kept e s k)

pub new_stream-Kept : (limits : SseBackpressureLimits) → Kept limits new_stream
new_stream-Kept limits = record {
  counted = record { bytes = refl; number = refl; rows = refl };
  within = record { bytes = ground arith; number = ground arith; rows = ground arith };
  ends = λ e. refl;
}
