-- ===== src/Server/LogStream/Totals.antt =====
-- The queue of a stream: its last frame, and sums over its frames.
use ahp_inspector.Base.{
  some_injective, ℕ, ◌+◌, ◌-◌, Bool, true, false, Option, none, some, List, [], ◌∷◌, ◌++◌, ◌≡◌,
  refl, sym, ap, ◌∙◌, arith, length, length-append, if◌then◌else◌, ◌>>=◌,
}
use ahp_inspector.Server.Frames.{SsePayload}
use ahp_inspector.Server.LogStream.{
  QueuedFrame, LogStream, last, set_last, merged, coalesce_payloads, release, release_all,
}

-- a queue whose last frame is this one, with what is in front of it
pub last-split :
    (q : List QueuedFrame) (f g : QueuedFrame)
    → last q ≡ some f
    → (front : List QueuedFrame) × (q ≡ front ++ f ∷ []) × (set_last q g ≡ front ++ g ∷ [])
unfolding last set_last
last-split [] f g h = absurd (ground (arith, h))
last-split (x ∷ []) f g h = let same : x ≡ f = cc in ([], ap (λ y. y ∷ []) same, refl)
last-split (x ∷ y ∷ q) f g h =
    let (front, whole, changed) = last-split (y ∷ q) f g h in
    (x ∷ front, ap (◌∷◌ x) whole, ap (◌∷◌ x) changed)

merged_some :
    (f : QueuedFrame) (b : Bool) (o : Option SsePayload) (m : QueuedFrame × SsePayload)
    → (if b then (o >>= λ p. some (f, p)) else none) ≡ some m
    → (f ≡ m.0) × (o ≡ some m.1)
merged_some f true none m h = absurd (ground (arith, h))
merged_some f true (some p) m h =
    let e : (f, p) ≡ m = some_injective h in (ap (λ x. x.0) e, ap (λ x. some x.1) e)
merged_some f false o m h = absurd (ground (arith, h))

pub merged-last :
    (q : List QueuedFrame) (payload : SsePayload) (m : QueuedFrame × SsePayload)
    → merged (last q) payload ≡ some m
    → (last q ≡ some m.0) × (coalesce_payloads m.0.payload payload ≡ some m.1)
unfolding merged
merged-last q payload m h = by (last q) h
  where
    by :
        (o : Option QueuedFrame)
        → merged o payload ≡ some m
        → (o ≡ some m.0) × (coalesce_payloads m.0.payload payload ≡ some m.1)
    by none h = absurd (ground (arith, h))
    by (some f) h =
        let (same, joined) = merged_some f _ (coalesce_payloads f.payload payload) m h in
        (ap some same, ap (λ g. coalesce_payloads g.payload payload) (sym same) ∙ joined)

abbrev pub total : (QueuedFrame → ℕ) → List QueuedFrame → ℕ
total f [] = 0
total f (x ∷ xs) = f x + total f xs

total-append :
    (f : QueuedFrame → ℕ) (xs ys : List QueuedFrame) → total f (xs ++ ys) ≡ total f xs + total f ys
total-append f [] ys = omega arith
total-append f (x ∷ xs) ys = omega (arith, total-append f xs ys)

abbrev pub in_writing : Option QueuedFrame → List QueuedFrame
in_writing none = []
in_writing (some frame) = frame ∷ []

abbrev pub held : LogStream → List QueuedFrame
held s = in_writing s.in_flight ++ s.queue

-- a queue with one more frame at its end
pub tail-total :
    (f : QueuedFrame → ℕ) (ws front : List QueuedFrame) (x : QueuedFrame)
    → total f (ws ++ (front ++ x ∷ [])) ≡ total f (ws ++ front) + f x
tail-total f ws front x = omega (
  arith,
  total-append f ws (front ++ x ∷ []),
  total-append f front (x ∷ []),
  total-append f ws front,
)

pub tail-length :
    (ws front : List QueuedFrame) (x : QueuedFrame)
    → length (ws ++ (front ++ x ∷ [])) ≡ length (ws ++ front) + 1
tail-length ws front x = omega (
  arith,
  length-append {0} ws (front ++ x ∷ []),
  length-append {0} front (x ∷ []),
  length-append {0} ws front,
)

pub release_all-eq :
    (fs : List QueuedFrame) (s : LogStream)
    → ((release_all fs s).pending_bytes ≡ s.pending_bytes - total (λ f. f.byte_length) fs)
      × ((release_all fs s).pending_frames ≡ s.pending_frames - length fs)
      × ((release_all fs s).pending_rows ≡ s.pending_rows - total (λ f. f.row_count) fs)
      × ((release_all fs s).in_flight ≡ s.in_flight)
unfolding release_all
release_all-eq [] s = (omega arith, omega arith, omega arith, refl)
release_all-eq (f ∷ fs) s =
    let (b, n, r, w) = release_all-eq fs (release f s) in
    (omega (arith, b), omega (arith, n), omega (arith, r), w)

-- what is counted of the frame in flight alone, and of the queue behind it
pub flight-total :
    (f : QueuedFrame → ℕ) (s : LogStream) (o : Option QueuedFrame)
    → o ≡ s.in_flight
    → total f (in_writing o ++ []) + total f s.queue ≡ total f (held s)
flight-total f s o e = omega (
  arith,
  total-append f (in_writing o) [],
  total-append f (in_writing s.in_flight) s.queue,
  ap (λ w. total f (in_writing w)) e,
)

pub flight-length :
    (s : LogStream) (o : Option QueuedFrame)
    → o ≡ s.in_flight
    → length (in_writing o ++ []) + length s.queue ≡ length (held s)
flight-length s o e = omega (
  arith,
  length-append {0} (in_writing o) [],
  length-append {0} (in_writing s.in_flight) s.queue,
  ap (λ w. length (in_writing w)) e,
)
