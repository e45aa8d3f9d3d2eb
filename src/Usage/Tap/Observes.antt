-- ===== src/Usage/Tap/Observes.antt =====
-- What the tap of src/lib.rs does over a whole body.
use mur_model_gateway.Common.{
  ◌≡◌, refl, ap, inl, inr, ℕ, ◌+◌, ◌≤◌, Bool, true, false, not, List, [], ◌∷◌, ◌++◌, Option, none,
  some, String, if◌then◌else◌, ltb, length, length-append, count, count-append, Bool-cases, arith,
  ◌>>=◌,
}
use mur_model_gateway.Json.{Value}
use mur_model_gateway.CacheTrace.Guard.{Call, begun, completed, on_status, abandon}
use mur_model_gateway.Usage.{
  UpstreamUsage, from_container, SseScan, pending, found, absent, usage_from_sse,
}
use mur_model_gateway.Usage.Tap.{
  UsageTap, new, finish, cap_of, Polled, chunk, failed, ended, waiting, scanned, scan, buffer,
  observe, report, eof, attend, poll_next, run, handed,
}

abbrev pub is_completed : Call → Bool
is_completed (completed u) = true
is_completed (on_status s b) = false
is_completed begun = false
is_completed abandon = false

-- how many reports may still come
abbrev pub left : UsageTap → ℕ
left t = if t.done then 0 else 1

abbrev pub Fits : UsageTap → Type 0
Fits t = length t.buf ≤ cap_of t

-- What a step leads to: a buffer in its bounds, and no report more than may come.
abbrev Sound : ℕ → UsageTap × List Call → Type 0
Sound n (t, calls) = Fits t × (count is_completed calls + left t ≤ n)

if-Sound :
    (n : ℕ) (b : Bool) (p q : UsageTap × List Call)
    → Sound n p
    → Sound n q
    → Sound n (if b then p else q)
if-Sound n true p q h k = h
if-Sound n false p q h k = k

fits_if : (cap m n : ℕ) → m ≡ n → ltb cap n ≡ false → m ≤ cap
fits_if cap m n e h = ground arith

count_if :
    (b : Bool) (calls : List Call)
    → count is_completed calls ≤ 1
    → count is_completed (if b then [] else calls) + 0 ≤ 1
count_if true calls h = omega arith
count_if false calls h = omega arith

-- A tap that is done does nothing; any other does what its step does.
done-Sound :
    (b : Bool) (t : UsageTap) (q : UsageTap × List Call)
    → t.done ≡ b
    → Fits t
    → (b ≡ false → Sound 1 q)
    → Sound (left t) (if b then (t, []) else q)
done-Sound true t q e f h = (f, omega arith)
done-Sound false t q e f h =
    let one : left t ≡ 1 = ap (λ b. if b then 0 else 1) e in
    let (g, c) = h refl in (g, omega (arith, c, one))

enabled_left : (b : Bool) (n m : ℕ) → n + m ≤ (if not b then 0 else 1) → n ≤ (if b then 1 else 0)
enabled_left true n m h = omega (arith, h)
enabled_left false n m h = omega (arith, h)

module _ (parse_text : String → Option Value) (parse_bytes : List ℕ → Option Value)
    (lossy : List ℕ → String) where
  finish-Sound : (n : ℕ) (t : UsageTap) → Sound n (finish t, [])
  finish-Sound n t = (omega arith, omega arith)

  scanned-Sound :
      (t : UsageTap) (r : SseScan)
      → Fits t
      → t.done ≡ false
      → Sound 1 (scanned parse_text parse_bytes lossy t r)
  scanned-Sound t pending f d = (f, rw (d) (omega arith))
  scanned-Sound t (found u) f d = (omega arith, omega arith)
  scanned-Sound t absent f d = (omega arith, omega arith)

  scan-Sound :
      (t : UsageTap) → Fits t → t.done ≡ false → Sound 1 (scan parse_text parse_bytes lossy t)
  scan-Sound t f d =
      if-Sound 1 t.streaming _ _ (scanned-Sound t (usage_from_sse parse_text lossy t.buf) f d)
        (f, rw (d) (omega arith))

  buffer-Sound :
      (t : UsageTap) (bytes : List ℕ)
      → t.done ≡ false
      → Sound 1 (buffer parse_text parse_bytes lossy t bytes)
  buffer-Sound t bytes d = elim (Bool-cases (ltb (cap_of t) (length t.buf + length bytes))) [
    | inl e ↦ rw (e) (finish-Sound 1 t)
    | inr e ↦ rw (e) (
        scan-Sound (record t { buf = t.buf ++ bytes })
          (fits_if (cap_of t) _ _ (length-append t.buf bytes) e) d)
  ]

  observe-Sound :
      (t : UsageTap) (bytes : List ℕ)
      → t.done ≡ false
      → Sound 1 (observe parse_text parse_bytes lossy t bytes)
  unfolding observe
  observe-Sound t bytes d = let (f, c) = buffer-Sound t bytes d in (f, omega (arith, c))

  report-count :
      (o : Option UpstreamUsage) → count is_completed (report parse_text parse_bytes lossy o) ≤ 1
  report-count none = omega arith
  report-count (some u) = omega arith

  eof-Sound : (t : UsageTap) → Sound 1 (eof parse_text parse_bytes lossy t)
  unfolding eof
  eof-Sound t =
      (omega arith, count_if t.streaming _ (report-count (parse_bytes t.buf >>= from_container)))

  attend-Sound :
      (t : UsageTap) (p : Polled)
      → Fits t
      → t.done ≡ false
      → Sound 1 (attend parse_text parse_bytes lossy t p)
  attend-Sound t (chunk bytes) f d = observe-Sound t bytes d
  attend-Sound t failed f d = finish-Sound 1 t
  attend-Sound t ended f d = eof-Sound t
  attend-Sound t waiting f d = (f, rw (d) (omega arith))

  step-Sound :
      (t : UsageTap) (p : Polled)
      → Fits t
      → Sound (left t) (
        (poll_next parse_text parse_bytes lossy t p).1,
        (poll_next parse_text parse_bytes lossy t p).2,
      )
  unfolding poll_next
  step-Sound t p f = done-Sound t.done t _ refl f (attend-Sound t p f)

  run-Sound :
      (ps : List Polled) (t : UsageTap)
      → Fits t
      → Sound (left t) (run parse_text parse_bytes lossy t ps)
  unfolding run
  run-Sound [] t f = (f, omega arith)
  run-Sound (p ∷ ps) t f =
      let step = poll_next parse_text parse_bytes lossy t p in
      let (g, c) = step-Sound t p f in
      let (h, d) = run-Sound ps step.1 g in
      (
        h,
        omega (
          arith,
          c,
          d,
          count-append is_completed step.2 (run parse_text parse_bytes lossy step.1 ps).1,
        ),
      )

  handed-same : (ps : List Polled) (t : UsageTap) → handed parse_text parse_bytes lossy t ps ≡ ps
  unfolding handed poll_next
  handed-same [] t = refl
  handed-same (p ∷ ps) t = ap (◌∷◌ p) (handed-same ps _)

  -- Over any polls of a body the tap hands on each item as it was polled, never holds more bytes than
  -- its cap, and reports a usage once at most, not at all where it is not enabled.
  pub run-observes :
      (enabled streaming : Bool) (ps : List Polled)
      → (handed parse_text parse_bytes lossy (new enabled streaming) ps ≡ ps)
        × Fits (run parse_text parse_bytes lossy (new enabled streaming) ps).0
        × (count is_completed (run parse_text parse_bytes lossy (new enabled streaming) ps).1
            ≤ (if enabled then 1 else 0))
  run-observes enabled streaming ps =
      let (f, c) = run-Sound ps (new enabled streaming) (omega arith) in
      (handed-same ps _, f, enabled_left enabled _ _ c)
