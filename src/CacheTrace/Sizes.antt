-- ===== src/CacheTrace/Sizes.antt =====
-- The byte counts of `analyze` in src/cache_trace.rs.
use mur_model_gateway.Common.{
  ◌≡◌, refl, sym, ap, ap₂, ◌∙◌, ℕ, zero, suc, ◌+◌, ◌≤◌, List, [], ◌∷◌, ◌++◌, map, Option, none,
  some, arith, length, length-append, All, All-append, get_or,
}
use mur_model_gateway.Json.{Value, Fields, find}
use mur_model_gateway.CacheTrace.{
  Bytes, Ttl, Points, points, bytes_before, total_bytes, section_bytes, ttls, last, analyze_object,
  breakpoint, Analysis, point_at, list_at, system_of,
}

-- From `low` on, no number of the list is below the one in front of it.
abbrev pub Rising : ℕ → List ℕ → Type 0
Rising low [] = Unit
Rising low (n ∷ ns) = (low ≤ n) × Rising n ns

Rising-lower : (low n : ℕ) (ns : List ℕ) → low ≤ n → Rising n ns → Rising low ns
Rising-lower low n [] l r = tt
Rising-lower low n (m ∷ ns) l (k, r) = (omega arith, r)

Rising-append :
    (low top : ℕ) (ms ns : List ℕ)
    → low ≤ top
    → Rising low ms
    → All (λ m. m ≤ top) ms
    → Rising top ns
    → Rising low (ms ++ ns)
Rising-append low top [] ns l r a s = Rising-lower low top ns l s
Rising-append low top (m ∷ ms) ns l (k, r) (b, a) s = (k, Rising-append m top ms ns b r a s)

bytes_before-suc : (i : ℕ) (bs : List Bytes) → bytes_before i bs ≤ bytes_before (suc i) bs
unfolding bytes_before
bytes_before-suc zero [] = omega arith
bytes_before-suc zero (b ∷ bs) = omega arith
bytes_before-suc (suc i) [] = omega arith
bytes_before-suc (suc i) (b ∷ bs) = omega (arith, bytes_before-suc i bs)

bytes_before-total : (i : ℕ) (bs : List Bytes) → bytes_before i bs ≤ total_bytes bs
unfolding bytes_before total_bytes
bytes_before-total zero bs = omega arith
bytes_before-total (suc i) [] = omega arith
bytes_before-total (suc i) (b ∷ bs) = omega (arith, bytes_before-total i bs)

module _ (front : ℕ) (canon : List Bytes) where
  point_at-Rising :
      (i : ℕ) (o : Option Ttl) (ps : Points)
      → Rising (front + bytes_before (suc i) canon) (section_bytes front ps canon)
      → Rising (front + bytes_before i canon) (section_bytes front (point_at i o ps) canon)
  unfolding section_bytes
  point_at-Rising i none ps r =
      Rising-lower _ (front + bytes_before (suc i) canon) _
        (omega (arith, bytes_before-suc i canon)) r
  point_at-Rising i (some t) ps r = (omega (arith, bytes_before-suc i canon), r)

  section_bytes-Rising :
      (at : Value → Option Ttl) (i : ℕ) (bs : List Value)
      → Rising (front + bytes_before i canon) (section_bytes front (points at i bs) canon)
  unfolding points
  section_bytes-Rising at i [] = unfold section_bytes in tt
  section_bytes-Rising at i (b ∷ bs) =
      point_at-Rising i (at b) (points at (suc i) bs) (section_bytes-Rising at (suc i) bs)

  section_bytes-All :
      (ps : Points) → All (λ n. n ≤ front + total_bytes canon) (section_bytes front ps canon)
  unfolding section_bytes
  section_bytes-All [] = tt
  section_bytes-All ((i, t) ∷ ps) =
      (omega (arith, bytes_before-total (suc i) canon), section_bytes-All ps)

  section_bytes-length : (ps : Points) → length (section_bytes front ps canon) ≡ length (ttls ps)
  unfolding section_bytes
  section_bytes-length [] = refl
  section_bytes-length (p ∷ ps) = ap suc (section_bytes-length ps)

All-weaken : (m n : ℕ) (ns : List ℕ) → m ≤ n → All (λ k. k ≤ m) ns → All (λ k. k ≤ n) ns
All-weaken m n [] l h = tt
All-weaken m n (k ∷ ns) l (h, hs) = (omega arith, All-weaken m n ns l hs)

last-All : (m : ℕ) (ns : List ℕ) → All (λ k. k ≤ m) ns → get_or (last ns) m ≤ m
last-All m [] h = omega arith
last-All m (n ∷ []) (h, hs) = h
last-All m (n ∷ k ∷ ns) (h, hs) = last-All m (k ∷ ns) hs

map-append : {A B : Type 0} (f : A → B) (xs ys : List A) → map f (xs ++ ys) ≡ map f xs ++ map f ys
map-append f [] ys = refl
map-append f (x ∷ xs) ys = ap (◌∷◌ (f x)) (map-append f xs ys)

-- The counts of an analysis go together: `bp_bytes` has a number for each time to live of `bp_ttls`,
-- it does not fall, and neither it nor `prefix_bytes` is above the bytes of tools and system text.
abbrev pub Sizes : Analysis → Type 0
Sizes a =
    Rising 0 a.bp_bytes
    × All (λ n. n ≤ a.tools_bytes + a.system_bytes) a.bp_bytes
    × (length a.bp_bytes ≡ length a.bp_ttls)
    × (a.prefix_bytes ≤ a.tools_bytes + a.system_bytes)

-- An analysis of a body that is a JSON object has its breakpoints in order and in its bounds: as many
-- byte counts as times to live, none below the one in front of it, and none, nor the count of the
-- prefix, above the bytes of tools and system text.
pub analyze_object-Sizes : (canon : Value → Bytes) (o : Fields) → Sizes (analyze_object canon o)
unfolding analyze_object
analyze_object-Sizes canon o =
    let a = analyze_object canon o in
    let tools = points breakpoint 0 (list_at o "tools") in
    let system = points breakpoint 0 (system_of (find o "system")) in
    let in_tools =
      All-weaken (0 + a.tools_bytes) a.tools_bytes _ (omega arith)
        (section_bytes-All 0 a.tools_canon tools) in
    let in_system = section_bytes-All a.tools_bytes a.system_canon system in
    let inside =
      All-append (λ n. n ≤ a.tools_bytes + a.system_bytes) _ _
        (All-weaken a.tools_bytes (a.tools_bytes + a.system_bytes) _ (omega arith) in_tools)
        in_system in
    (
      Rising-append 0 a.tools_bytes _ _ (omega arith)
          (Rising-lower 0 _ _ (omega arith)
            (section_bytes-Rising 0 a.tools_canon breakpoint 0 (list_at o "tools")))
          in_tools
          (Rising-lower a.tools_bytes _ _ (omega arith) (
            section_bytes-Rising a.tools_bytes a.system_canon breakpoint 0
              (system_of (find o "system")))),
      inside,
      length-append (section_bytes 0 tools a.tools_canon) _
          ∙ ap₂ ◌+◌ (section_bytes-length 0 a.tools_canon tools)
              (section_bytes-length a.tools_bytes a.system_canon system)
          ∙ sym (length-append (ttls tools) (ttls system)),
      last-All (a.tools_bytes + a.system_bytes) a.bp_bytes inside,
    )
