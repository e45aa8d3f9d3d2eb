-- ===== src/Compress/Stale/Reference.antt =====
-- What makes a tool result stale, said of the candidates behind it alone, and that
-- `compute_stale_reasons` of src/compress.rs, with its indices and its maps, computes just this.
use mur_model_gateway.Common.{
  ◌≡◌, refl, ◌∙◌, ap, ap₂, subst, ◌⊎◌, inl, inr, ◌≤◌, ℕ, ◌+◌, Bool, true, false, ◌&&◌, ◌||◌, not,
  List, [], ◌∷◌, Option, none, some, String, if◌then◌else◌, is_some, any, arith,
}
use mur_model_gateway.Common.Text.{str_eq}
use mur_model_gateway.Common.Text.Prefix.{str_eq_refl}
use mur_model_gateway.Compress.Stale.{
  StaleReason, StaleCandidate, Index, lookup, insert_path, touch, see, path_last_touch,
  view_last_idx, is_after, is_at, superseded_if, touched_after, superseded_at, superseded_from,
  repeated, mark, mark_duplicates, compute_stale_reasons,
}

abbrev pub is_path : String → Option String → Bool
is_path p none = false
is_path p (some q) = str_eq q p

-- an edit or another call, not a read, that names this path
abbrev pub touches : String → StaleCandidate → Bool
touches p c = not c.is_read && is_path p c.path

-- a read that asks for this view
abbrev pub shows : String → StaleCandidate → Bool
shows v c = c.is_read && str_eq c.view v

abbrev pub touched : Option String → List StaleCandidate → Bool
touched none later = false
touched (some p) later = any (touches p) later

-- A read with a path, whose path is touched or whose view is shown again by what comes later.
unfoldable pub superseded_by : StaleCandidate → List StaleCandidate → Option StaleReason
unfolding str_eq
superseded_by c later =
    superseded_if (c.is_read && (touched c.path later || any (shows c.view) later)) c.path

-- A later result has the same text and is itself not superseded.
unfoldable pub repeated_by : String → List StaleCandidate → Bool
unfolding superseded_by str_eq
repeated_by t [] = false
repeated_by t (d ∷ later) =
    (not (is_some (superseded_by d later)) && str_eq t d.text) || repeated_by t later

unfoldable pub reason_of : StaleCandidate → List StaleCandidate → Option StaleReason
unfolding superseded_by repeated_by
reason_of c later = mark (repeated_by c.text later) (superseded_by c later)

unfoldable pub stale_reasons : List StaleCandidate → List (Option StaleReason)
unfolding reason_of
stale_reasons [] = []
stale_reasons (c ∷ later) = reason_of c later ∷ stale_reasons later

-- no index of the map is above `i`
abbrev Below : ℕ → Index → Type 0
Below i m = (p : String) → is_after i (lookup p m) ≡ false

lookup-touch :
    (r : Bool) (o : Option String) (p : String) (i : ℕ) (m : Index)
    → lookup p (if r then m else insert_path o i m)
      ≡ (if not r && is_path p o then some i else lookup p m)
unfolding lookup
lookup-touch true o p i m = refl
lookup-touch false none p i m = refl
lookup-touch false (some q) p i m = refl

lookup-see :
    (r : Bool) (w v : String) (i : ℕ) (m : Index)
    → lookup v (if r then (w, i) ∷ m else m) ≡ (if r && str_eq w v then some i else lookup v m)
unfolding lookup
lookup-see true w v i m = refl
lookup-see false w v i m = refl

-- What a loop that goes on from the index `i` has written for a key: an index from `i` on where a
-- candidate writes the key, else what stood there.
abbrev Written : Bool → ℕ → Option ℕ → Option ℕ → Type 0
Written b i r old = ((b ≡ true) × ((t : ℕ) × (r ≡ some t) × (i ≤ t))) ⊎ ((b ≡ false) × (r ≡ old))

Written-cons :
    (w b : Bool) (i : ℕ) (r mid old : Option ℕ)
    → mid ≡ (if w then some i else old)
    → Written b (i + 1) r mid
    → Written (w || b) i r old
Written-cons true b i r mid old e (inl (h, (t, k, l))) = inl (refl, (t, k, omega arith))
Written-cons true b i r mid old e (inr (h, k)) = inl (refl, (i, k ∙ e, omega arith))
Written-cons false b i r mid old e (inl (h, (t, k, l))) = inl (h, (t, k, omega arith))
Written-cons false b i r mid old e (inr (h, k)) = inr (h, k ∙ e)

path_last_touch-Written :
    (p : String) (i : ℕ) (cs : List StaleCandidate) (m : Index)
    → Written (any (touches p) cs) i (lookup p (path_last_touch i cs m)) (lookup p m)
unfolding path_last_touch
path_last_touch-Written p i [] m = inr (refl, refl)
path_last_touch-Written p i (c ∷ cs) m =
    Written-cons _ _ i _ _ _ (lookup-touch c.is_read c.path p i m)
      (path_last_touch-Written p (i + 1) cs _)

view_last_idx-Written :
    (v : String) (i : ℕ) (cs : List StaleCandidate) (m : Index)
    → Written (any (shows v) cs) i (lookup v (view_last_idx i cs m)) (lookup v m)
unfolding view_last_idx
view_last_idx-Written v i [] m = inr (refl, refl)
view_last_idx-Written v i (c ∷ cs) m =
    Written-cons _ _ i _ _ _ (lookup-see c.is_read c.view v i m)
      (view_last_idx-Written v (i + 1) cs _)

is_after-Written :
    (b : Bool) (i : ℕ) (r old : Option ℕ)
    → is_after i old ≡ false
    → Written b (i + 1) r old
    → is_after i r ≡ b
is_after-Written b i r old h (inl (e, (t, k, l))) = rw (k, e) ground arith
is_after-Written b i r old h (inr (e, k)) = rw (k, e) h

is_at-Written :
    (b : Bool) (i : ℕ) (r : Option ℕ) → Written b (i + 1) r (some i) → not (is_at i r) ≡ b
is_at-Written b i r (inl (e, (t, k, l))) = rw (k, e) ground arith
is_at-Written b i r (inr (e, k)) = rw (k, e) ground arith

touched_after-touched :
    (o : Option String) (i : ℕ) (cs : List StaleCandidate) (m : Index)
    → Below i m
    → touched_after (path_last_touch (i + 1) cs m) i o ≡ touched o cs
touched_after-touched none i cs m h = refl
touched_after-touched (some p) i cs m h =
    is_after-Written _ i _ _ (h p) (path_last_touch-Written p (i + 1) cs m)

is_at-shows :
    (v : String) (i : ℕ) (cs : List StaleCandidate) (m : Index)
    → lookup v m ≡ some i
    → not (is_at i (lookup v (view_last_idx (i + 1) cs m))) ≡ any (shows v) cs
is_at-shows v i cs m h = is_at-Written _ i _ (
    subst (λ o. Written (any (shows v) cs) (i + 1) (lookup v (view_last_idx (i + 1) cs m)) o) h
      (view_last_idx-Written v (i + 1) cs m))

lookup-see_same : (v : String) (i : ℕ) (m : Index) → lookup v ((v, i) ∷ m) ≡ some i
unfolding lookup
lookup-see_same v i m = rw (str_eq_refl v) refl

and-when : (r a b : Bool) → (r ≡ true → a ≡ b) → (r && a) ≡ (r && b)
and-when true a b h = h refl
and-when false a b h = refl

-- The round of the second loop at `i`, with the maps of the whole first loop.
superseded_at-by :
    (i : ℕ) (c : StaleCandidate) (cs : List StaleCandidate) (m n : Index)
    → Below i m
    → superseded_at (path_last_touch (i + 1) cs m) (view_last_idx (i + 1) cs (see i c n)) i c
      ≡ superseded_by c cs
unfolding superseded_at superseded_by
superseded_at-by i c cs m n h =
    ap (λ b. superseded_if b c.path)
      (and-when c.is_read _ _ (λ r.
        ap₂ ◌||◌ (touched_after-touched c.path i cs m h)
          (is_at-shows c.view i cs (see i c n) (rw (r) (lookup-see_same c.view i n)))))

is_after-written :
    (b : Bool) (i : ℕ) (o : Option ℕ)
    → is_after i o ≡ false
    → is_after i (if b then some i else o) ≡ false
is_after-written true i o h = ground arith
is_after-written false i o h = h

is_after-next : (i : ℕ) (o : Option ℕ) → is_after i o ≡ false → is_after (i + 1) o ≡ false
is_after-next i none h = refl
is_after-next i (some t) h = ground arith

touch-Below : (i : ℕ) (c : StaleCandidate) (m : Index) → Below i m → Below i (touch i c m)
touch-Below i c m h p =
    rw (lookup-touch c.is_read c.path p i m) (is_after-written _ i (lookup p m) (h p))

superseded : List StaleCandidate → List (Option StaleReason)
superseded [] = []
superseded (c ∷ cs) = superseded_by c cs ∷ superseded cs

superseded_from-superseded :
    (i : ℕ) (cs : List StaleCandidate) (m n : Index)
    → Below i m
    → superseded_from (path_last_touch i cs m) (view_last_idx i cs n) i cs ≡ superseded cs
unfolding superseded_from superseded path_last_touch view_last_idx
superseded_from-superseded i [] m n h = refl
superseded_from-superseded i (c ∷ cs) m n h =
    let below = touch-Below i c m h in
    ap₂ ◌∷◌ (superseded_at-by i c cs (touch i c m) n below) (
      superseded_from-superseded (i + 1) cs (touch i c m) (see i c n)
        (λ p. is_after-next i (lookup p (touch i c m)) (below p)))

repeated-repeated_by :
    (t : String) (cs : List StaleCandidate) → repeated t cs (superseded cs) ≡ repeated_by t cs
unfolding repeated repeated_by superseded
repeated-repeated_by t [] = refl
repeated-repeated_by t (c ∷ cs) = ap (◌||◌ _) (repeated-repeated_by t cs)

mark_duplicates-stale_reasons :
    (cs : List StaleCandidate) → mark_duplicates cs (superseded cs) ≡ stale_reasons cs
unfolding mark_duplicates stale_reasons superseded reason_of
mark_duplicates-stale_reasons [] = refl
mark_duplicates-stale_reasons (c ∷ cs) =
    ap₂ ◌∷◌ (ap (λ b. mark b (superseded_by c cs)) (repeated-repeated_by c.text cs))
      (mark_duplicates-stale_reasons cs)

-- The reasons that the program computes, with its maps and its indices, are at each candidate those
-- that the candidates behind it give: a read is superseded when its path is touched by a later call
-- that is not a read or when a later read asks for the same view, and otherwise a result is a
-- duplicate when a later result that is itself not superseded has the same text.
pub compute_stale_reasons-stale_reasons :
    (cs : List StaleCandidate) → compute_stale_reasons cs ≡ stale_reasons cs
unfolding compute_stale_reasons
compute_stale_reasons-stale_reasons cs =
    rw (superseded_from-superseded 0 cs [] [] (λ p. unfold lookup in refl))
      (mark_duplicates-stale_reasons cs)
