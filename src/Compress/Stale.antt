-- ===== src/Compress/Stale.antt =====
-- src/compress.rs (`StaleReason`, `StaleCandidate`, `compute_stale_reasons`): which tool results a
-- later event of the conversation has made out of date. A `HashMap` is the list of its writes, the
-- latest in front.
pub mod Kept
pub mod Reference
use mur_model_gateway.Common.{
  ℕ, ◌+◌, Bool, true, false, ◌&&◌, ◌||◌, not, List, [], ◌∷◌, Option, none, some, String,
  if◌then◌else◌, ltb, ◌==◌, is_some, any,
}
use mur_model_gateway.Common.Text.{str_eq}

pub data StaleReason : Type 0 where
  superseded_path : (path : String) → StaleReason
  duplicate : StaleReason

pub record StaleCandidate : Type 0 where
  pub path : Option String
  pub view : String
  pub is_read : Bool
  pub text : String

abbrev pub Index : Type 0
Index = List (String × ℕ)

-- `HashMap::get`
unfoldable pub lookup : String → Index → Option ℕ
unfolding str_eq
lookup k [] = none
lookup k ((j, i) ∷ m) = if str_eq j k then some i else lookup k m

abbrev pub insert_path : Option String → ℕ → Index → Index
insert_path none i m = m
insert_path (some p) i m = (p, i) ∷ m

-- one round of the first loop, on `path_last_touch`
abbrev pub touch : ℕ → StaleCandidate → Index → Index
touch i c m = if c.is_read then m else insert_path c.path i m

-- one round of the first loop, on `view_last_idx`
abbrev pub see : ℕ → StaleCandidate → Index → Index
see i c m = if c.is_read then (c.view, i) ∷ m else m

-- the first loop, from the candidate at index `i` on
unfoldable pub path_last_touch : ℕ → List StaleCandidate → Index → Index
path_last_touch i [] m = m
path_last_touch i (c ∷ cs) m = path_last_touch (i + 1) cs (touch i c m)

unfoldable pub view_last_idx : ℕ → List StaleCandidate → Index → Index
view_last_idx i [] m = m
view_last_idx i (c ∷ cs) m = view_last_idx (i + 1) cs (see i c m)

abbrev pub is_after : ℕ → Option ℕ → Bool
is_after i none = false
is_after i (some t) = ltb i t

abbrev pub is_at : ℕ → Option ℕ → Bool
is_at i none = false
is_at i (some t) = t == i

abbrev pub superseded_if : Bool → Option String → Option StaleReason
superseded_if b none = none
superseded_if b (some p) = if b then some (superseded_path p) else none

abbrev pub touched_after : Index → ℕ → Option String → Bool
touched_after touches i none = false
touched_after touches i (some p) = is_after i (lookup p touches)

-- one round of the second loop
unfoldable pub superseded_at : Index → Index → ℕ → StaleCandidate → Option StaleReason
unfolding lookup
superseded_at touches views i c =
    superseded_if
      (c.is_read && (touched_after touches i c.path || not (is_at i (lookup c.view views)))) c.path

-- the second loop
unfoldable pub superseded_from : Index → Index → ℕ → List StaleCandidate → List (Option StaleReason)
unfolding superseded_at
superseded_from touches views i [] = []
superseded_from touches views i (c ∷ cs) =
    superseded_at touches views i c ∷ superseded_from touches views (i + 1) cs

-- the inner loop of the last pass: a later candidate with no reason so far has the same text
unfoldable pub repeated : String → List StaleCandidate → List (Option StaleReason) → Bool
unfolding str_eq
repeated t [] rs = false
repeated t (c ∷ cs) [] = false
repeated t (c ∷ cs) (r ∷ rs) = (not (is_some r) && str_eq t c.text) || repeated t cs rs

abbrev pub mark : Bool → Option StaleReason → Option StaleReason
mark again (some r) = some r
mark again none = if again then some duplicate else none

-- The last pass. Its round at an index reads the reasons behind the index and writes the one at it.
unfoldable pub mark_duplicates :
    List StaleCandidate → List (Option StaleReason) → List (Option StaleReason)
unfolding repeated
mark_duplicates [] rs = []
mark_duplicates (c ∷ cs) [] = []
mark_duplicates (c ∷ cs) (r ∷ rs) = mark (repeated c.text cs rs) r ∷ mark_duplicates cs rs

unfoldable pub compute_stale_reasons : List StaleCandidate → List (Option StaleReason)
unfolding mark_duplicates superseded_from path_last_touch view_last_idx
compute_stale_reasons cs =
    mark_duplicates cs (superseded_from (path_last_touch 0 cs []) (view_last_idx 0 cs []) 0 cs)
