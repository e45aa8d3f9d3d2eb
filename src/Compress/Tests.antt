-- ===== src/Compress/Tests.antt =====
-- The rewrite of src/compress.rs on small bodies.
use mur_model_gateway.Common.{
  ◌≡◌, refl, sym, ◌∙◌, ◌⊎◌, inl, inr, ℕ, ◌+◌, ◌==◌, ==_iff, true, false, List, [], ◌∷◌, Option,
  none, some, String, if◌then◌else◌, Bool-cases, get_elem?, ◌<◌,
}
use mathlib.Core.Option.{none-ne-some, some-injective}
use mur_model_gateway.Compress.Stale.Reference.{stale_reasons, compute_stale_reasons-stale_reasons}
use mur_model_gateway.Compress.Rewrite.Anthropic.{compress_anthropic}
use mur_model_gateway.Compress.Rewrite.Anthropic.Kept.{erase_anthropic, compress_anthropic-erase}
use mur_model_gateway.Common.Text.{push_str}
use mur_model_gateway.Json.{Value, str, object, array}
use mur_model_gateway.Route.{anthropic, should_translate, is_under}
use mur_model_gateway.Compress.{has_retrieve_marker}
use mur_model_gateway.Compress.Marker.{hash_somewhere, has_retrieve_marker-somewhere}
use mur_model_gateway.Compress.Engine.{
  External, Compressed, Verdict, Run, empty_summary, compress_text, key,
}
use mur_model_gateway.Compress.Engine.Transparent.{fresh, Sound, compress_text-fresh}
use mur_model_gateway.Compress.Stale.{
  StaleCandidate, superseded_path, duplicate, compute_stale_reasons,
}
use mur_model_gateway.Compress.Stale.Kept.{
  compute_stale_reasons-duplicate, compute_stale_reasons-superseded, Supersedes,
}
use mur_model_gateway.Forward.Body.{prepare}
use mur_model_gateway.Forward.Body.Whole.{Forwards, Kept, Responses, prepare-Kept}
use mur_model_gateway.Compress.Rewrite.{
  Shared, Setup, rewrite_root, rewrite_request_body, shared_engine,
}
use mur_model_gateway.Compress.Rewrite.Request.{
  Current, rewrite_root-unchanged, shared_engine-Current,
}

-- `cat f` shows the text of a file; a read of the file shows the same text; then the file is edited.
abbrev shown : StaleCandidate
shown = record { path = none; view = ""; is_read = false; text = "x = 1" }

abbrev read : StaleCandidate
read = record { path = some "f"; view = "Read f"; is_read = true; text = "x = 1" }

abbrev edit : StaleCandidate
edit = record { path = some "f"; view = ""; is_read = false; text = "done" }

duplicate_of_read : compute_stale_reasons (shown ∷ read ∷ []) ≡ some duplicate ∷ none ∷ []
unfolding compute_stale_reasons
duplicate_of_read = refl

-- The edit supersedes the read, and the text that was collapsed as its duplicate stands there again.
duplicate_undone :
    compute_stale_reasons (shown ∷ read ∷ edit ∷ []) ≡ none ∷ some (superseded_path "f") ∷ none ∷ []
unfolding compute_stale_reasons
duplicate_undone = refl

compute_stale_reasons-duplicate_example :
    (j : ℕ) × (d : StaleCandidate) × (0 < j)
    × (get_elem? (shown ∷ read ∷ []) j ≡ some d)
    × (d.text ≡ "x = 1")
    × (get_elem? (compute_stale_reasons (shown ∷ read ∷ [])) j ≡ some none)
compute_stale_reasons-duplicate_example =
    compute_stale_reasons-duplicate (shown ∷ read ∷ []) 0 shown refl
      (unfold compute_stale_reasons in refl)

compute_stale_reasons-superseded_example :
    (read.is_read ≡ true)
    × (read.path ≡ some "f")
    × ((j : ℕ) × (d : StaleCandidate) × (1 < j)
        × (get_elem? (shown ∷ read ∷ edit ∷ []) j ≡ some d)
        × Supersedes read "f" d)
compute_stale_reasons-superseded_example =
    compute_stale_reasons-superseded (shown ∷ read ∷ edit ∷ []) 1 read "f" refl
      (unfold compute_stale_reasons in refl)

abbrev Cache : Type 0
Cache = List (ℕ × Verdict)

abbrev find_verdict : Cache → ℕ → Option Verdict
find_verdict [] k = none
find_verdict ((j, v) ∷ c) k = if j == k then some v else find_verdict c k

abbrev short : String → Compressed
short s = record {
  fired = true;
  hash = none;
  text = "short";
  original_tokens = 9;
  compressed_tokens = 1;
}

abbrev result_block : String → Value
result_block t =
    object (("type", str "tool_result") ∷ ("tool_use_id", str "t1") ∷ ("content", str t) ∷ [])

abbrev call_block : String → Value
call_block tool = object (("type", str "tool_use") ∷ ("id", str "t1") ∷ ("name", str tool) ∷ [])

abbrev body_with : String → Value
body_with tool = object (
    (
      "messages",
      array (
          object (("role", str "assistant") ∷ ("content", array (call_block tool ∷ [])) ∷ [])
          ∷ object
              (("role", str "user") ∷ ("content", array (result_block "a long output" ∷ [])) ∷ [])
          ∷ []),
    )
    ∷ [])

abbrev world : External ℕ Cache ℕ
world = record {
  auto_compress = λ w s m. (short s, w + 1);
  archive = λ w s. (some "0123456789abcdef", w + 1);
  skeletonize = λ s p. none;
  retrieval_note = λ h. push_str "hash=" h;
  hash = λ parts. 7;
  cached = λ c k. (find_verdict c k, c);
  cache = λ c k v. (k, v) ∷ c;
  stub_cached = λ d k. (none, d);
  cache_stub = λ d k s. d;
  print = λ v. "{}";
  parse = λ s. none;
  size = λ v. 1;
  decode = λ b. some (body_with "Bash");
  encode = λ v. some (2 ∷ []);
}

abbrev setup : Setup ℕ Cache ℕ
setup = record {
  mur_home = some "/home/.mur";
  load = λ home. record { enabled = true; auto_enabled = true; min_tokens = 4 };
  config_fingerprint = λ cfg. 5;
  new_engine = λ home cfg. some 0;
  new_verdicts = [];
  new_stubs = 0;
}

abbrev fresh_run : Run ℕ Cache ℕ
fresh_run = record { store = 0; verdicts = []; stubs = 0; summary = empty_summary; changed = false }

abbrev start_of : Setup ℕ Cache ℕ → Shared ℕ Cache ℕ
start_of s = record { engine = 0; min_tokens = 4; verdicts = []; stubs = 0; fingerprint = 5 }

rewritten : (rewrite_request_body world setup false anthropic (1 ∷ []) none).0.body ≡ some (2 ∷ [])
unfolding rewrite_request_body
rewritten = refl

prepared :
    Forwards (prepare world setup false true "/v1/messages" anthropic (1 ∷ []) none).0 (2 ∷ [])
unfolding prepare is_under
prepared = refl

prepare-Kept_example :
    (mid : List ℕ) × Kept world true "/v1/messages" anthropic (1 ∷ []) mid
    × (((should_translate "/v1/messages" ≡ false) × (2 ∷ [] ≡ mid))
        ⊎ ((should_translate "/v1/messages" ≡ true) × Responses world mid (2 ∷ [])))
prepare-Kept_example =
    prepare-Kept world setup false true "/v1/messages" anthropic (1 ∷ []) none (2 ∷ []) prepared

-- The output of a read stays.
not_changed : (rewrite_root world anthropic false 4 fresh_run (body_with "Read")).1.changed ≡ false
unfolding rewrite_root
not_changed = refl

rewrite_root-unchanged_example :
    (rewrite_root world anthropic false 4 fresh_run (body_with "Read")).0 ≡ body_with "Read"
rewrite_root-unchanged_example =
    rewrite_root-unchanged world anthropic false 4 fresh_run (body_with "Read") not_changed

compress_anthropic-erase_example :
    erase_anthropic [] (compress_anthropic world 4 [] fresh_run (body_with "Bash")).0
    ≡ erase_anthropic [] (body_with "Bash")
compress_anthropic-erase_example = compress_anthropic-erase world 4 [] fresh_run (body_with "Bash")

-- The text of the result is replaced.
compressed : (compress_anthropic world 4 [] fresh_run (body_with "Bash")).1.changed ≡ true
unfolding compress_anthropic
compressed = refl

compute_stale_reasons-stale_reasons_example :
    compute_stale_reasons (shown ∷ read ∷ edit ∷ []) ≡ stale_reasons (shown ∷ read ∷ edit ∷ [])
compute_stale_reasons-stale_reasons_example =
    compute_stale_reasons-stale_reasons (shown ∷ read ∷ edit ∷ [])

has_retrieve_marker-somewhere_example :
    has_retrieve_marker "see hash=\"0123456789abcdef" ≡ hash_somewhere "see hash=\"0123456789abcdef"
has_retrieve_marker-somewhere_example = has_retrieve_marker-somewhere "see hash=\"0123456789abcdef"

marked : has_retrieve_marker "see hash=\"0123456789abcdef" ≡ true
unfolding has_retrieve_marker
marked = refl

abbrev Seen : String → Type 0
Seen s = s ≡ "a long output"

one_text : (s t : String) → Seen s → Seen t → key world s ≡ key world t → s ≡ t
one_text s t a b e = a ∙ sym b

written :
    (c : Cache) (k j : ℕ) (v u : Verdict)
    → find_verdict ((k, v) ∷ c) j ≡ some u
    → ((k ≡ j) × (v ≡ u)) ⊎ (find_verdict c j ≡ some u)
written c k j v u h = elim (Bool-cases (k == j)) [
  | inl e ↦ inl ((==_iff k j).0 e, some-injective _ _ (rw (e) at h))
  | inr e ↦ inr (rw (e) at h)
]

compress_text-fresh_example :
    ((compress_text world 4 "a long output" fresh_run).0 ≡ fresh world 4 short Seen "a long output")
    × Sound world 4 short Seen (compress_text world 4 "a long output" fresh_run).1.verdicts
compress_text-fresh_example =
    compress_text-fresh world 4 short Seen (λ c k j. refl) written (λ w s. refl) one_text
      "a long output" fresh_run refl (λ s v seen h. absurd (none-ne-some v h))

shared_engine-Current_example : Current setup none (start_of setup)
shared_engine-Current_example =
    shared_engine-Current setup none (start_of setup) (unfold shared_engine in refl)
