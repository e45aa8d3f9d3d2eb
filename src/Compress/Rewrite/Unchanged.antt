-- ===== src/Compress/Rewrite/Unchanged.antt =====
-- Where no edit of src/compress.rs sets the flag of a change, the value is as before.
use mur_model_gateway.Common.{
  ◌≡◌, refl, ◌∙◌, inl, inr, ℕ, Bool, true, false, List, [], ◌∷◌, String, Bool-cases, Option, none,
  some,
}
use mur_model_gateway.Json.{Value, null, bool, num, str, arr, obj}
use mur_model_gateway.Compress.Edits.{Edit, each_item}
use mur_model_gateway.Compress.Edits.Laws.{
  Flagged, Flagged-leave, Flagged-inside, Flagged-then, at_field-Flagged, each_item-Flagged,
}
use mur_model_gateway.Compress.Engine.{External, Run, compress_text, stale_stub}
use mur_model_gateway.Compress.Engine.Transparent.{compress_text-Flagged, stale_stub-changed}
use mur_model_gateway.Compress.Stale.{StaleReason, StaleCandidate}
use mur_model_gateway.Compress.Rewrite.Blocks.{
  has_text, put_stub, edit_text, edit_item, edit_payload, collapse, two_passes, note_if, note_stale,
}

module _ {W C D : Type 0} where
  -- the flag of a change
  abbrev pub changed : Run W C D → Bool
  changed r = r.changed

  -- The edit sets the flag where it leaves another value, and keeps it.
  abbrev pub IsFlagged : Edit (Run W C D) → Type 0
  IsFlagged f = (r : Run W C D) (v : Value) → Flagged changed v r (f r v)

  pub changed-none :
      (v : Value) (r : Run W C D) (q : Value × Run W C D)
      → Flagged changed v r q
      → q.1.changed ≡ false
      → q.0 ≡ v
  changed-none v r q (keep, inl e) h = e
  changed-none v r q (keep, inr e) h = cc

  pub put_stub-IsFlagged : (s : String) → IsFlagged (put_stub s)
  put_stub-IsFlagged s r v = (λ h. refl, inr refl)

module _ {W C D : Type 0} (ext : External W C D) where
  pub edit_text-IsFlagged : (m : ℕ) → IsFlagged (edit_text ext m)
  unfolding edit_text
  edit_text-IsFlagged m r (str s) =
      Flagged-inside changed str s r (compress_text ext m s r) (compress_text-Flagged ext m s r)
  edit_text-IsFlagged m r null = Flagged-leave changed _ r
  edit_text-IsFlagged m r (bool b) = Flagged-leave changed _ r
  edit_text-IsFlagged m r (num n) = Flagged-leave changed _ r
  edit_text-IsFlagged m r (arr vs) = Flagged-leave changed _ r
  edit_text-IsFlagged m r (obj fs) = Flagged-leave changed _ r

  edit_item-IsFlagged : (m : ℕ) → IsFlagged (edit_item ext m)
  unfolding edit_item
  edit_item-IsFlagged m r item = elim (Bool-cases (has_text "type" "text" item)) [
    | inl e ↦
        rw (e) (at_field-Flagged changed (edit_text ext m) (edit_text-IsFlagged m) "text" r item)
    | inr e ↦ rw (e) (Flagged-leave changed item r)
  ]

  pub edit_payload-IsFlagged : (m : ℕ) → IsFlagged (edit_payload ext m)
  unfolding edit_payload
  edit_payload-IsFlagged m r (arr vs) =
      Flagged-inside changed arr vs r (each_item (edit_item ext m) r vs)
        (each_item-Flagged changed (edit_item ext m) (edit_item-IsFlagged m) r vs)
  edit_payload-IsFlagged m r (str s) = edit_text-IsFlagged m r (str s)
  edit_payload-IsFlagged m r null = Flagged-leave changed _ r
  edit_payload-IsFlagged m r (bool b) = Flagged-leave changed _ r
  edit_payload-IsFlagged m r (num n) = Flagged-leave changed _ r
  edit_payload-IsFlagged m r (obj fs) = Flagged-leave changed _ r

  module _ {L : Type 0} (put : L → String → Edit (Run W C D))
      (h : (l : L) (s : String) → IsFlagged (put l s)) where
    put_stub_at :
        (l : L) (r : Run W C D) (p : String × Run W C D) (v : Value)
        → p.1.changed ≡ r.changed
        → Flagged changed v r (put l p.0 p.1 v)
    put_stub_at l r (s, q) v e = let (keep, new) = h l s q v in (λ c. keep (e ∙ c), new)

    pub collapse-IsFlagged :
        (xs : List (L × StaleCandidate)) (rs : List (Option StaleReason))
        → IsFlagged (collapse ext put xs rs)
    unfolding collapse
    collapse-IsFlagged [] rs r v = Flagged-leave changed v r
    collapse-IsFlagged (x ∷ xs) [] r v = Flagged-leave changed v r
    collapse-IsFlagged ((l, c) ∷ xs) (none ∷ rs) r v = collapse-IsFlagged xs rs r v
    collapse-IsFlagged ((l, c) ∷ xs) (some reason ∷ rs) r v =
        let p = stale_stub ext reason c.text r in
        let next = put l p.0 p.1 v in
        Flagged-then changed v next.0 r next.1 (collapse ext put xs rs next.1 next.0)
          (put_stub_at l r p v (stale_stub-changed ext reason c.text r))
          (collapse-IsFlagged xs rs next.1 next.0)

  note_if-changed :
      (traced : Bool) (v : Value) (r : Run W C D) → (note_if ext traced v r).changed ≡ r.changed
  note_if-changed true v r = refl
  note_if-changed false v r = refl

  pub two_passes-unchanged :
      (traced : Bool) (first : Edit (Run W C D)) (second : Value → Edit (Run W C D))
      → IsFlagged first
      → ((v : Value) → IsFlagged (second v))
      → (r : Run W C D) (root : Value)
      → (two_passes ext traced first second r root).1.changed ≡ false
      → (two_passes ext traced first second r root).0 ≡ root
  unfolding two_passes
  two_passes-unchanged traced first second f g r root h =
      let q = first (note_if ext traced root r) root in
      let w = second q.0 (note_stale ext q.1) q.0 in
      changed-none root (note_if ext traced root r) w
        (Flagged-then changed root q.0 (note_if ext traced root r) q.1 w
          (f (note_if ext traced root r) root) (g q.0 (note_stale ext q.1) q.0))
        h
