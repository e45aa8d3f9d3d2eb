-- ===== src/Compress/Engine/Transparent.antt =====
-- The memo of src/compress.rs does not show in what `compress_text` returns.
use mur_model_gateway.Common.{
  ◌≡◌, refl, sym, ◌∙◌, ap, subst, ◌⊎◌, inl, inr, ℕ, Option, none, some, String, if◌then◌else◌, ltb,
  get_or, Bool-cases,
}
use mur_model_gateway.Common.Text.Search.{byte_len}
use mur_model_gateway.Compress.{has_retrieve_marker}
use mur_model_gateway.Compress.Edits.Laws.{Flagged}
use mur_model_gateway.Compress.Engine.{
  External, Compressed, Verdict, Run, key, verdict_of, recall, verdict_for, replace_if,
  apply_verdict, compress_text, stale_stub, reuse_stub, stale_key,
}
use mur_model_gateway.Compress.Stale.{StaleReason}

module _ {W C D : Type 0} (ext : External W C D) where
  reuse_stub-changed :
      (reason : StaleReason) (s : String) (r : Run W C D) (found : Option String)
      → (reuse_stub ext reason s r found).1.changed ≡ r.changed
  reuse_stub-changed reason s r none = refl
  reuse_stub-changed reason s r (some stub) = refl

  pub stale_stub-changed :
      (reason : StaleReason) (s : String) (r : Run W C D)
      → (stale_stub ext reason s r).1.changed ≡ r.changed
  unfolding stale_stub
  stale_stub-changed reason s r =
      reuse_stub-changed reason s _ (ext.stub_cached r.stubs (stale_key ext reason s)).0

  recall-changed :
      (m : ℕ) (s : String) (r : Run W C D) (found : Option Verdict)
      → (recall ext m s r found).1.changed ≡ r.changed
  recall-changed m s r none = refl
  recall-changed m s r (some v) = refl

  verdict_for-changed :
      (m : ℕ) (s : String) (r : Run W C D) → (verdict_for ext m s r).1.changed ≡ r.changed
  unfolding verdict_for
  verdict_for-changed m s r = recall-changed m s _ (ext.cached r.verdicts (key ext s)).0

  replace_if-Flagged :
      (o : Option String) (s : String) (r q : Run W C D)
      → q.changed ≡ r.changed
      → Flagged (λ (x : Run W C D). x.changed) s r (replace_if ext o s q)
  replace_if-Flagged none s r q e = (λ h. e ∙ h, inl refl)
  replace_if-Flagged (some t) s r q e = (λ h. refl, inr refl)

  apply_verdict-Flagged :
      (s : String) (r : Run W C D) (p : Verdict × Run W C D)
      → p.1.changed ≡ r.changed
      → Flagged (λ (x : Run W C D). x.changed) s r (apply_verdict ext s p)
  apply_verdict-Flagged s r (v, q) e = replace_if-Flagged v.text s r _ e

  -- A text that stands in the place of another sets the flag of a change.
  pub compress_text-Flagged :
      (m : ℕ) (s : String) (r : Run W C D)
      → Flagged (λ (x : Run W C D). x.changed) s r (compress_text ext m s r)
  unfolding compress_text
  compress_text-Flagged m s r = elim (Bool-cases (ltb (byte_len s) m)) [
    | inl e ↦ rw (e) (λ h. h, inl refl)
    | inr e ↦ elim (Bool-cases (has_retrieve_marker s)) [
      | inl d ↦ rw (e, d) (λ h. h, inl refl)
      | inr d ↦ rw (e, d) (apply_verdict-Flagged s r _ (verdict_for-changed m s _))
    ]
  ]

  replace_if-get_or :
      (o : Option String) (s : String) (r : Run W C D)
      → ((replace_if ext o s r).0 ≡ get_or o s) × ((replace_if ext o s r).1.verdicts ≡ r.verdicts)
  replace_if-get_or none s r = (refl, refl)
  replace_if-get_or (some t) s r = (refl, refl)

  apply_verdict-get_or :
      (s : String) (p : Verdict × Run W C D)
      → ((apply_verdict ext s p).0 ≡ get_or p.0.text s)
        × ((apply_verdict ext s p).1.verdicts ≡ p.1.verdicts)
  apply_verdict-get_or s (v, r) = replace_if-get_or v.text s _

module _ {W C D : Type 0} (ext : External W C D) (min_tokens : ℕ) (engine : String → Compressed)
    (Seen : String → Type 0) where
  -- the text that stands in the place of another when there is no memo
  abbrev pub fresh : String → String
  fresh s =
      if ltb (byte_len s) min_tokens
      then s
      else if has_retrieve_marker s
      then s
      else get_or (verdict_of ext (engine s)).text s

  -- A verdict that the memo holds for a text that is seen is the one that the engine gives.
  abbrev pub Sound : C → Type 0
  Sound c =
      (s : String) (v : Verdict)
      → Seen s
      → (ext.cached c (key ext s)).0 ≡ some v
      → v ≡ verdict_of ext (engine s)

  -- the memo answers as before once it has been asked
  abbrev pub AsksLeave : Type 0
  AsksLeave = (c : C) (k j : ℕ) → (ext.cached (ext.cached c k).1 j).0 ≡ (ext.cached c j).0

  -- what the memo answers after a write is what was written there, or what it answered before
  abbrev pub WritesHold : Type 0
  WritesHold =
      (c : C) (k j : ℕ) (v u : Verdict)
      → (ext.cached (ext.cache c k v) j).0 ≡ some u
      → ((k ≡ j) × (v ≡ u)) ⊎ ((ext.cached c j).0 ≡ some u)

  -- the engine's result on a text does not depend on its store
  abbrev pub IsPure : Type 0
  IsPure = (w : W) (s : String) → (ext.auto_compress w s min_tokens).0 ≡ engine s

  -- no two of the texts that are seen have one key
  abbrev pub NoCollision : Type 0
  NoCollision = (s t : String) → Seen s → Seen t → key ext s ≡ key ext t → s ≡ t

  module _ (asks : AsksLeave) (writes : WritesHold) (pure : IsPure) (apart : NoCollision) where
    recall-fresh :
        (s : String) (r : Run W C D) (found : Option Verdict)
        → Seen s
        → Sound r.verdicts
        → ((v : Verdict) → found ≡ some v → v ≡ verdict_of ext (engine s))
        → ((recall ext min_tokens s r found).0 ≡ verdict_of ext (engine s))
          × Sound (recall ext min_tokens s r found).1.verdicts
    recall-fresh s r none seen sound h = (
      ap (verdict_of ext) (pure r.store s),
      λ t v seen_t k. elim (writes r.verdicts (key ext s) (key ext t) _ v k) [
        | inl (same, e) ↦
            sym e
            ∙ ap (verdict_of ext) (pure r.store s)
            ∙ ap (λ x. verdict_of ext (engine x)) (apart s t seen seen_t same)
        | inr old ↦ sound t v seen_t old
      ],
    )
    recall-fresh s r (some v) seen sound h = (h v refl, sound)

    verdict_for-fresh :
        (s : String) (r : Run W C D)
        → Seen s
        → Sound r.verdicts
        → ((verdict_for ext min_tokens s r).0 ≡ verdict_of ext (engine s))
          × Sound (verdict_for ext min_tokens s r).1.verdicts
    unfolding verdict_for
    verdict_for-fresh s r seen sound =
        let asked : Sound (ext.cached r.verdicts (key ext s)).1 =
          λ t v seen_t k. sound t v seen_t (sym (asks r.verdicts (key ext s) (key ext t)) ∙ k) in
        recall-fresh s _ (ext.cached r.verdicts (key ext s)).0 seen asked (λ v k. sound s v seen k)

    -- Where the memo holds for the texts that are seen what the engine gives, what stands in the place
    -- of such a text is what it would be without a memo, and the memo holds this afterwards: when the
    -- memo returns what was written, the engine is a function of the text, and no two texts that are
    -- seen share a key.
    pub compress_text-fresh :
        (s : String) (r : Run W C D)
        → Seen s
        → Sound r.verdicts
        → ((compress_text ext min_tokens s r).0 ≡ fresh s)
          × Sound (compress_text ext min_tokens s r).1.verdicts
    unfolding compress_text
    compress_text-fresh s r seen sound = elim (Bool-cases (ltb (byte_len s) min_tokens)) [
      | inl e ↦ rw (e) (refl, sound)
      | inr e ↦ elim (Bool-cases (has_retrieve_marker s)) [
        | inl d ↦ rw (e, d) (refl, sound)
        | inr d ↦
            let (same, sound_after) = verdict_for-fresh s _ seen sound in
            let (text, kept) = apply_verdict-get_or ext s (verdict_for ext min_tokens s _) in
            rw (e, d)
              (
                text ∙ ap (λ (v : Verdict). get_or v.text s) same,
                subst Sound (sym kept) sound_after,
              )
      ]
    ]
