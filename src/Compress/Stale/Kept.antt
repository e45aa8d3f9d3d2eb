-- ===== src/Compress/Stale/Kept.antt =====
-- What the staleness decisions of src/compress.rs leave in the conversation.
use mur_model_gateway.Common.{
  ◌≡◌, refl, sym, ap, subst, ◌⊎◌, inl, inr, ◌<◌, ℕ, zero, suc, Bool, true, false, List, [], ◌∷◌,
  Option, none, some, String, is_some, any, arith, Bool-cases, get_elem?, or-cases,
}
use mathlib.Core.Bool.{and-eq-true_iff}
use mathlib.Core.Option.{none-ne-some, some-injective}
use mur_model_gateway.Common.Text.{str_eq}
use mur_model_gateway.Common.Text.Prefix.{str_eq_iff}
use mur_model_gateway.Compress.Stale.{
  StaleReason, StaleCandidate, superseded_path, duplicate, superseded_if, mark,
  compute_stale_reasons,
}
use mur_model_gateway.Compress.Stale.Reference.{
  touches, shows, touched, superseded_by, repeated_by, reason_of, stale_reasons,
  compute_stale_reasons-stale_reasons,
}

-- The result at an index has no reason to be collapsed, and has this text.
abbrev pub KeptAt : List StaleCandidate → ℕ → String → Type 0
KeptAt cs j t =
    (get_elem? (stale_reasons cs) j ≡ some none)
    × ((d : StaleCandidate) × (get_elem? cs j ≡ some d) × (d.text ≡ t))

KeptAt-later :
    (d : StaleCandidate) (cs : List StaleCandidate) (j : ℕ) (t : String)
    → KeptAt cs j t
    → KeptAt (d ∷ cs) (suc j) t
unfolding stale_reasons
KeptAt-later d cs j t k = k

-- A result that is not superseded, and whose text no later one repeats, is kept.
mark-none : (s : Option StaleReason) (b : Bool) → is_some s ≡ false → b ≡ false → mark b s ≡ none
mark-none none b h k = rw (k) refl
mark-none (some r) b h k = cc

-- Where some later result that is not superseded has a text, a later kept result has it.
repeated_by-KeptAt :
    (t : String) (cs : List StaleCandidate) → repeated_by t cs ≡ true → (j : ℕ) × KeptAt cs j t
unfolding repeated_by
repeated_by-KeptAt t [] h = cc
repeated_by-KeptAt t (d ∷ cs) h = elim (Bool-cases (repeated_by t cs)) [
  | inl again ↦ let (j, k) = repeated_by-KeptAt t cs again in (suc j, KeptAt-later d cs j t k)
  | inr last ↦
      let here : (is_some (superseded_by d cs) ≡ false) × (str_eq t d.text ≡ true) =
        (ground arith, ground arith) in
      let same = (str_eq_iff t d.text).0 here.1 in
      (
        zero,
        (
          (unfold stale_reasons reason_of in ap some (mark-none _ _ here.0 (rw (sym same) last))),
          (d, refl, sym same),
        ),
      )
]

mark-duplicate :
    (b x : Bool) (o : Option String) → mark b (superseded_if x o) ≡ some duplicate → b ≡ true
mark-duplicate true x o h = refl
mark-duplicate false x none h = cc
mark-duplicate false true (some p) h = cc
mark-duplicate false false (some p) h = cc

mark-superseded_path :
    (b x : Bool) (o : Option String) (p : String)
    → mark b (superseded_if x o) ≡ some (superseded_path p)
    → (x ≡ true) × (o ≡ some p)
mark-superseded_path true x none p h = (cc, cc)
mark-superseded_path false x none p h = (cc, cc)
mark-superseded_path b true (some q) p h = (refl, cc)
mark-superseded_path true false (some q) p h = (cc, cc)
mark-superseded_path false false (some q) p h = (cc, cc)

reason_of-duplicate :
    (c : StaleCandidate) (cs : List StaleCandidate)
    → reason_of c cs ≡ some duplicate
    → repeated_by c.text cs ≡ true
unfolding reason_of superseded_by
reason_of-duplicate c cs h = mark-duplicate _ _ c.path h

duplicate-KeptAt :
    (cs : List StaleCandidate) (i : ℕ) (c : StaleCandidate)
    → get_elem? cs i ≡ some c
    → get_elem? (stale_reasons cs) i ≡ some (some duplicate)
    → (j : ℕ) × (i < j) × KeptAt cs j c.text
unfolding stale_reasons
duplicate-KeptAt [] i c h k = absurd (none-ne-some _ h)
duplicate-KeptAt (d ∷ cs) zero c h k =
    let e = some-injective _ _ h in
    let (j, kept) =
      repeated_by-KeptAt d.text cs (reason_of-duplicate d cs (some-injective _ _ k)) in
    (suc j, omega arith, rw (sym e) (KeptAt-later d cs j d.text kept))
duplicate-KeptAt (d ∷ cs) (suc i) c h k =
    let (j, l, kept) = duplicate-KeptAt cs i c h k in
    (suc j, omega arith, KeptAt-later d cs j c.text kept)

-- A result that is to be collapsed as a duplicate has the text of a later result, and that one has no
-- reason to be collapsed itself.
pub compute_stale_reasons-duplicate :
    (cs : List StaleCandidate) (i : ℕ) (c : StaleCandidate)
    → get_elem? cs i ≡ some c
    → get_elem? (compute_stale_reasons cs) i ≡ some (some duplicate)
    → (j : ℕ) × (d : StaleCandidate) × (i < j)
      × (get_elem? cs j ≡ some d)
      × (d.text ≡ c.text)
      × (get_elem? (compute_stale_reasons cs) j ≡ some none)
compute_stale_reasons-duplicate cs i c h k =
    let e = compute_stale_reasons-stale_reasons cs in
    let (j, l, (n, (d, at_j, same))) =
      duplicate-KeptAt cs i c h (subst (λ rs. get_elem? rs i ≡ some (some duplicate)) e k) in
    (j, d, l, at_j, same, subst (λ rs. get_elem? rs j ≡ some none) (sym e) n)

any-get_elem? :
    (p : StaleCandidate → Bool) (cs : List StaleCandidate)
    → any p cs ≡ true
    → (j : ℕ) × (d : StaleCandidate) × (get_elem? cs j ≡ some d) × (p d ≡ true)
any-get_elem? p [] h = cc
any-get_elem? p (d ∷ cs) h = elim (or-cases (p d) (any p cs) h) [
  | inl here ↦ (zero, d, refl, here)
  | inr there ↦ let (j, e, k, q) = any-get_elem? p cs there in (suc j, e, k, q)
]

-- A call that names the path and is no read, or a read that asks for the view.
abbrev pub Supersedes : StaleCandidate → String → StaleCandidate → Type 0
Supersedes c p d = (touches p d ≡ true) ⊎ (shows c.view d ≡ true)

reason_of-superseded_path :
    (c : StaleCandidate) (cs : List StaleCandidate) (p : String)
    → reason_of c cs ≡ some (superseded_path p)
    → (c.is_read ≡ true)
      × (c.path ≡ some p)
      × ((j : ℕ) × (d : StaleCandidate) × (get_elem? cs j ≡ some d) × Supersedes c p d)
unfolding reason_of superseded_by
reason_of-superseded_path c cs p h =
    let (both, path) = mark-superseded_path _ _ c.path p h in
    let (read, later) = (and-eq-true_iff _ _).0 both in
    (
      read,
      path,
      elim (or-cases (touched c.path cs) _ later) [
        | inl t ↦
            let (j, d, k, q) =
              any-get_elem? (touches p) cs (subst (λ o. touched o cs ≡ true) path t) in
            (j, d, k, inl q)
        | inr t ↦ let (j, d, k, q) = any-get_elem? (shows c.view) cs t in (j, d, k, inr q)
      ],
    )

superseded_path-later :
    (cs : List StaleCandidate) (i : ℕ) (c : StaleCandidate) (p : String)
    → get_elem? cs i ≡ some c
    → get_elem? (stale_reasons cs) i ≡ some (some (superseded_path p))
    → (c.is_read ≡ true)
      × (c.path ≡ some p)
      × ((j : ℕ) × (d : StaleCandidate) × (i < j) × (get_elem? cs j ≡ some d) × Supersedes c p d)
unfolding stale_reasons
superseded_path-later [] i c p h k = absurd (none-ne-some _ h)
superseded_path-later (b ∷ cs) zero c p h k =
    let e = some-injective _ _ h in
    let (read, path, (j, d, at_j, s)) =
      reason_of-superseded_path c cs p
        (subst (λ x. reason_of x cs ≡ some (superseded_path p)) e (some-injective _ _ k)) in
    (read, path, (suc j, d, omega arith, at_j, s))
superseded_path-later (b ∷ cs) (suc i) c p h k =
    let (read, path, (j, d, l, at_j, s)) = superseded_path-later cs i c p h k in
    (read, path, (suc j, d, omega arith, at_j, s))

-- A result that the program replaces as superseded is a read of the path that it names, and a later
-- candidate is a call on this path that is no read, or a read that asks for the same view.
pub compute_stale_reasons-superseded :
    (cs : List StaleCandidate) (i : ℕ) (c : StaleCandidate) (p : String)
    → get_elem? cs i ≡ some c
    → get_elem? (compute_stale_reasons cs) i ≡ some (some (superseded_path p))
    → (c.is_read ≡ true)
      × (c.path ≡ some p)
      × ((j : ℕ) × (d : StaleCandidate) × (i < j) × (get_elem? cs j ≡ some d) × Supersedes c p d)
compute_stale_reasons-superseded cs i c p h k = superseded_path-later cs i c p h (
    subst (λ rs. get_elem? rs i ≡ some (some (superseded_path p)))
      (compute_stale_reasons-stale_reasons cs) k)
