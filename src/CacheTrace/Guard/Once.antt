-- ===== src/CacheTrace/Guard/Once.antt =====
-- The guard of src/cache_trace.rs settles and writes once, whatever is called.
use mur_model_gateway.Common.{
  ◌≡◌, refl, sym, ap, ◌∙◌, ℕ, Bool, true, false, not, List, [], ◌∷◌, ◌++◌, Option, none, some, ◌⊎◌,
  subst, if◌then◌else◌, Bool-cases, inl, inr,
}
use mur_model_gateway.Usage.{UpstreamUsage}
use mur_model_gateway.CacheTrace.Guard.{
  InflightGuard, Event, settled, wrote, finish, is_success, set_status, complete, Call, on_status,
  begun, abandon, completed, call, drop, life, line,
}

-- the outcomes with which the tables are settled
abbrev pub outcomes : List Event → List Bool
outcomes [] = []
outcomes (settled b ∷ es) = b ∷ outcomes es
outcomes (wrote u l ∷ es) = outcomes es

-- the usages of the lines that are written
abbrev pub usages : List Event → List (Option UpstreamUsage)
usages [] = []
usages (settled b ∷ es) = usages es
usages (wrote u l ∷ es) = u ∷ usages es

-- What the calls say of the answer's start: the first that decides does, and a guard that is dropped
-- without one has seen no start. A status decides unless it is that of a stream that succeeds.
abbrev pub start_seen : List Call → Bool
start_seen [] = false
start_seen (on_status s streaming ∷ cs) =
    if not (is_success s) then false else if not streaming then true else start_seen cs
start_seen (begun ∷ cs) = true
start_seen (abandon ∷ cs) = false
start_seen (completed u ∷ cs) = start_seen cs

-- the usage that the first completion brings
abbrev pub first_usage : List Call → Option UpstreamUsage
first_usage [] = none
first_usage (on_status s streaming ∷ cs) = first_usage cs
first_usage (begun ∷ cs) = first_usage cs
first_usage (abandon ∷ cs) = first_usage cs
first_usage (completed u ∷ cs) = u

abbrev if_open : {A : Type 0} → Bool → A → List A
if_open true a = []
if_open false a = a ∷ []

-- What is settled and written from a guard on: nothing that the guard has done already.
abbrev Done : InflightGuard → Bool → Option UpstreamUsage → List Event → Type 0
Done g success usage es =
    (outcomes es ≡ if_open g.started success) × (usages es ≡ if_open g.emitted usage)

-- A conditional is one of its branches.
if-cases :
    {A : Type 0} (b : Bool) (x y : A)
    → ((b ≡ true) × ((if b then x else y) ≡ x)) ⊎ ((b ≡ false) × ((if b then x else y) ≡ y))
if-cases true x y = inl (refl, refl)
if-cases false x y = inr (refl, refl)

-- a guard and the events in front of what it does next
abbrev events_before : InflightGuard × List Event → (InflightGuard → List Event) → List Event
events_before p rest = p.1 ++ rest p.0

finish-Done :
    (b x : Bool) (u : Option UpstreamUsage) (g : InflightGuard) (rest : InflightGuard → List Event)
    → ((h : InflightGuard) → Done h x u (rest h))
    → Done g b u (events_before (finish b g) rest)
unfolding finish
finish-Done b x u g rest later =
    elim (if-cases {A = InflightGuard × List Event} g.started (g, [])
      (record g { started = true }, settled b ∷ [])) [
        | inl (e, same) ↦
            let (o, v) = later g in
            subst (λ p. Done g b u (events_before p rest)) (sym same)
              (o ∙ ap (λ s. if_open s x) e ∙ sym (ap (λ s. if_open s b) e), v)
        | inr (e, same) ↦
            let (o, v) = later (record g { started = true }) in
            subst (λ p. Done g b u (events_before p rest)) (sym same)
              (ap (◌∷◌ b) o ∙ sym (ap (λ s. if_open s b) e), v)
      ]

complete-Done :
    (x : Bool) (w u : Option UpstreamUsage) (g : InflightGuard) (rest : InflightGuard → List Event)
    → ((h : InflightGuard) → Done h x u (rest h))
    → Done g x w (events_before (complete w g) rest)
unfolding complete
complete-Done x w u g rest later =
    elim (if-cases {A = InflightGuard × List Event} g.emitted (g, [])
      (record g { emitted = true }, wrote w (line g w) ∷ [])) [
        | inl (e, same) ↦
            let (o, v) = later g in
            subst (λ p. Done g x w (events_before p rest)) (sym same)
              (o, v ∙ ap (λ s. if_open s u) e ∙ sym (ap (λ s. if_open s w) e))
        | inr (e, same) ↦
            let (o, v) = later (record g { emitted = true }) in
            subst (λ p. Done g x w (events_before p rest)) (sym same)
              (o, ap (◌∷◌ w) v ∙ sym (ap (λ s. if_open s w) e))
      ]

drop-Done : (g : InflightGuard) → Done g false none (drop g).1
unfolding drop finish complete
drop-Done g = elim (Bool-cases g.started) [
  | inl e ↦ elim (Bool-cases g.emitted) [
    | inl d ↦ rw (e, d) (refl, refl)
    | inr d ↦ rw (e, d) (refl, refl)
  ]
  | inr e ↦ elim (Bool-cases g.emitted) [
    | inl d ↦ rw (e, d) (refl, refl)
    | inr d ↦ rw (e, d) (refl, refl)
  ]
]

set_status-Done :
    (s : ℕ) (streaming x : Bool) (u : Option UpstreamUsage) (g : InflightGuard)
    (rest : InflightGuard → List Event)
    → ((h : InflightGuard) → Done h x u (rest h))
    → Done g
        (if not (is_success s) then false else if not streaming then true else x)
        u
        (events_before (set_status s streaming g) rest)
unfolding set_status
set_status-Done s streaming x u g rest later =
    let next = record g { status = some s; streaming = streaming } in
    elim (Bool-cases (is_success s)) [
      | inr e ↦ rw (e) (finish-Done false x u next rest later)
      | inl e ↦ elim (Bool-cases streaming) [
        | inr d ↦
            rw (e, d)
              (finish-Done true x u (record g { status = some s; streaming = false }) rest later)
        | inl d ↦ rw (e, d) (later (record g { status = some s; streaming = true }))
      ]
    ]

life-Done :
    (cs : List Call) (g : InflightGuard) → Done g (start_seen cs) (first_usage cs) (life cs g)
unfolding life call
life-Done [] g = drop-Done g
life-Done (on_status s streaming ∷ cs) g =
    set_status-Done s streaming (start_seen cs) (first_usage cs) g (life cs) (life-Done cs)
life-Done (begun ∷ cs) g =
    finish-Done true (start_seen cs) (first_usage cs) g (life cs) (life-Done cs)
life-Done (abandon ∷ cs) g =
    finish-Done false (start_seen cs) (first_usage cs) g (life cs) (life-Done cs)
life-Done (completed u ∷ cs) g =
    complete-Done (start_seen cs) u (first_usage cs) g (life cs) (life-Done cs)

-- A guard as `on_send` makes it settles the tables exactly once and writes exactly one line, whatever
-- is called before it is dropped: it settles with the outcome that the first call that decides brings,
-- or as a start that was not seen, and its line has the usage of the first completion, if there is one.
pub life-once :
    (cs : List Call) (g : InflightGuard)
    → g.started ≡ false
    → g.emitted ≡ false
    → (outcomes (life cs g) ≡ start_seen cs ∷ []) × (usages (life cs g) ≡ first_usage cs ∷ [])
life-once cs g s e =
    let (o, v) = life-Done cs g in
    (o ∙ ap (λ b. if_open b (start_seen cs)) s, v ∙ ap (λ b. if_open b (first_usage cs)) e)
