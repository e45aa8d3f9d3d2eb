-- ===== src/Keepalive/Spawns.antt =====
-- src/oauth_keepalive.rs: when the loop runs claude, and how often it warns.
use mur_model_gateway.Common.{
  ◌≡◌, ap, refl, sym, subst, ◌∙◌, Bool, true, false, not, ◌&&◌, ◌||◌, List, [], ◌∷◌, ◌++◌, none,
  some, if◌then◌else◌, Bool-cases, inl, inr, All, arith,
}
use mur_model_gateway.Common.Integer.{ℤ, ltb_ℤ, leb_ℤ, add_i64, sub_i64}
use mur_model_gateway.Keepalive.{
  Loop, Tick, Event, relogin_warning, spawned, tick, run, run_claude, refresh_due, needs_relogin,
  equal_expiry,
}

-- A run of claude: outside the backoff, for a credential that is due and that a login need not repair.
abbrev pub IsDue : ℤ → Tick → Type 0
IsDue backoff t =
    (ltb_ℤ t.at backoff ≡ false)
    × (refresh_due t.before t.due_at ≡ true)
    × (needs_relogin t.before ≡ false)

-- After the run the stored expiry is another one, and not within two minutes or past.
unfoldable pub moved_on : Tick → Bool
moved_on t = elim t.after [
  | none ↦ not (equal_expiry none t.before)
  | some e ↦ not (equal_expiry (some e) t.before) && not (leb_ℤ (sub_i64 e 120000) t.after_at)
]

-- The backoff in force after a run: half an hour from it, unless the expiry has moved on.
abbrev pub backoff_after : ℤ → Tick → ℤ
backoff_after backoff t = if moved_on t then backoff else add_i64 t.failed_at 1800000

-- Every run of claude among these events is due, each in the backoff that the runs before it leave.
abbrev pub AllDue : ℤ → List Event → Type 0
AllDue backoff [] = Unit
AllDue backoff (relogin_warning ∷ events) = AllDue backoff events
AllDue backoff (spawned p ∷ events) = IsDue backoff p × AllDue (backoff_after backoff p) events

moved_on-run_claude :
    (t : Tick)
    → (not (equal_expiry t.after t.before) && not (refresh_due t.after t.after_at)) ≡ moved_on t
unfolding refresh_due moved_on
moved_on-run_claude t =
    elim t.after
      as (λ o. (not (equal_expiry o t.before) && not (refresh_due o t.after_at)) ≡ (elim o [
        | none ↦ not (equal_expiry none t.before)
        | some e ↦ not (equal_expiry (some e) t.before) && not (leb_ℤ (sub_i64 e 120000) t.after_at)
      ])) [ none ↦ and_true (not (equal_expiry none t.before)) | some e ↦ refl ]
  where
    and_true : (b : Bool) → (b && true) ≡ b
    and_true true = refl
    and_true false = refl

-- The state after a run of claude.
abbrev ran : Loop → Tick → Loop
ran s t = (run_claude (record s { relogin_warned = false }) t).0

backoff_of_if :
    (b : Bool) (x y : Loop) (events : List Event)
    → (if◌then◌else◌ {A = Loop × List Event} b (x, events) (y, events)).0.backoff_until_ms
      ≡ (if b then x.backoff_until_ms else y.backoff_until_ms)
backoff_of_if true x y events = refl
backoff_of_if false x y events = refl

events_of_if :
    (b : Bool) (x y : Loop) (events : List Event)
    → (if◌then◌else◌ {A = Loop × List Event} b (x, events) (y, events)).1 ≡ events
events_of_if true x y events = refl
events_of_if false x y events = refl

ran-backoff :
    (s : Loop) (t : Tick) → (ran s t).backoff_until_ms ≡ backoff_after s.backoff_until_ms t
unfolding run_claude
ran-backoff s t =
    backoff_of_if (not (equal_expiry t.after t.before) && not (refresh_due t.after t.after_at)) _ _
      (spawned t ∷ [])
    ∙ ap (λ b. if b then s.backoff_until_ms else add_i64 t.failed_at 1800000)
        (moved_on-run_claude t)

run_claude-events : (s : Loop) (t : Tick) → (run_claude s t).1 ≡ spawned t ∷ []
unfolding run_claude
run_claude-events s t =
    events_of_if (not (equal_expiry t.after t.before) && not (refresh_due t.after t.after_at)) _ _
      (spawned t ∷ [])

run-ran :
    (s : Loop) (t : Tick) (ts : List Tick)
    → needs_relogin t.before ≡ false
    → (ltb_ℤ t.at s.backoff_until_ms || not (refresh_due t.before t.due_at)) ≡ false
    → run s (t ∷ ts) ≡ spawned t ∷ run (ran s t) ts
unfolding run tick
run-ran s t ts live busy =
    rw (live, busy, run, tick)
      (ap (λ events. events ++ run (ran s t) ts)
        (run_claude-events (record s { relogin_warned = false }) t))

-- Claude is run only for a credential that is due and does not need a login. After a run that left the
-- stored expiry as it was, or at a time that is due again, it is not run again before half an hour has
-- passed by the clock, in milliseconds of 64 bits whose sum wraps around.
pub run-AllDue : (s : Loop) (ts : List Tick) → AllDue s.backoff_until_ms (run s ts)
unfolding run tick
run-AllDue s [] = tt
run-AllDue s (t ∷ ts) = elim (Bool-cases (needs_relogin t.before)) [
  | inl dead ↦ elim (Bool-cases s.relogin_warned) [
    | inl w ↦ rw (dead, w, run, tick) (run-AllDue (record s { relogin_warned = true }) ts)
    | inr w ↦ rw (dead, w, run, tick) (run-AllDue (record s { relogin_warned = true }) ts)
  ]
  | inr live ↦
      elim (Bool-cases (ltb_ℤ t.at s.backoff_until_ms || not (refresh_due t.before t.due_at))) [
        | inl idle ↦
            rw (live, idle, run, tick) (run-AllDue (record s { relogin_warned = false }) ts)
        | inr busy ↦ subst (AllDue s.backoff_until_ms) (sym (run-ran s t ts live busy)) (
          (ground arith, ground arith, live),
          subst (λ b. AllDue b (run (ran s t) ts)) (ran-backoff s t) (run-AllDue (ran s t) ts),
        )
      ]
]

abbrev pub NeedsLogin : Tick → Type 0
NeedsLogin t = needs_relogin t.before ≡ true

run-warned :
    (s : Loop) (ts : List Tick) → s.relogin_warned ≡ true → All NeedsLogin ts → run s ts ≡ []
unfolding run tick
run-warned s [] w h = refl
run-warned s (t ∷ ts) w (dead, h) =
    rw (dead, w, run, tick) (run-warned (record s { relogin_warned = true }) ts refl h)

-- As long as the credential needs a login, claude is not run, and the loop warns of it once: at the
-- first tick of that time, or not at all where it had warned before.
pub run-warnings :
    (s : Loop) (t : Tick) (ts : List Tick)
    → All NeedsLogin (t ∷ ts)
    → run s (t ∷ ts) ≡ (if s.relogin_warned then [] else relogin_warning ∷ [])
unfolding run tick
run-warnings s t ts (dead, h) = elim (Bool-cases s.relogin_warned) [
  | inl w ↦ rw (dead, w, run, tick) (run-warned (record s { relogin_warned = true }) ts refl h)
  | inr w ↦
      rw (dead, w, run, tick)
        (ap (λ l. relogin_warning ∷ l) (run-warned (record s { relogin_warned = true }) ts refl h))
]
