-- ===== src/Keychain/Callers.antt =====
-- src/keychain.rs, `cached` under several callers: their steps on the slot and the refresh lock.
use mur_model_gateway.Common.{
  ℕ, suc, ltb, ◌-◌, ◌≡◌, refl, sym, subst, Bool, true, false, Option, none, some, if◌then◌else◌,
  arith, Bool-cases, inl, inr,
}
use mur_model_gateway.Common.Integer.{ℤ}
use mur_model_gateway.Credentials.{Read}
use mur_model_gateway.Keychain.{
  Entry, Outcome, served, fetches, waits, first_look, after_wait, stored,
}

-- The slot, the refresh lock, and how many callers read the keychain and wait for the lock.
pub record Callers : Type 0 where
  pub slot : Option Entry
  pub locked : Bool
  pub fetching : ℕ
  pub waiting : ℕ

abbrev pub idle : Callers
idle = record { slot = none; locked = false; fetching = 0; waiting = 0 }

-- What a caller does with an outcome: it goes with what it is served, reads the keychain, or waits. A
-- caller that reads holds the lock, if no other does.
abbrev pub entered : Outcome → Callers → Callers
entered (served r) c = c
entered fetches c = record c { locked = true; fetching = suc c.fetching }
entered waits c = record c { waiting = suc c.waiting }

pub data Step : Callers → Callers → Type 0 where
  -- a caller looks at a snapshot of the slot, which another may have replaced by the time it tries the
  -- lock, and does what the look says
  look :
      (c : Callers) (snapshot : Option Entry) (now later : ℕ)
      → Step c (entered (first_look snapshot now c.locked later) c)
  -- `lock` gives the free lock to one that waits, and it does what its second look says
  wake :
      (c : Callers) (n now : ℕ)
      → c.waiting ≡ suc n
      → c.locked ≡ false
      → Step c (entered (after_wait c.slot now) (record c { waiting = n }))
  -- the read ends, its result is stored, and the lock is free again
  finish :
      (c : Callers) (n now : ℕ) (wall : ℤ) (res : Read)
      → c.fetching ≡ suc n
      → Step c (record c { slot = some (stored res now wall); locked = false; fetching = n })
  -- `invalidate_cache`
  invalidate : (c : Callers) → Step c (record c { slot = none })

pub data Reach : Callers → Type 0 where
  initial : Reach idle
  then_step : (c d : Callers) → Reach c → Step c d → Reach d

IsExclusive : Callers → Type 0
IsExclusive c = c.fetching ≡ (if c.locked then 1 else 0)

-- A look that finds the lock taken does not read the keychain.
first_look-busy :
    (snapshot : Option Entry) (now later : ℕ) (c : Callers)
    → IsExclusive c
    → c.locked ≡ true
    → IsExclusive (entered (first_look snapshot now true later) c)
unfolding first_look IsExclusive
first_look-busy none now later c e k = e
first_look-busy (some x) now later c e k =
    elim (Bool-cases (ltb (now - x.at) x.freshness.refresh_after)) [
      | inl fresh ↦ rw (fresh) e
      | inr stale ↦ elim (Bool-cases (ltb (later - x.at) x.freshness.usable_for)) [
        | inl usable ↦ rw (stale, usable) e
        | inr past ↦ rw (stale, past) e
      ]
    ]

entered-IsExclusive :
    (o : Outcome) (c : Callers) → IsExclusive c → c.locked ≡ false → IsExclusive (entered o c)
unfolding IsExclusive
entered-IsExclusive (served r) c e free = e
entered-IsExclusive fetches c e free = ground arith
entered-IsExclusive waits c e free = e

waiting-IsExclusive : (c : Callers) (n : ℕ) → IsExclusive c → IsExclusive (record c { waiting = n })
unfolding IsExclusive
waiting-IsExclusive c n e = e

finish-IsExclusive :
    (c : Callers) (n now : ℕ) (wall : ℤ) (res : Read)
    → c.fetching ≡ suc n
    → IsExclusive c
    → IsExclusive (record c { slot = some (stored res now wall); locked = false; fetching = n })
unfolding IsExclusive
finish-IsExclusive c n now wall res f e = elim (Bool-cases c.locked) [
  | inl k ↦ ground arith
  | inr k ↦ ground arith
]

Step-IsExclusive : (c d : Callers) → Step c d → IsExclusive c → IsExclusive d
Step-IsExclusive c d (look _ snapshot now later) e = elim (Bool-cases c.locked) [
  | inl k ↦
      subst (λ b. IsExclusive (entered (first_look snapshot now b later) c)) (sym k)
        (first_look-busy snapshot now later c e k)
  | inr k ↦ entered-IsExclusive (first_look snapshot now c.locked later) c e k
]
Step-IsExclusive c d (wake _ n now w free) e =
    entered-IsExclusive (after_wait c.slot now) (record c { waiting = n })
      (waiting-IsExclusive c n e) free
Step-IsExclusive c d (finish _ n now wall res f) e = finish-IsExclusive c n now wall res f e
Step-IsExclusive c d (invalidate _) e = unfold IsExclusive in e

Reach-IsExclusive : (c : Callers) → Reach c → IsExclusive c
unfolding IsExclusive
Reach-IsExclusive _ initial = refl
Reach-IsExclusive _ (then_step c d r st) = Step-IsExclusive c d st (Reach-IsExclusive c r)

-- However the calls interleave, and whenever the cache is invalidated, one caller reads the keychain
-- while the refresh lock is held, and none while it is free: two never read it at once.
pub Reach-single_flight : (c : Callers) → Reach c → c.fetching ≡ (if c.locked then 1 else 0)
unfolding IsExclusive
Reach-single_flight c r = Reach-IsExclusive c r
