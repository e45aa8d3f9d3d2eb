-- ===== src/Refresh/Flight.antt =====
-- `refreshed_access_token` over a sequence of calls: its lock makes them one after the other.
use mur_model_gateway.Common.{
  ℕ, ◌≡◌, ◌≤◌, ◌-◌, refl, sym, Bool, true, false, if◌then◌else◌, is_some, List, [], ◌∷◌, Option,
  none, some, String, ltb, ◌>>=◌, Bool-cases, Option-cases, inl, inr, arith,
}
use mathlib.Core.Option.{none-ne-some}
use mur_model_gateway.Credentials.{CodexAuth}
use mur_model_gateway.Keychain.{cache_ttl}
use mur_model_gateway.Refresh.{RefreshedTokens, Memo, memoised, redeem, refreshed_access_token}

-- One call: when, what auth.json holds then, and what a grant would answer.
pub record Call : Type 0 where
  pub now : ℕ
  pub auth : Option CodexAuth
  pub grant : String → Option RefreshedTokens

-- What a call does: its answer, the memo after it, and the refresh token that it gives to the grant.
abbrev pub called : Memo → Call → Option String × Memo × Option String
called memo c = refreshed_access_token memo c.now c.auth c.grant

-- The call's moment, where the grant was called, and whether that gave a new pair.
abbrev noted : Call → Option String → List (ℕ × Bool) → List (ℕ × Bool)
noted c none rest = rest
noted c (some rt) rest = (c.now, is_some (c.grant rt)) ∷ rest

-- The moments at which the grant is called.
unfoldable pub asks : Memo → List Call → List (ℕ × Bool)
unfolding refreshed_access_token
asks memo [] = []
asks memo (c ∷ calls) = let (token, next, asked) = called memo c in noted c asked (asks next calls)

-- Each call of the grant, whatever it gives, comes a minute at least after the last one before it that
-- gave a new pair; the first is held against the moment given.
abbrev pub Spaced : Option ℕ → List (ℕ × Bool) → Type 0
Spaced last [] = Unit
Spaced none ((t, gave) ∷ ts) = Spaced (if gave then some t else none) ts
Spaced (some s) ((t, gave) ∷ ts) = (60000 ≤ t - s) × Spaced (some (if gave then t else s)) ts

abbrev pub since : Memo → Option ℕ
since none = none
since (some (at, token)) = some at

apart : (s t : ℕ) (token : String) → memoised (some (s, token)) t ≡ none → 60000 ≤ t - s
apart s t token h = elim (Bool-cases (ltb (t - s) cache_ttl)) [
  | inl e ↦ absurd (none-ne-some token (sym (rw (e) at h)))
  | inr e ↦ at_least e
]
  where
    at_least : ltb (t - s) 60000 ≡ false → 60000 ≤ t - s
    at_least h = ground arith

Spaced-gave :
    (memo : Memo) (now : ℕ) (ts : List (ℕ × Bool))
    → memoised memo now ≡ none
    → Spaced (some now) ts
    → Spaced (since memo) ((now, true) ∷ ts)
Spaced-gave none now ts h k = k
Spaced-gave (some (at, token)) now ts h k = (apart at now token h, k)

Spaced-failed :
    (memo : Memo) (now : ℕ) (ts : List (ℕ × Bool))
    → memoised memo now ≡ none
    → Spaced (since memo) ts
    → Spaced (since memo) ((now, false) ∷ ts)
Spaced-failed none now ts h k = k
Spaced-failed (some (at, token)) now ts h k = (apart at now token h, k)

called-memoised :
    (memo : Memo) (c : Call) (token : String)
    → memoised memo c.now ≡ some token
    → called memo c ≡ (some token, memo, none)
unfolding refreshed_access_token
called-memoised memo c token e = rw (e, refreshed_access_token) refl

called-redeems :
    (memo : Memo) (c : Call) (o : Option String)
    → memoised memo c.now ≡ none
    → (c.auth >>= λ a. a.refresh_token) ≡ o
    → called memo c ≡ redeem memo c.now c.grant o
unfolding refreshed_access_token
called-redeems memo c o e k = rw (e, k, refreshed_access_token) refl

-- However many calls a burst of rejections makes, the grant is called, whether it then fails or not, a
-- minute at least after the last call of it that gave a new pair: never while the token that the call
-- gave is in the memo.
pub asks-Spaced : (memo : Memo) (calls : List Call) → Spaced (since memo) (asks memo calls)
unfolding asks
asks-Spaced memo [] = tt
asks-Spaced memo (c ∷ calls) = elim (Option-cases (memoised memo c.now)) [
  | inr (token, e) ↦ rw (called-memoised memo c token e, asks) (asks-Spaced memo calls)
  | inl e ↦ elim (Option-cases (c.auth >>= λ a. a.refresh_token)) [
    | inl k ↦ rw (called-redeems memo c none e k, asks) (asks-Spaced memo calls)
    | inr (rt, k) ↦ elim (Option-cases (c.grant rt)) [
      | inl g ↦
          rw (called-redeems memo c (some rt) e k, g, asks)
            (rw (g) (Spaced-failed memo c.now _ e (asks-Spaced memo calls)))
      | inr (new, g) ↦
          rw (called-redeems memo c (some rt) e k, g, asks)
            (rw (g)
              (Spaced-gave memo c.now _ e (asks-Spaced (some (c.now, new.access_token)) calls)))
    ]
  ]
]
