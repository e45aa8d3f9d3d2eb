-- ===== src/CacheTrace/Send/Life.antt =====
-- The line of one request, from `on_send` of src/cache_trace.rs to the drop of its guard.
use mur_model_gateway.Common.{
  ◌≡◌, refl, ℕ, Bool, false, List, [], ◌∷◌, Option, none, some, String, subst,
}
use mathlib.Core.Option.{none-ne-some, some-injective}
use mur_model_gateway.CacheTrace.{Analysis}
use mur_model_gateway.CacheTrace.Guard.{InflightGuard, Call, life}
use mur_model_gateway.CacheTrace.Guard.Once.{outcomes, usages, start_seen, first_usage, life-once}
use mur_model_gateway.CacheTrace.Table.{Lru}
use mur_model_gateway.CacheTrace.Send.{Slots, Tables, send_if, on_send}

module _ {P T : Type 0} (slots : Slots P) (lru : Lru T) where
  send_if-fresh :
      (client : String) (compress_on : Bool) (now : ℕ) (o : Option Analysis) (inner : Tables P T)
      (g : InflightGuard)
      → (send_if slots lru client compress_on now o inner).0 ≡ some g
      → (g.started ≡ false) × (g.emitted ≡ false)
  send_if-fresh client compress_on now none inner g h = absurd (none-ne-some g h)
  send_if-fresh client compress_on now (some a) inner g h =
      subst (λ (x : InflightGuard). (x.started ≡ false) × (x.emitted ≡ false))
        (some-injective _ _ h) (refl, refl)

  -- The guard that a send hands back settles the tables exactly once and writes exactly one line,
  -- whatever the handler and the tap call before it is dropped. It settles with the outcome that the
  -- first call that decides brings, and as a start that was not seen where none does; its line has the
  -- usage of the first completion, if there is one.
  pub on_send-once :
      (client : String) (compress_on : Bool) (now : ℕ) (o : Option Analysis) (inner : Tables P T)
      (g : InflightGuard) (calls : List Call)
      → (on_send slots lru client compress_on now o inner).0 ≡ some g
      → (outcomes (life calls g) ≡ start_seen calls ∷ [])
        × (usages (life calls g) ≡ first_usage calls ∷ [])
  unfolding on_send
  on_send-once client compress_on now o inner g calls h =
      let (s, e) = send_if-fresh client compress_on now o inner g h in life-once calls g s e
