-- ===== src/Translate/Stream/Indices.antt =====
-- The tool calls of a translated stream: their indices and the pieces of their arguments.
use mur_model_gateway.Common.{
  ℕ, ◌+◌, ◌%◌, ◌^◌, ◌≤◌, ◌≡◌, refl, sym, ◌∙◌, ap, ap₂, List, [], ◌∷◌, ◌++◌, String, arith,
  if◌then◌else◌, get_or, length,
}
use mur_model_gateway.Json.{Value, null, get, find}
use mur_model_gateway.Translate.Request.{get_array, get_cloned}
use mur_model_gateway.Translate.Stream.{
  SseTranslator, EventKind, text_event, added_event, arguments_event, completed_event, failed_event,
  other_event, event_kind, new, chunk, finish, handle, open_role, push, push_all, translate,
}
use mur_model_gateway.Translate.Stream.Ending.{adds_call}
use mur_model_gateway.Translate.Stream.Observe.{opening, gather, gather-push, gather-rest, rest}

-- The call ids of the function calls that the events add.
abbrev pub added_by : EventKind → Value → List Value
added_by added_event d =
    if adds_call d then get_cloned (get_or (get d "item") null) "call_id" null ∷ [] else []
added_by _ d = []

unfoldable pub added_calls : List (String × Value) → List Value
added_calls [] = []
added_calls ((event, d) ∷ events) = added_by (event_kind event) d ++ added_calls events

-- Ids with their numbers, from a first number on.
pub numbered : ℕ → List Value → List (ℕ × Value)
numbered n [] = []
numbered n (id ∷ ids) = (n, id) ∷ numbered (n + 1) ids

abbrev next : ℕ → List Value → ℕ
next n [] = n
next n (id ∷ ids) = (n + 1) % 2 ^ 64

handle-opening :
    (s : SseTranslator) (k : EventKind) (d : Value)
    → (gather opening (handle s k d).1 ≡ numbered s.next_index (added_by k d))
      × ((handle s k d).0.next_index ≡ next s.next_index (added_by k d))
unfolding handle opening chunk get get_array find numbered
handle-opening s text_event d = ground arith
handle-opening s added_event d = ground arith
handle-opening s arguments_event d = ground arith
handle-opening s completed_event d = ground arith
handle-opening s failed_event d = ground arith
handle-opening s other_event d = ground arith

open_role-opening :
    (s : SseTranslator)
    → (gather opening (open_role s).1 ≡ []) × ((open_role s).0.next_index ≡ s.next_index)
unfolding open_role opening chunk get get_array find
open_role-opening s = ground arith

finish-opening : (s : SseTranslator) → gather opening (finish s).1 ≡ []
unfolding finish opening chunk get get_array find
finish-opening s = ground arith

push-opening :
    (s : SseTranslator) (event : String) (d : Value)
    → (gather opening (push s event d).1 ≡ numbered s.next_index (added_by (event_kind event) d))
      × ((push s event d).0.next_index ≡ next s.next_index (added_by (event_kind event) d))
push-opening s event d =
    let (a, b) = open_role-opening s in
    let (c, e) = handle-opening (open_role s).0 (event_kind event) d in
    (
      gather-push opening s event d
          ∙ ap₂ ◌++◌ a (c ∙ ap (λ n. numbered n (added_by (event_kind event) d)) b),
      unfold push in e ∙ ap (λ n. next n (added_by (event_kind event) d)) b,
    )

-- Below 2 ^ 64 calls the counter does not wrap.
numbered-next :
    (n : ℕ) (new_ids ids : List Value)
    → length new_ids ≤ 1
    → n + length (new_ids ++ ids) ≤ 2 ^ 64
    → numbered n (new_ids ++ ids) ≡ numbered n new_ids ++ numbered (next n new_ids) ids
unfolding numbered
numbered-next n [] ids h k = refl
numbered-next n (a ∷ []) [] h k = refl
numbered-next n (a ∷ []) (b ∷ ids) h k = let e : (n + 1) % 2 ^ 64 ≡ n + 1 = omega arith in rw e
numbered-next n (a ∷ b ∷ l) ids h k = absurd (omega arith)

next-fits :
    (n : ℕ) (new_ids ids : List Value)
    → length new_ids ≤ 1
    → n + length (new_ids ++ ids) ≤ 2 ^ 64
    → next n new_ids + length ids ≤ 2 ^ 64
next-fits n [] ids h k = k
next-fits n (a ∷ []) ids h k = omega arith
next-fits n (a ∷ b ∷ l) ids h k = absurd (omega arith)

added_by-length : (k : EventKind) (d : Value) → length (added_by k d) ≤ 1
added_by-length added_event d = ground arith
added_by-length text_event d = omega arith
added_by-length arguments_event d = omega arith
added_by-length completed_event d = omega arith
added_by-length failed_event d = omega arith
added_by-length other_event d = omega arith

rest-opening :
    (s : SseTranslator) (events : List (String × Value))
    → s.next_index + length (added_calls events) ≤ 2 ^ 64
    → gather opening (rest s events) ≡ numbered s.next_index (added_calls events)
rest-opening s [] h = unfold push_all added_calls numbered in finish-opening s
rest-opening s ((event, d) ∷ events) h =
    let new_ids = added_by (event_kind event) d in
    let ids = added_calls events in
    let one = added_by-length (event_kind event) d in
    let total : s.next_index + length (new_ids ++ ids) ≤ 2 ^ 64 = unfold added_calls in h in
    let (a, b) = push-opening s event d in
    let fits : (push s event d).0.next_index + length ids ≤ 2 ^ 64 =
      rw b (next-fits s.next_index new_ids ids one total) in
    gather-rest opening s event d events
    ∙ ap₂ ◌++◌ a (rest-opening (push s event d).0 events fits ∙ ap (λ n. numbered n ids) b)
    ∙ sym (numbered-next s.next_index new_ids ids one total)
    ∙ unfold added_calls in refl

-- In a stream of at most 2 ^ 64 function calls the chunks that open a call carry the indices 0, 1, 2, …
-- and the ids of the calls in the order in which the upstream added them.
pub translate-opening :
    (model : String) (events : List (String × Value))
    → length (added_calls events) ≤ 2 ^ 64
    → gather opening (translate model events) ≡ numbered 0 (added_calls events)
unfolding translate
translate-opening model events h =
    rest-opening (new model) events (unfold new in omega arith) ∙ unfold new in refl
