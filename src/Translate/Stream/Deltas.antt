-- ===== src/Translate/Stream/Deltas.antt =====
-- The role and the text of a translated stream.
use mur_model_gateway.Common.{
  ◌≡◌, refl, ◌∙◌, ap, ap₂, true, List, [], ◌∷◌, ◌++◌, append-nil, some, String, ◌>>=◌, arith,
  if◌then◌else◌,
}
use mur_model_gateway.Json.{Value, get, find, as_str}
use mur_model_gateway.Translate.Request.{get_array}
use mur_model_gateway.Translate.Stream.{
  SseTranslator, EventKind, text_event, added_event, arguments_event, completed_event, failed_event,
  other_event, event_kind, new, chunk, finish, handle, open_role, push, push_all, translate,
}
use mur_model_gateway.Translate.Stream.Observe.{
  content, role, to_list, gather, gather-push, gather-rest, rest,
}

-- The text that an event brings.
abbrev pub text_of : EventKind → Value → List String
text_of text_event d = to_list (get d "delta" >>= as_str)
text_of _ d = []

pub text_deltas : List (String × Value) → List String
text_deltas [] = []
text_deltas ((event, d) ∷ events) = text_of (event_kind event) d ++ text_deltas events

handle-content :
    (s : SseTranslator) (k : EventKind) (d : Value) → gather content (handle s k d).1 ≡ text_of k d
unfolding handle content chunk get get_array find
handle-content s text_event d = ground arith
handle-content s added_event d = ground arith
handle-content s arguments_event d = ground arith
handle-content s completed_event d = ground arith
handle-content s failed_event d = ground arith
handle-content s other_event d = ground arith

open_role-content : (s : SseTranslator) → gather content (open_role s).1 ≡ []
unfolding open_role content chunk get get_array find
open_role-content s = ground arith

finish-content : (s : SseTranslator) → gather content (finish s).1 ≡ []
unfolding finish content chunk get get_array find
finish-content s = ground arith

rest-content :
    (s : SseTranslator) (events : List (String × Value))
    → gather content (rest s events) ≡ text_deltas events
rest-content s [] = unfold push_all text_deltas in finish-content s
rest-content s ((event, d) ∷ events) =
    gather-rest content s event d events
    ∙ ap₂ ◌++◌
        (gather-push content s event d
          ∙ ap₂ ◌++◌ (open_role-content s) (handle-content (open_role s).0 (event_kind event) d))
        (rest-content (push s event d).0 events)
    ∙ unfold text_deltas in refl

-- A client that reads a translated stream gets every piece of text that the upstream sent, in its
-- order, and nothing else as text.
pub translate-content :
    (model : String) (events : List (String × Value))
    → gather content (translate model events) ≡ text_deltas events
unfolding translate
translate-content model events = rest-content (new model) events

handle-role :
    (s : SseTranslator) (k : EventKind) (d : Value)
    → (gather role (handle s k d).1 ≡ []) × ((handle s k d).0.role_sent ≡ s.role_sent)
unfolding handle role chunk get get_array find
handle-role s text_event d = ground arith
handle-role s added_event d = ground arith
handle-role s arguments_event d = ground arith
handle-role s completed_event d = ground arith
handle-role s failed_event d = ground arith
handle-role s other_event d = ground arith

open_role-role :
    (s : SseTranslator)
    → (gather role (open_role s).1 ≡ (if s.role_sent then [] else "assistant" ∷ []))
      × ((open_role s).0.role_sent ≡ true)
unfolding open_role role chunk get get_array find
open_role-role s = ground arith

finish-role : (s : SseTranslator) → gather role (finish s).1 ≡ []
unfolding finish role chunk get get_array find
finish-role s = ground arith

push-role :
    (s : SseTranslator) (event : String) (d : Value)
    → (gather role (push s event d).1 ≡ (if s.role_sent then [] else "assistant" ∷ []))
      × ((push s event d).0.role_sent ≡ true)
push-role s event d =
    let (a, b) = open_role-role s in
    let (c, e) = handle-role (open_role s).0 (event_kind event) d in
    (gather-push role s event d ∙ ap₂ ◌++◌ a c ∙ append-nil _, unfold push in e ∙ b)

rest-role :
    (s : SseTranslator) (events : List (String × Value))
    → s.role_sent ≡ true
    → gather role (rest s events) ≡ []
rest-role s [] h = unfold push_all in finish-role s
rest-role s ((event, d) ∷ events) h =
    let (a, b) = push-role s event d in
    gather-rest role s event d events
    ∙ ap₂ ◌++◌ (a ∙ ap (λ r. if r then [] else "assistant" ∷ []) h)
        (rest-role (push s event d).0 events b)

abbrev pub StatesAssistant : List Value → Type 0
StatesAssistant [] = ⊥
StatesAssistant (c ∷ cs) = role c ≡ some "assistant"

-- As soon as there is an event the stream opens with a chunk that states the assistant's role, and no
-- later chunk states one.
pub translate-role :
    (model : String) (event : String) (d : Value) (events : List (String × Value))
    → (gather role (translate model ((event, d) ∷ events)) ≡ "assistant" ∷ [])
      × StatesAssistant (translate model ((event, d) ∷ events))
unfolding translate
translate-role model event d events =
    let (a, b) = push-role (new model) event d in
    (
      gather-rest role (new model) event d events
          ∙ ap₂ ◌++◌ a (rest-role (push (new model) event d).0 events b),
      unfold push_all push open_role new role chunk get get_array find in refl,
    )
