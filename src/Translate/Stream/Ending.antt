-- ===== src/Translate/Stream/Ending.antt =====
-- How a translated stream ends.
use mur_model_gateway.Common.{
  ◌≡◌, refl, ◌∙◌, ap, ap₂, Bool, true, false, ◌||◌, List, [], ◌∷◌, ◌++◌, String, arith, get_or,
}
use mur_model_gateway.Json.{Value, null, get, find}
use mur_model_gateway.Translate.Request.{says, get_array}
use mur_model_gateway.Translate.Stream.{
  SseTranslator, EventKind, text_event, added_event, arguments_event, completed_event, failed_event,
  other_event, event_kind, new, chunk, reason, finish, handle, open_role, push, push_all, translate,
}
use mur_model_gateway.Translate.Stream.Observe.{
  ending, gather, gather-append, gather-push, gather-rest, rest,
}

-- The event adds a tool call to the reply.
abbrev pub adds_call : Value → Bool
adds_call d = says (get_or (get d "item") null) "type" "function_call"

-- The reason that a chunk gives for the end, where a tool call was seen and where none was.
abbrev pub last_reason : Bool → String
last_reason true = "tool_calls"
last_reason false = "stop"

-- How a stream ends, told from its events: at the first one that completes or fails it, or at its end.
-- The flag says whether a tool call was seen before.
abbrev pub endings_at : (EventKind → Value → Bool → List String → List String)
endings_at completed_event d saw later = last_reason saw ∷ []
endings_at failed_event d saw later = []
endings_at _ d saw later = later

abbrev pub saw_next : EventKind → Value → Bool → Bool
saw_next added_event d saw = saw || adds_call d
saw_next _ d saw = saw

pub endings : Bool → List (String × Value) → List String
endings saw [] = last_reason saw ∷ []
endings saw ((event, d) ∷ events) =
    endings_at (event_kind event) d saw (endings (saw_next (event_kind event) d saw) events)

-- What one event does to the end of a reply that has not ended.
abbrev After : EventKind → Value → SseTranslator → SseTranslator × List Value → Type 0
After completed_event d s (t, out) =
    (gather ending out ≡ last_reason s.saw_tool_call ∷ []) × (t.finished ≡ true)
After failed_event d s (t, out) = (gather ending out ≡ []) × (t.finished ≡ true)
After k d s (t, out) =
    (gather ending out ≡ [])
    × (t.finished ≡ false)
    × (t.saw_tool_call ≡ saw_next k d s.saw_tool_call)

open_role-ending : (s : SseTranslator) → gather ending (open_role s).1 ≡ []
unfolding open_role ending chunk get get_array find
open_role-ending s = ground arith

handle-quiet :
    (s : SseTranslator) (k : EventKind) (d : Value)
    → s.finished ≡ true
    → (gather ending (handle s k d).1 ≡ []) × ((handle s k d).0.finished ≡ true)
unfolding handle ending chunk get get_array find
handle-quiet s text_event d h = ground arith
handle-quiet s added_event d h = ground arith
handle-quiet s arguments_event d h = ground arith
handle-quiet s completed_event d h = ground arith
handle-quiet s failed_event d h = ground arith
handle-quiet s other_event d h = ground arith

handle-After :
    (s : SseTranslator) (k : EventKind) (d : Value)
    → s.finished ≡ false
    → After k d s (handle s k d)
unfolding handle ending chunk get get_array find reason
handle-After s text_event d h = ground arith
handle-After s added_event d h = ground arith
handle-After s arguments_event d h = ground arith
handle-After s completed_event d h = ground arith
handle-After s failed_event d h = ground arith
handle-After s other_event d h = ground arith

open_role-keeps :
    (s : SseTranslator)
    → ((open_role s).0.finished ≡ s.finished) × ((open_role s).0.saw_tool_call ≡ s.saw_tool_call)
unfolding open_role
open_role-keeps s = ground arith

push-endings :
    (s : SseTranslator) (event : String) (d : Value)
    → gather ending (push s event d).1
      ≡ gather ending (handle (open_role s).0 (event_kind event) d).1
push-endings s event d = rw (gather-push ending s event d, open_role-ending s)

push-quiet :
    (s : SseTranslator) (event : String) (d : Value)
    → s.finished ≡ true
    → (gather ending (push s event d).1 ≡ []) × ((push s event d).0.finished ≡ true)
unfolding push
push-quiet s event d h =
    let (a, b) = handle-quiet (open_role s).0 (event_kind event) d ((open_role-keeps s).0 ∙ h) in
    (push-endings s event d ∙ a, b)

finish-quiet : (s : SseTranslator) → s.finished ≡ true → gather ending (finish s).1 ≡ []
unfolding finish
finish-quiet s h = ground arith

finish-ending :
    (s : SseTranslator)
    → s.finished ≡ false
    → gather ending (finish s).1 ≡ last_reason s.saw_tool_call ∷ []
unfolding finish ending chunk get get_array find reason
finish-ending s h = ground arith

rest-quiet :
    (s : SseTranslator) (events : List (String × Value))
    → s.finished ≡ true
    → gather ending (rest s events) ≡ []
rest-quiet s [] h = unfold push_all in finish-quiet s h
rest-quiet s ((event, d) ∷ events) h =
    let (a, b) = push-quiet s event d h in
    gather-rest ending s event d events ∙ ap₂ ◌++◌ a (rest-quiet (push s event d).0 events b)

-- An event's own chunks, and then the chunks of the rest.
step-endings :
    (k : EventKind) (d : Value) (s t : SseTranslator) (out : List Value)
    (events : List (String × Value))
    → After k d s (t, out)
    → (t.finished ≡ false → gather ending (rest t events) ≡ endings t.saw_tool_call events)
    → gather ending out ++ gather ending (rest t events)
      ≡ endings_at k d s.saw_tool_call (endings (saw_next k d s.saw_tool_call) events)
step-endings completed_event d s t out events (a, b) ih = ap₂ ◌++◌ a (rest-quiet t events b)
step-endings failed_event d s t out events (a, b) ih = ap₂ ◌++◌ a (rest-quiet t events b)
step-endings text_event d s t out events (a, b, c) ih = rw (← c) (ap₂ ◌++◌ a (ih b))
step-endings added_event d s t out events (a, b, c) ih = rw (← c) (ap₂ ◌++◌ a (ih b))
step-endings arguments_event d s t out events (a, b, c) ih = rw (← c) (ap₂ ◌++◌ a (ih b))
step-endings other_event d s t out events (a, b, c) ih = rw (← c) (ap₂ ◌++◌ a (ih b))

push-step :
    (s : SseTranslator) (event : String) (d : Value) (events : List (String × Value))
    → s.finished ≡ false
    → ((push s event d).0.finished ≡ false
        → gather ending (rest (push s event d).0 events)
          ≡ endings (push s event d).0.saw_tool_call events)
    → gather ending (push s event d).1 ++ gather ending (rest (push s event d).0 events)
      ≡ endings s.saw_tool_call ((event, d) ∷ events)
unfolding push endings
push-step s event d events h ih =
    let s' = (open_role s).0 in
    let k = event_kind event in
    let (f, w) = open_role-keeps s in
    rw (gather-append ending (open_role s).1, open_role-ending s)
      (step-endings k d s' (handle s' k d).0 (handle s' k d).1 events (handle-After s' k d (f ∙ h))
        ih)
    ∙ ap (λ saw. endings_at k d saw (endings (saw_next k d saw) events)) w

rest-endings :
    (s : SseTranslator) (events : List (String × Value))
    → s.finished ≡ false
    → gather ending (rest s events) ≡ endings s.saw_tool_call events
rest-endings s [] h = unfold push_all endings in finish-ending s h
rest-endings s ((event, d) ∷ events) h =
    let t = (push s event d).0 in
    let ih : t.finished ≡ false → gather ending (rest t events) ≡ endings t.saw_tool_call events =
      rest-endings t events in
    gather-rest ending s event d events ∙ push-step s event d events h ih

-- The endings of a translated stream are exactly those that its events call for. An event that completes
-- the reply ends it with one chunk, whose reason is `tool_calls` if a function call was added before and
-- else `stop`, also where the reply was cut off at its limit of tokens; one that fails it ends it with none; a stream that stops without either is ended by one
-- such chunk. Nothing after the first of these ends the reply again.
pub translate-endings :
    (model : String) (events : List (String × Value))
    → gather ending (translate model events) ≡ endings false events
unfolding translate new
translate-endings model events = rest-endings (new model) events refl
