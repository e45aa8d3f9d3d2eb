-- ===== src/Translate/Response/Aggregate.antt =====
-- What a stream of frames leaves in the aggregator.
use mur_model_gateway.Common.{
  ◌≡◌, refl, ◌∙◌, sym, ap, List, [], ◌∷◌, ◌++◌, append_assoc, append-nil, Option, none, some,
  String, arith, if◌then◌else◌, get_or,
}
use mur_model_gateway.Json.{Value, null, get, find}
use mur_model_gateway.Json.Laws.{elems-items}
use mur_model_gateway.Translate.Request.{says, get_array, get_cloned}
use mur_model_gateway.Translate.Response.{
  ResponseAggregator, new, push, push_all, finish, take_response, take_item,
}

abbrev items_of : Option Value → List Value
items_of none = []
items_of (some v) = v ∷ []

-- The items that the frames of a stream report as done.
abbrev pub done_items : List (String × Value) → List Value
done_items [] = []
done_items ((event, d) ∷ frames) =
    (if says d "type" "response.output_item.done" then items_of (get d "item") else [])
    ++ done_items frames

-- The last response object that a frame carries, and else the one before them.
abbrev pub last_response : Value → List (String × Value) → Value
last_response v [] = v
last_response v ((event, d) ∷ frames) = last_response (get_or (get d "response") v) frames

push-output :
    (a : ResponseAggregator) (event : String) (d : Value)
    → (push a event d).output
      ≡ a.output
        ++ (if says d "type" "response.output_item.done" then items_of (get d "item") else [])
unfolding push take_response take_item
push-output a event d = ground (arith, append-nil a.output)

push-response :
    (a : ResponseAggregator) (event : String) (d : Value)
    → (push a event d).response ≡ get_or (get d "response") a.response
unfolding push take_response take_item
push-response a event d = ground arith

push_all-output :
    (a : ResponseAggregator) (frames : List (String × Value))
    → (push_all a frames).output ≡ a.output ++ done_items frames
unfolding push_all
push_all-output a [] = sym (append-nil a.output)
push_all-output a ((event, d) ∷ frames) =
    push_all-output (push a event d) frames
    ∙ ap (λ o. o ++ done_items frames) (push-output a event d)
    ∙ append_assoc a.output _ (done_items frames)

push_all-response :
    (a : ResponseAggregator) (frames : List (String × Value))
    → (push_all a frames).response ≡ last_response a.response frames
unfolding push_all
push_all-response a [] = refl
push_all-response a ((event, d) ∷ frames) =
    push_all-response (push a event d) frames
    ∙ ap (λ v. last_response v frames) (push-response a event d)

finish-output : (a : ResponseAggregator) → get_array (finish a) "output" ≡ a.output
unfolding finish get_array get find
finish-output a = elems-items a.output

-- The rebuilt response lists the items that the stream reported as done, all of them and in their
-- order, and takes id, status, model, usage and the details of a cut from the last response object of the
-- stream, as null where that lacks them.
pub finish-push_all :
    (frames : List (String × Value))
    → let r = finish (push_all new frames) in
      let last = last_response null frames in
      (get_array r "output" ≡ done_items frames)
      × (get r "id" ≡ some (get_cloned last "id" null))
      × (get r "created_at" ≡ some (get_cloned last "created_at" null))
      × (get r "status" ≡ some (get_cloned last "status" null))
      × (get r "model" ≡ some (get_cloned last "model" null))
      × (get r "usage" ≡ some (get_cloned last "usage" null))
      × (get r "incomplete_details" ≡ some (get_cloned last "incomplete_details" null))
unfolding finish new get find
finish-push_all frames =
    let e = push_all-response new frames in
    (
      finish-output (push_all new frames) ∙ push_all-output new frames,
      ap (λ v. some (get_cloned v "id" null)) e,
      ap (λ v. some (get_cloned v "created_at" null)) e,
      ap (λ v. some (get_cloned v "status" null)) e,
      ap (λ v. some (get_cloned v "model" null)) e,
      ap (λ v. some (get_cloned v "usage" null)) e,
      ap (λ v. some (get_cloned v "incomplete_details" null)) e,
    )
