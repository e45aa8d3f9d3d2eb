-- ===== src/Translate/Stream/Pieces.antt =====
-- The arguments of the tool calls of a translated stream.
use mur_model_gateway.Common.{
  ℕ, ◌+◌, ◌%◌, ◌^◌, ◌≡◌, refl, ◌∙◌, ap, ap₂, true, List, [], ◌∷◌, ◌++◌, Option, none, some, String,
  ◌>>=◌, arith, if◌then◌else◌, get_or, Bool-cases, inl, inr,
}
use mur_model_gateway.Common.Text.{str_eq}
use mur_model_gateway.Common.Text.Prefix.{str_eq_iff}
use mur_model_gateway.Json.{Value, null, get, find, as_str}
use mur_model_gateway.Translate.Request.{get_array}
use mur_model_gateway.Translate.Stream.{
  SseTranslator, EventKind, text_event, added_event, arguments_event, completed_event, failed_event,
  other_event, event_kind, new, chunk, finish, text_delta, item_added, arguments_delta, failed,
  handle, open_role, push, push_all, translate, index_of, set_index, with_index,
}
use mur_model_gateway.Translate.Stream.Ending.{adds_call}
use mur_model_gateway.Translate.Stream.Observe.{piece, gather, gather-push, gather-rest, rest}

index_of-set_index :
    (id j : String) (n : ℕ) (m : List (String × ℕ))
    → index_of j (set_index id n m) ≡ (if str_eq id j then some n else index_of j m)
unfolding index_of set_index
index_of-set_index id j n [] = refl
index_of-set_index id j n ((i, k) ∷ m) =
    ground (arith, str_eq_iff id j, str_eq_iff i id, str_eq_iff i j, index_of-set_index id j n m)

-- The calls that a stream has added so far, the latest first: their item ids and their numbers.
abbrev pub Calls : Type 0
Calls = List (String × ℕ)

abbrev note : Option String → ℕ → Calls → Calls
note none n calls = calls
note (some id) n calls = (id, n) ∷ calls

abbrev pub calls_after : EventKind → Value → ℕ → Calls → Calls
calls_after added_event d n calls =
    let item = get_or (get d "item") null in
    if adds_call d then note (get item "id" >>= as_str) n calls else calls
calls_after _ d n calls = calls

abbrev pub number_after : EventKind → Value → ℕ → ℕ
number_after added_event d n = if adds_call d then (n + 1) % 2 ^ 64 else n
number_after _ d n = n

abbrev pub with_text : Option ℕ → Option String → List (ℕ × String)
with_text (some n) (some t) = (n, t) ∷ []
with_text _ _ = []

-- The pieces of arguments that an event brings: the empty one that opens a call, and a delta for the
-- latest call of its item, if there is one.
abbrev pub pieces_of : EventKind → Value → ℕ → Calls → List (ℕ × String)
pieces_of added_event d n calls = if adds_call d then (n, "") ∷ [] else []
pieces_of arguments_event d n calls =
    with_text (get d "item_id" >>= as_str >>= λ id. index_of id calls) (get d "delta" >>= as_str)
pieces_of _ d n calls = []

pub pieces : ℕ → Calls → List (String × Value) → List (ℕ × String)
pieces n calls [] = []
pieces n calls ((event, d) ∷ events) =
    let k = event_kind event in
    pieces_of k d n calls ++ pieces (number_after k d n) (calls_after k d n calls) events

-- The map of a translator knows the same calls.
abbrev Knows : SseTranslator → ℕ → Calls → Type 0
Knows s n calls =
    (s.next_index ≡ n) × ((id : String) → index_of id s.item_index ≡ index_of id calls)

arguments_delta-piece :
    (s : SseTranslator) (i : Option ℕ) (t : Option String)
    → (gather piece (arguments_delta s i t).1 ≡ with_text i t) × ((arguments_delta s i t).0 ≡ s)
unfolding arguments_delta piece chunk get get_array find
arguments_delta-piece s (some i) (some t) = (refl, refl)
arguments_delta-piece s (some i) none = (refl, refl)
arguments_delta-piece s none t = (refl, refl)

looked_up :
    (s : SseTranslator) (n : ℕ) (calls : Calls) (o : Option String)
    → Knows s n calls
    → (o >>= λ id. index_of id s.item_index) ≡ (o >>= λ id. index_of id calls)
looked_up s n calls none h = refl
looked_up s n calls (some id) h = h.1 id

handle-piece :
    (s : SseTranslator) (k : EventKind) (d : Value) (n : ℕ) (calls : Calls)
    → Knows s n calls
    → gather piece (handle s k d).1 ≡ pieces_of k d n calls
unfolding handle piece chunk get get_array find
handle-piece s text_event d n calls h = ground arith
handle-piece s added_event d n calls h = ground arith
handle-piece s arguments_event d n calls h =
    (arguments_delta-piece s (get d "item_id" >>= as_str >>= λ id. index_of id s.item_index)
      (get d "delta" >>= as_str)).0
    ∙ ap (λ i. with_text i (get d "delta" >>= as_str))
        (looked_up s n calls (get d "item_id" >>= as_str) h)
handle-piece s completed_event d n calls h = ground arith
handle-piece s failed_event d n calls h = ground arith
handle-piece s other_event d n calls h = ground arith

text_delta-state : (s : SseTranslator) (o : Option String) → (text_delta s o).0 ≡ s
unfolding text_delta
text_delta-state s none = refl
text_delta-state s (some t) = refl

finish-Knows :
    (s : SseTranslator) (n : ℕ) (calls : Calls) → Knows s n calls → Knows (finish s).0 n calls
unfolding finish
finish-Knows s n calls h = elim (Bool-cases s.finished) [
  | inl e ↦ rw (e, finish) h
  | inr e ↦ rw (e, finish) h
]

with_index-Knows :
    (s : SseTranslator) (n k : ℕ) (calls : Calls) (o : Option String)
    → Knows s n calls
    → Knows (with_index o k s) n (note o k calls)
unfolding index_of
with_index-Knows s n k calls none h = h
with_index-Knows s n k calls (some id) h =
    (h.0, λ j. rw (index_of-set_index id j k s.item_index, h.1 j))

item_added-Knows :
    (s : SseTranslator) (d : Value) (n : ℕ) (calls : Calls)
    → Knows s n calls
    → Knows
        (item_added s (get_or (get d "item") null)).0
        (number_after added_event d n)
        (calls_after added_event d n calls)
unfolding item_added
item_added-Knows s d n calls h = elim (Bool-cases (adds_call d)) [
  | inl e ↦
      rw (e, item_added, h.0)
        (with_index-Knows (record s { saw_tool_call = true; next_index = (n + 1) % 2 ^ 64 })
          ((n + 1) % 2 ^ 64) n calls (get (get_or (get d "item") null) "id" >>= as_str) (refl, h.1))
  | inr e ↦ rw (e, item_added) h
]

handle-Knows :
    (s : SseTranslator) (k : EventKind) (d : Value) (n : ℕ) (calls : Calls)
    → Knows s n calls
    → Knows (handle s k d).0 (number_after k d n) (calls_after k d n calls)
unfolding handle
handle-Knows s text_event d n calls h = rw (text_delta-state s (get d "delta" >>= as_str)) h
handle-Knows s added_event d n calls h = item_added-Knows s d n calls h
handle-Knows s arguments_event d n calls h =
    rw
      (arguments_delta-piece s (get d "item_id" >>= as_str >>= λ id. index_of id s.item_index)
        (get d "delta" >>= as_str)).1
      h
handle-Knows s completed_event d n calls h = finish-Knows s n calls h
handle-Knows s failed_event d n calls h = unfold failed in h
handle-Knows s other_event d n calls h = h

open_role-piece :
    (s : SseTranslator) (n : ℕ) (calls : Calls)
    → Knows s n calls
    → (gather piece (open_role s).1 ≡ []) × Knows (open_role s).0 n calls
unfolding open_role piece chunk get get_array find
open_role-piece s n calls h = elim (Bool-cases s.role_sent) [
  | inl e ↦ rw (e, open_role) (refl, h)
  | inr e ↦ rw (e, open_role) (refl, h)
]

finish-piece : (s : SseTranslator) → gather piece (finish s).1 ≡ []
unfolding finish piece chunk get get_array find
finish-piece s = ground arith

rest-piece :
    (s : SseTranslator) (n : ℕ) (calls : Calls) (events : List (String × Value))
    → Knows s n calls
    → gather piece (rest s events) ≡ pieces n calls events
rest-piece s n calls [] h = unfold push_all pieces in finish-piece s
rest-piece s n calls ((event, d) ∷ events) h =
    let k = event_kind event in
    let (a, knows) = open_role-piece s n calls h in
    let later : Knows (push s event d).0 (number_after k d n) (calls_after k d n calls) =
      unfold push in handle-Knows (open_role s).0 k d n calls knows in
    gather-rest piece s event d events
    ∙ ap₂ ◌++◌
        (gather-push piece s event d ∙ ap₂ ◌++◌ a (handle-piece (open_role s).0 k d n calls knows))
        (rest-piece (push s event d).0 (number_after k d n) (calls_after k d n calls) events later)
    ∙ unfold pieces in refl

-- The pieces of arguments in a translated stream are those of its events, in order, each under the
-- number of its call: an added call brings an empty piece, a delta goes to the call that was added last
-- under its item id, and one whose item no call has is dropped.
pub translate-piece :
    (model : String) (events : List (String × Value))
    → gather piece (translate model events) ≡ pieces 0 [] events
unfolding translate new index_of
translate-piece model events = rest-piece (new model) 0 [] events (refl, λ id. refl)
