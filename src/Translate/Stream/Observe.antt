-- ===== src/Translate/Stream/Observe.antt =====
-- What a client reads in the chunks of a stream.
use mur_model_gateway.Common.{
  ℕ, ◌≡◌, refl, sym, ◌∙◌, ap, List, [], ◌∷◌, ◌++◌, append_assoc, Option, none, some, String, ◌>>=◌,
}
use mur_model_gateway.Json.{Value, get, as_str, as_u64}
use mur_model_gateway.Translate.Request.{get_array}
use mur_model_gateway.Translate.Stream.{
  SseTranslator, push, push_all, finish, open_role, handle, event_kind,
}

abbrev first : List Value → Option Value
first [] = none
first (v ∷ vs) = some v

abbrev pub to_list {ℓ} : {A : Type ℓ} → Option A → List A
to_list none = []
to_list (some a) = a ∷ []

-- What a fact about single chunks says of a stream of them.
abbrev pub gather {ℓ} : {A : Type ℓ} → (Value → Option A) → List Value → List A
gather f [] = []
gather f (c ∷ cs) = to_list (f c) ++ gather f cs

pub gather-append {ℓ} :
    {A : Type ℓ} (f : Value → Option A) (xs ys : List Value)
    → gather f (xs ++ ys) ≡ gather f xs ++ gather f ys
gather-append f [] ys = refl
gather-append f (x ∷ xs) ys =
    ap (λ l. to_list (f x) ++ l) (gather-append f xs ys)
    ∙ sym (append_assoc (to_list (f x)) (gather f xs) (gather f ys))

-- The rest of a stream: the events that are left, and its end.
abbrev pub rest : SseTranslator → List (String × Value) → List Value
rest s events = (push_all s events).1 ++ (finish (push_all s events).0).1

module _ {ℓ} {A : Type ℓ} (f : Value → Option A) where
  pub gather-push :
      (s : SseTranslator) (event : String) (d : Value)
      → gather f (push s event d).1
        ≡ gather f (open_role s).1 ++ gather f (handle (open_role s).0 (event_kind event) d).1
  unfolding push
  gather-push s event d = gather-append f (open_role s).1 _

  pub gather-rest :
      (s : SseTranslator) (event : String) (d : Value) (events : List (String × Value))
      → gather f (rest s ((event, d) ∷ events))
        ≡ gather f (push s event d).1 ++ gather f (rest (push s event d).0 events)
  unfolding push_all
  gather-rest s event d events =
      rw append_assoc (gather-append f (push s event d).1 (rest (push s event d).0 events))

-- The reason in a chunk that ends the reply.
unfoldable pub ending : Value → Option String
unfolding get get_array
ending c = first (get_array c "choices") >>= λ ch. get ch "finish_reason" >>= as_str

-- The text that a chunk adds to the reply.
unfoldable pub content : Value → Option String
unfolding get get_array
content c =
    first (get_array c "choices") >>= λ ch. get ch "delta" >>= λ d. get d "content" >>= as_str

-- The role that a chunk states.
unfoldable pub role : Value → Option String
unfolding get get_array
role c = first (get_array c "choices") >>= λ ch. get ch "delta" >>= λ d. get d "role" >>= as_str

-- The index and the id of a tool call that a chunk opens.
unfoldable pub opening : Value → Option (ℕ × Value)
unfolding get get_array
opening c = do
  ch ← first (get_array c "choices")
  d ← get ch "delta"
  call ← first (get_array d "tool_calls")
  id ← get call "id"
  index ← get call "index" >>= as_u64
  some (index, id)

-- The index and the text of a piece of a tool call's arguments.
unfoldable pub piece : Value → Option (ℕ × String)
unfolding get get_array
piece c = do
  ch ← first (get_array c "choices")
  d ← get ch "delta"
  call ← first (get_array d "tool_calls")
  f ← get call "function"
  text ← get f "arguments" >>= as_str
  index ← get call "index" >>= as_u64
  some (index, text)
