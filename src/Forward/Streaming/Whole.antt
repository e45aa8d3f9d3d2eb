-- ===== src/Forward/Streaming/Whole.antt =====
-- The translated stream is the translation of all that the chunks decode to.
use mur_model_gateway.Common.{
  ℕ, ◌≡◌, refl, ap, ◌∙◌, sym, List, [], ◌∷◌, ◌++◌, append_assoc, Option, String, if◌then◌else◌,
  is_empty,
}
use mur_model_gateway.Common.Text.{push_str}
use mur_model_gateway.Common.Text.Prefix.{push_str-nil, push_str_assoc}
use mur_model_gateway.Json.{Value}
use mur_model_gateway.Translate.Frames.{split_sse_frames}
use mur_model_gateway.Translate.Frames.Chunks.{read_chunks, read_chunks-concat, concat}
use mur_model_gateway.Translate.Stream.{SseTranslator, new, push, push_all, translate}
use mur_model_gateway.Forward.Streaming.{
  Pull, chunk, fault, rendered, last_item, body_items, streamed,
}

-- The texts of the chunks that are pulled before a fault or the end, each decoded on its own.
abbrev pub texts : (List ℕ → String) → List Pull → List String
texts lossy [] = []
texts lossy (fault ∷ pulls) = []
texts lossy (chunk bytes ∷ pulls) = lossy bytes ∷ texts lossy pulls

rendered-append :
    (to_string : Value → String) (xs ys : List Value)
    → rendered to_string (xs ++ ys) ≡ push_str (rendered to_string xs) (rendered to_string ys)
unfolding push_str
rendered-append to_string [] ys = refl
rendered-append to_string (x ∷ xs) ys = rw (rendered-append to_string xs ys, push_str_assoc) refl

push_all-append :
    (t : SseTranslator) (xs ys : List (String × Value))
    → push_all t (xs ++ ys)
      ≡ ((push_all (push_all t xs).0 ys).0, (push_all t xs).1 ++ (push_all (push_all t xs).0 ys).1)
unfolding push_all
push_all-append t [] ys = refl
push_all-append t ((event, d) ∷ xs) ys =
    rw (push_all-append (push t event d).0 xs ys, append_assoc) refl

-- What the stream says of the events from a translator on: their chunks, and the last item.
said : (Value → String) → SseTranslator → List (String × Value) → String
said to_string t events =
    push_str (rendered to_string (push_all t events).1) (last_item to_string (push_all t events).0)

said-append :
    (to_string : Value → String) (t : SseTranslator) (xs ys : List (String × Value))
    → said to_string t (xs ++ ys)
      ≡ push_str (rendered to_string (push_all t xs).1) (said to_string (push_all t xs).0 ys)
unfolding said
said-append to_string t xs ys = rw (push_all-append t xs ys, rendered-append, push_str_assoc) refl

said-translate :
    (to_string : Value → String) (model : String) (events : List (String × Value))
    → said to_string (new model) events
      ≡ push_str (rendered to_string (translate model events)) "data: [DONE]\n\n"
unfolding said last_item translate
said-translate to_string model events = rw (rendered-append, push_str_assoc) refl

module _ (lossy : List ℕ → String) (from_str : String → Option Value)
    (to_string : Value → String) where
  rest-said :
      (out : List Value) (rest : List String)
      → concat (if is_empty out then rest else rendered to_string out ∷ rest)
        ≡ push_str (rendered to_string out) (concat rest)
  unfolding push_str
  rest-said [] rest = refl
  rest-said (c ∷ cs) rest = refl

  body_items-said :
      (buf : String) (t : SseTranslator) (pulls : List Pull)
      → concat (body_items lossy from_str to_string buf t pulls)
        ≡ said to_string t (read_chunks from_str buf (texts lossy pulls)).0
  unfolding body_items read_chunks said push_all push_str
  body_items-said buf t [] = push_str-nil (last_item to_string t)
  body_items-said buf t (fault ∷ pulls) = push_str-nil (last_item to_string t)
  body_items-said buf t (chunk bytes ∷ pulls) =
      let frames = (split_sse_frames from_str (push_str buf (lossy bytes))).0 in
      let left = (split_sse_frames from_str (push_str buf (lossy bytes))).1 in
      let t' = (push_all t frames).0 in
      rest-said (push_all t frames).1 (body_items lossy from_str to_string left t' pulls)
      ∙ ap (push_str (rendered to_string (push_all t frames).1)) (body_items-said left t' pulls)
      ∙ sym (said-append to_string t frames (read_chunks from_str left (texts lossy pulls)).0)

  -- What the client reads of a translated stream is the translation of one text, event by event, and
  -- then the closing sentinel, once. The text is that of the chunks before a fault, one after the other,
  -- each decoded on its own, so that a frame may be cut at any place between two decoded texts.
  pub streamed-translate :
      (model : String) (pulls : List Pull)
      → concat (streamed lossy from_str to_string model pulls)
        ≡ push_str
            (rendered to_string
              (translate model (split_sse_frames from_str (concat (texts lossy pulls))).0))
            "data: [DONE]\n\n"
  unfolding streamed
  streamed-translate model pulls =
      let events = (split_sse_frames from_str (concat (texts lossy pulls))).0 in
      body_items-said "" (new model) pulls
      ∙ ap (λ r. said to_string (new model) r.0) (read_chunks-concat from_str (texts lossy pulls))
      ∙ said-translate to_string model events
