-- ===== src/Translate/Frames/Chunks.antt =====
-- The frames of a stream do not depend on how the network cuts it into chunks.
use Prim.Native.Char.{code}
use mur_model_gateway.Common.{
  ◌≡◌, refl, sym, ap, ◌==◌, List, [], ◌∷◌, ◌++◌, Option, String, arith, Bool-cases, inl, inr,
}
use mur_model_gateway.Common.Text.{push_str, without_cr}
use mur_model_gateway.Common.Text.Prefix.{push_str-nil, push_str_assoc}
use mur_model_gateway.Json.{Value}
use mur_model_gateway.Translate.Frames.{size, drain, split_sse_frames}
use mur_model_gateway.Translate.Frames.Drain.{
  NoCr, drain_all, drain-NoCr, drain_all-none, drain_all-push_str, drain-left,
}

without_cr-push_str :
    (a b : String) → without_cr (push_str a b) ≡ push_str (without_cr a) (without_cr b)
unfolding without_cr push_str
without_cr-push_str String.[] b = refl
without_cr-push_str (String.◌∷◌ c a) b = ground (arith, without_cr-push_str a b)

without_cr-NoCr : (a : String) → NoCr (without_cr a)
unfolding without_cr
without_cr-NoCr String.[] = tt
without_cr-NoCr (String.◌∷◌ c a) = elim (Bool-cases (code c == b'\r')) [
  | inl e ↦ rw e (without_cr-NoCr a)
  | inr e ↦ rw e (e, without_cr-NoCr a)
]

without_cr_of_NoCr : (a : String) → NoCr a → without_cr a ≡ a
unfolding without_cr
without_cr_of_NoCr String.[] k = refl
without_cr_of_NoCr (String.◌∷◌ c a) (e, k) = rw e (ap (String.◌∷◌ c) (without_cr_of_NoCr a k))

-- The body of a translated stream as the gateway reads it: each chunk goes behind what is left of the
-- ones before it.
unfoldable pub read_chunks :
    (String → Option Value) → String → List String → List (String × Value) × String
read_chunks from_str buf [] = ([], buf)
read_chunks from_str buf (chunk ∷ chunks) =
    let (frames, left) = split_sse_frames from_str (push_str buf chunk) in
    let (more, end) = read_chunks from_str left chunks in (frames ++ more, end)

abbrev pub concat : List String → String
concat [] = ""
concat (s ∷ ss) = push_str s (concat ss)

module _ (from_str : String → Option Value) where
  -- What a text leaves in the buffer, put in front of a text, adds to its frames as the text did.
  split-push_str :
      (a b : String)
      → split_sse_frames from_str (push_str a b) ≡ (
          let (frames, left) = split_sse_frames from_str a in
          let (more, left') = split_sse_frames from_str (push_str left b) in
          (frames ++ more, left'))
  unfolding split_sse_frames
  split-push_str a b =
      let x = without_cr a in
      let left = (drain_all from_str x).1 in
      let clean : without_cr left ≡ left =
        without_cr_of_NoCr left
          (drain-NoCr from_str (size x) x (omega arith) (without_cr-NoCr a)) in
      rw (without_cr-push_str a b, without_cr-push_str left b, clean)
        (drain_all-push_str from_str (size x) x (without_cr b) (omega arith))

  split-nil : split_sse_frames from_str "" ≡ ([], "")
  unfolding split_sse_frames drain without_cr
  split-nil = refl

  -- What is left in a buffer holds no complete frame.
  abbrev IsSettled : String → Type 0
  IsSettled buf = split_sse_frames from_str buf ≡ ([], buf)

  left-IsSettled : (a : String) → IsSettled (split_sse_frames from_str a).1
  unfolding split_sse_frames
  left-IsSettled a =
      let x = without_cr a in
      let left = (drain_all from_str x).1 in
      let clean : without_cr left ≡ left =
        without_cr_of_NoCr left
          (drain-NoCr from_str (size x) x (omega arith) (without_cr-NoCr a)) in
      rw clean (drain_all-none from_str left (drain-left from_str (size x) x (omega arith)))

  read_chunks_of_IsSettled :
      (buf : String) (chunks : List String)
      → IsSettled buf
      → read_chunks from_str buf chunks ≡ split_sse_frames from_str (push_str buf (concat chunks))
  unfolding read_chunks
  read_chunks_of_IsSettled buf [] h = rw push_str-nil (sym h)
  read_chunks_of_IsSettled buf (c ∷ cs) h =
      let left = (split_sse_frames from_str (push_str buf c)).1 in
      rw (
        read_chunks_of_IsSettled left cs (left-IsSettled (push_str buf c)),
        ← push_str_assoc buf c (concat cs),
        split-push_str (push_str buf c) (concat cs),
      )

  -- However the network cuts a text into chunks, even inside a frame or a blank line, reading it chunk
  -- by chunk yields the frames of the whole text, and leaves the same rest.
  pub read_chunks-concat :
      (chunks : List String)
      → read_chunks from_str "" chunks ≡ split_sse_frames from_str (concat chunks)
  unfolding push_str
  read_chunks-concat chunks = read_chunks_of_IsSettled "" chunks split-nil
