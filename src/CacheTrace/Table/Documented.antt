-- ===== src/CacheTrace/Table/Documented.antt =====
-- What the documentation of the lru crate says of a table of src/cache_trace.rs, and the pending sends
-- that its entries count.
use mur_model_gateway.Common.{
  ◌≡◌, refl, ℕ, ◌+◌, ◌<◌, Bool, ◌&&◌, List, [], ◌∷◌, ◌++◌, none, some, if◌then◌else◌, ◌==◌, length,
  arith,
}
use mur_model_gateway.Common.Text.{str_eq}
use mur_model_gateway.CacheTrace.Guard.{Key}
use mur_model_gateway.CacheTrace.Table.{Entry, Lru}

unfoldable pub key_eq : Key → Key → Bool
unfolding str_eq
key_eq (a, b, c) (d, e, f) = str_eq a d && (b == e) && (c == f)

abbrev pub Entries : Type 0
Entries = List (Key × Entry)

-- the pending sends of a key
unfoldable pub pending_of : Key → Entries → ℕ
unfolding key_eq
pending_of k [] = 0
pending_of k ((j, e) ∷ es) = (if key_eq k j then e.pending else 0) + pending_of k es

-- What the documentation of the lru crate says of the operations, on the entries of a table, the most
-- recent one in front.
pub record Documented (T : Type 0) (lru : Lru T) (entries : T → Entries) : Type 0 where
  pub len : (t : T) → lru.len t ≡ length (entries t)
  pub least :
      (t : T) (k : Key) (e : Entry)
      → lru.peek_lru t ≡ some (k, e)
      → entries t ≡ entries (lru.pop_lru t) ++ (k, e) ∷ []
  pub nothing : (t : T) → lru.peek_lru t ≡ none → entries t ≡ []
  pub push :
      (t : T) (k : Key) (e : Entry)
      → lru.peek_lru t ≡ some (k, e)
      → entries (lru.push (lru.pop_lru t) k e) ≡ (k, e) ∷ entries (lru.pop_lru t)
  pub put :
      (t : T) (k : Key) (e : Entry)
      → lru.peek t k ≡ none
      → length (entries t) < lru.cap t
      → entries (lru.put t k e) ≡ (k, e) ∷ entries t
  pub set :
      (t : T) (k : Key) (e f : Entry)
      → lru.peek t k ≡ some e
      → (front : Entries) × (back : Entries) × (entries t ≡ front ++ (k, e) ∷ back)
        × (entries (lru.set t k f) ≡ (k, f) ∷ (front ++ back))
  pub set_peeked :
      (t : T) (k : Key) (e f : Entry)
      → lru.peek t k ≡ some e
      → (front : Entries) × (back : Entries) × (entries t ≡ front ++ (k, e) ∷ back)
        × (entries (lru.set_peeked t k f) ≡ front ++ (k, f) ∷ back)
  pub pop :
      (t : T) (k : Key) (e : Entry)
      → lru.peek t k ≡ some e
      → (front : Entries) × (back : Entries) × (entries t ≡ front ++ (k, e) ∷ back)
        × (entries (lru.pop t k) ≡ front ++ back)
  pub peek_popped : (t : T) (k : Key) → lru.peek t k ≡ none → lru.peek (lru.pop_lru t) k ≡ none
  pub peek_pushed :
      (t : T) (k j : Key) (e : Entry)
      → lru.peek_lru t ≡ some (j, e)
      → lru.peek t k ≡ none
      → lru.peek (lru.push (lru.pop_lru t) j e) k ≡ none
  pub positive : (t : T) → 0 < lru.cap t
  pub cap_popped : (t : T) → lru.cap (lru.pop_lru t) ≡ lru.cap t
  pub cap_pushed : (t : T) (k : Key) (e : Entry) → lru.cap (lru.push t k e) ≡ lru.cap t

pub pending_of-append :
    (k : Key) (es fs : Entries) → pending_of k (es ++ fs) ≡ pending_of k es + pending_of k fs
unfolding pending_of
pending_of-append k [] fs = omega arith
pending_of-append k ((j, e) ∷ es) fs = omega (arith, pending_of-append k es fs)

pub pending_of-cons :
    (j k : Key) (e : Entry) (es : Entries)
    → pending_of j ((k, e) ∷ es) ≡ (if key_eq j k then e.pending else 0) + pending_of j es
unfolding pending_of
pending_of-cons j k e es = refl

-- One entry of a table, wherever it stands.
pub pending_of-middle :
    (j k : Key) (e : Entry) (front back : Entries)
    → pending_of j (front ++ (k, e) ∷ back)
      ≡ (if key_eq j k then e.pending else 0) + pending_of j (front ++ back)
pending_of-middle j k e front back = omega (
  arith,
  pending_of-append j front ((k, e) ∷ back),
  pending_of-append j front back,
  pending_of-cons j k e back,
)
