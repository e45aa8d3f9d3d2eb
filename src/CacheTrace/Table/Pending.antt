-- ===== src/CacheTrace/Table/Pending.antt =====
-- The pending sends that the recency tables of src/cache_trace.rs count.
use mur_model_gateway.Common.{
  ◌≡◌, refl, ap, ◌∙◌, inl, inr, ℕ, ◌+◌, ◌-◌, ◌%◌, ◌^◌, ◌≤◌, ◌<◌, min, Bool, true, false, ◌&&◌, ◌∷◌,
  ◌++◌, Option, none, some, if◌then◌else◌, ◌==◌, length, length-append, Bool-cases, arith,
}
use mur_model_gateway.CacheTrace.Guard.{Key}
use mur_model_gateway.CacheTrace.Table.{
  Entry, Lru, sent_again, sent_first, outcome, goes, make_room, insert_if, touch_found, touch,
  settle_found, settle_entry, rolled_back,
}
use mur_model_gateway.CacheTrace.Table.Documented.{
  key_eq, Entries, pending_of, Documented, pending_of-cons, pending_of-middle,
}
use mur_model_gateway.CacheTrace.Table.Room.{Room, make_room-Room}

rolled_back-pending : (e : Entry) (o : Option (ℕ × ℕ)) → (rolled_back e o).pending ≡ e.pending
rolled_back-pending e none = refl
rolled_back-pending e (some (s, t)) = refl

outcome-pending :
    (success : Bool) (seq expiry : ℕ) (e : Entry)
    → (outcome success seq expiry e).pending ≡ e.pending - 1
outcome-pending true seq expiry e = refl
outcome-pending false seq expiry e = elim (Bool-cases (e.last_seq == seq)) [
  | inl d ↦ rw (d) (rolled_back-pending (record e { pending = e.pending - 1 }) e.prev)
  | inr d ↦ rw (d) refl
]

goes-pending :
    (success : Bool) (seq : ℕ) (e : Entry) → goes success seq e ≡ true → e.pending - 1 ≡ 0
goes-pending success seq e h = ground arith

module _ {T : Type 0} (lru : Lru T) (entries : T → Entries) (doc : Documented T lru entries) where
  -- What a send leaves of a table that holds no more than it may: a table that does so, in which every
  -- key has the pending sends that it had, but the key that was sent one more if the table took it.
  abbrev pub Touched : Key → T → Bool × T → Type 0
  Touched k t r =
      ((j : Key)
        → pending_of j (entries r.1)
          ≡ (if r.0 && key_eq j k then 1 else 0) + pending_of j (entries t))
      × (length (entries r.1) ≤ lru.cap t)

  inserted-Touched :
      (k : Key) (t : T) (seq now : ℕ) (r : Bool × T)
      → Room lru entries doc k t r
      → Touched k t (insert_if lru k (sent_first seq now) r)
  unfolding Room
  inserted-Touched k t seq now (false, u) (p, h, c, l, m) = (λ j. p j ∙ omega arith, l)
  inserted-Touched k t seq now (true, u) (p, h, c, l, m) =
      let put = doc.put u k (sent_first seq now) h (m refl) in
      let size = ap length put in
      let free = m refl in
      (
        λ j.
            ap (pending_of j) put
            ∙ pending_of-cons j k (sent_first seq now) (entries u)
            ∙ ap (◌+◌ (if key_eq j k then 1 else 0)) (p j),
        omega (arith, size, free, c),
      )

  found-Touched :
      (k : Key) (t : T) (seq now : ℕ) (o : Option Entry)
      → lru.peek t k ≡ o
      → ((e : Entry) → o ≡ some e → e.pending + 1 < 2 ^ 32)
      → length (entries t) ≤ lru.cap t
      → Touched k t (touch_found lru k seq now t o)
  found-Touched k t seq now none h small l =
      inserted-Touched k t seq now (make_room lru t) (make_room-Room lru entries doc k t h l)
  found-Touched k t seq now (some e) h small l =
      let f = sent_again seq now e in
      let (front, back, before, after) = doc.set t k e f h in
      (
        λ j.
            ap (pending_of j) after
            ∙ pending_of-cons j k f (front ++ back)
            ∙ one_more (key_eq j k) e.pending (pending_of j (front ++ back)) _ (small e refl)
                (ap (pending_of j) before ∙ pending_of-middle j k e front back),
        omega (
          arith,
          l,
          ap length after,
          ap length before,
          length-append front back,
          length-append front ((k, e) ∷ back),
        ),
      )
    where
      one_more :
          (b : Bool) (n m x : ℕ)
          → n + 1 < 2 ^ 32
          → x ≡ (if b then n else 0) + m
          → (if b then (n + 1) % 2 ^ 32 else 0) + m ≡ (if b then 1 else 0) + x
      one_more true n m x l h = omega arith
      one_more false n m x l h = omega arith

  -- Where the count of a key's pending sends, a number of 32 bits, has room for one more: a send that a
  -- table takes adds one to the pending sends of its key and changes those of no other
  -- key, whatever the table evicts for it; one that it refuses changes none. The table stays in its
  -- capacity. The operations of the lru cache are taken as their documentation has them.
  pub touch-Touched :
      (k : Key) (seq now : ℕ) (t : T)
      → ((e : Entry) → lru.peek t k ≡ some e → e.pending + 1 < 2 ^ 32)
      → length (entries t) ≤ lru.cap t
      → Touched k t (touch lru k seq now t)
  unfolding touch
  touch-Touched k seq now t small l = found-Touched k t seq now (lru.peek t k) refl small l

  -- the pending send that an outcome ends
  abbrev pub ended : Option Entry → ℕ
  ended none = 0
  ended (some e) = min 1 e.pending

  settled-pending :
      (k j : Key) (seq expiry : ℕ) (success : Bool) (t : T) (o : Option Entry)
      → lru.peek t k ≡ o
      → pending_of j (entries (settle_found lru k seq expiry success t o))
          + (if key_eq j k then ended o else 0)
        ≡ pending_of j (entries t)
  settled-pending k j seq expiry success t none h = ground arith
  settled-pending k j seq expiry success t (some e) h = elim (Bool-cases (goes success seq e)) [
    | inl g ↦
        let (front, back, before, after) = doc.pop t k e h in
        let gone = goes-pending success seq e g in
        let was = ap (pending_of j) before ∙ pending_of-middle j k e front back in
        let now_ = ap (pending_of j) after in
        rw (g) (one_less (key_eq j k) e.pending 0 _ _ _ gone was now_)
    | inr g ↦
        let f = outcome success seq expiry e in
        let (front, back, before, after) = doc.set_peeked t k e f h in
        let was = ap (pending_of j) before ∙ pending_of-middle j k e front back in
        let now_ = ap (pending_of j) after ∙ pending_of-middle j k f front back in
        rw (g) (
          one_less_kept (key_eq j k) e.pending f.pending _ _ _
            (outcome-pending success seq expiry e) was now_)
  ]
    where
      one_less :
          (b : Bool) (n z m x y : ℕ)
          → n - 1 ≡ 0
          → x ≡ (if b then n else 0) + m
          → y ≡ m
          → y + (if b then min 1 n else 0) ≡ x
      one_less true n z m x y h was now_ = omega arith
      one_less false n z m x y h was now_ = omega arith

      one_less_kept :
          (b : Bool) (n z m x y : ℕ)
          → z ≡ n - 1
          → x ≡ (if b then n else 0) + m
          → y ≡ (if b then z else 0) + m
          → y + (if b then min 1 n else 0) ≡ x
      one_less_kept true n z m x y h was now_ = omega arith
      one_less_kept false n z m x y h was now_ = omega arith

  -- The outcome of a send takes one from the pending sends of its key, when the table has the key and
  -- sends of it are pending, and changes those of no other key, also where the entry goes.
  pub settle_entry-pending :
      (k j : Key) (seq expiry : ℕ) (success : Bool) (t : T)
      → pending_of j (entries (settle_entry lru k seq expiry success t))
          + (if key_eq j k then ended (lru.peek t k) else 0)
        ≡ pending_of j (entries t)
  unfolding settle_entry
  settle_entry-pending k j seq expiry success t =
      settled-pending k j seq expiry success t (lru.peek t k) refl
