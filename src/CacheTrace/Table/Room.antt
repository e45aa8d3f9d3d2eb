-- ===== src/CacheTrace/Table/Room.antt =====
-- `make_room` of src/cache_trace.rs: what it leaves of a table.
use mur_model_gateway.Common.{
  ◌≡◌, refl, sym, ap, ◌∙◌, inl, inr, ℕ, zero, suc, ◌+◌, ◌≤◌, ◌<◌, Bool, true, false, [], ◌∷◌, none,
  some, if◌then◌else◌, ltb, ◌==◌, ==_iff, length, length-append, append-nil, Bool-cases,
  Option-cases, arith,
}
use mur_model_gateway.CacheTrace.Guard.{Key}
use mur_model_gateway.CacheTrace.Table.{Entry, Lru, search_room, make_room}
use mur_model_gateway.CacheTrace.Table.Documented.{
  key_eq, Entries, pending_of, Documented, pending_of-cons, pending_of-middle,
}

module _ {T : Type 0} (lru : Lru T) (entries : T → Entries) (doc : Documented T lru entries) where
  -- What making room for a key leaves: the pending sends, the key's absence, and the bounds.
  unfoldable pub Room : Key → T → Bool × T → Type 0
  Room k t (b, u) =
      ((j : Key) → pending_of j (entries u) ≡ pending_of j (entries t))
      × (lru.peek u k ≡ none)
      × (lru.cap u ≡ lru.cap t)
      × (length (entries u) ≤ lru.cap t)
      × (b ≡ true → length (entries u) < lru.cap u)

  empty-Room : (k : Key) (t : T) → lru.peek t k ≡ none → lru.peek_lru t ≡ none → Room k t (true, t)
  unfolding Room
  empty-Room k t h e =
      let none_there : length (entries t) ≡ 0 = ap length (doc.nothing t e) in
      (
        λ j. refl,
        h,
        refl,
        omega (arith, none_there),
        λ b. omega (arith, none_there, doc.positive t),
      )

  least-split :
      (t : T) (j : Key) (x : Entry)
      → lru.peek_lru t ≡ some (j, x)
      → length (entries t) ≡ length (entries (lru.pop_lru t)) + 1
  least-split t j x e =
      ap length (doc.least t j x e) ∙ length-append (entries (lru.pop_lru t)) ((j, x) ∷ [])

  least-pending :
      (t : T) (j k : Key) (x : Entry)
      → lru.peek_lru t ≡ some (j, x)
      → pending_of k (entries t)
        ≡ (if key_eq k j then x.pending else 0) + pending_of k (entries (lru.pop_lru t))
  least-pending t j k x e =
      ap (pending_of k) (doc.least t j x e)
      ∙ pending_of-middle k j x (entries (lru.pop_lru t)) []
      ∙ ap (λ es. (if key_eq k j then x.pending else 0) + pending_of k es)
          (append-nil (entries (lru.pop_lru t)))

  popped-Room :
      (k : Key) (t : T) (j : Key) (x : Entry)
      → lru.peek t k ≡ none
      → length (entries t) ≤ lru.cap t
      → lru.peek_lru t ≡ some (j, x)
      → (x.pending == 0) ≡ true
      → Room k t (true, lru.pop_lru t)
  unfolding Room
  popped-Room k t j x h l e d =
      let shorter = least-split t j x e in
      let cap = doc.cap_popped t in
      (
        λ i.
            sym
              (least-pending t j i x e ∙ none_pending (key_eq i j) x.pending _ ((==_iff _ _).0 d)),
        doc.peek_popped t k h,
        cap,
        omega arith,
        λ b. omega arith,
      )
    where
      none_pending : (b : Bool) (n m : ℕ) → n ≡ 0 → (if b then n else 0) + m ≡ m
      none_pending true n m z = omega arith
      none_pending false n m z = omega arith

  pushed-Room :
      (k : Key) (t : T) (j : Key) (x : Entry) (r : Bool × T)
      → lru.peek_lru t ≡ some (j, x)
      → Room k (lru.push (lru.pop_lru t) j x) r
      → Room k t r
  unfolding Room
  pushed-Room k t j x (b, u) e (p, h, c, l, m) =
      let front = doc.push t j x e in
      let cap = doc.cap_pushed (lru.pop_lru t) j x ∙ doc.cap_popped t in
      (
        λ i.
            p i
            ∙ ap (pending_of i) front
            ∙ pending_of-cons i j x (entries (lru.pop_lru t))
            ∙ sym (least-pending t j i x e),
        h,
        c ∙ cap,
        omega (arith, l, cap),
        m,
      )

  search_room-Room :
      (n : ℕ) (k : Key) (t : T)
      → lru.peek t k ≡ none
      → length (entries t) ≤ lru.cap t
      → Room k t (search_room lru n t)
  unfolding search_room
  search_room-Room zero k t h l = unfold Room in (λ j. refl, h, refl, l, λ e. cc)
  search_room-Room (suc n) k t h l = elim (Option-cases (lru.peek_lru t)) [
    | inl e ↦ rw (e, search_room) (empty-Room k t h e)
    | inr ((j, x), e) ↦
        let turned = lru.push (lru.pop_lru t) j x in
        let cap = doc.cap_pushed (lru.pop_lru t) j x ∙ doc.cap_popped t in
        let size : length (entries turned) ≤ lru.cap turned =
          omega (arith, l, cap, least-split t j x e, ap length (doc.push t j x e)) in
        let again = search_room-Room n k turned (doc.peek_pushed t k j x e h) size in
        elim (Bool-cases (x.pending == 0)) [
          | inl d ↦ rw (e, search_room, d) (popped-Room k t j x h l e d)
          | inr d ↦ rw (e, search_room, d) (pushed-Room k t j x (search_room lru n turned) e again)
        ]
  ]

  pub make_room-Room :
      (k : Key) (t : T)
      → lru.peek t k ≡ none
      → length (entries t) ≤ lru.cap t
      → Room k t (make_room lru t)
  unfolding make_room
  make_room-Room k t h l = elim (Bool-cases (ltb (lru.len t) (lru.cap t))) [
    | inl e ↦ rw (e) (unfold Room in (λ j. refl, h, refl, l, λ b. room t e))
    | inr e ↦ rw (e) (search_room-Room (lru.cap t) k t h l)
  ]
    where
      room : (u : T) → ltb (lru.len u) (lru.cap u) ≡ true → length (entries u) < lru.cap u
      room u e = let same = doc.len u in ground arith
