-- ===== src/Refresh/Writes.antt =====
-- The write of a rotated auth.json: what a reader sees, and what it leaves.
use mur_model_gateway.Common.{
  ◌≡◌, ◌⊎◌, refl, Bool, true, false, List, [], ◌∷◌, Option, none, some, String, All, inl, inr,
}
use mur_model_gateway.Refresh.{Disk, Faults, write_rotation, renamed}

-- A reader of auth.json sees the old document or the new one.
abbrev pub IsWhole : String → String → Disk → Type 0
IsWhole old new d = (d.auth ≡ old) ⊎ (d.auth ≡ new)

-- The state that the two files are left in: the last of the list, or the first where it is empty.
abbrev pub last : Disk → List Disk → Disk
last d [] = d
last d (e ∷ ds) = last e ds

-- How the write may end: as a success with the new document in place and no temporary file; or as a
-- failure that leaves both files as they were, or that leaves auth.json as it was beside a temporary
-- file of this write, which could not be removed.
abbrev pub Ends : Bool → Disk → String → List Disk × Bool → Type 0
Ends remove d bytes (states, true) = last d states ≡ renamed d bytes
Ends remove d bytes (states, false) =
    (last d states ≡ d) ⊎ ((remove ≡ true) × (d.tmp ≡ none) × ((last d states).auth ≡ d.auth))

abbrev IsAtomic : Bool → Disk → String → List Disk × Bool → Type 0
IsAtomic remove d bytes r = All (IsWhole d.auth bytes) r.0 × Ends remove d bytes r

by_cases :
    (auth : String) (tmp : Option String) (create : Bool) (write : Option String)
    (sync rename remove : Bool) (bytes : String)
    → IsAtomic remove
        (record { auth = auth; tmp = tmp })
        bytes
        (write_rotation
          (record { create = create; write = write; sync = sync; rename = rename; remove = remove })
          (record { auth = auth; tmp = tmp })
          bytes)
unfolding write_rotation
by_cases auth (some other) create write sync rename remove bytes = (tt, inl refl)
by_cases auth none true write sync rename remove bytes = (tt, inl refl)
by_cases auth none false (some part) sync rename true bytes =
    ((inl refl, (inl refl, (inl refl, tt))), inr (refl, refl, refl))
by_cases auth none false (some part) sync rename false bytes =
    ((inl refl, (inl refl, (inl refl, tt))), inl refl)
by_cases auth none false none true rename true bytes =
    ((inl refl, (inl refl, (inl refl, tt))), inr (refl, refl, refl))
by_cases auth none false none true rename false bytes =
    ((inl refl, (inl refl, (inl refl, tt))), inl refl)
by_cases auth none false none false true true bytes =
    ((inl refl, (inl refl, (inl refl, tt))), inr (refl, refl, refl))
by_cases auth none false none false true false bytes =
    ((inl refl, (inl refl, (inl refl, tt))), inl refl)
by_cases auth none false none false false remove bytes =
    ((inl refl, (inl refl, (inr refl, tt))), refl)

-- Whatever fails, at every moment auth.json holds the old document or the new one, whole. In the end it
-- is the new one with no temporary file on success. On a failure both files are as before, a temporary
-- file of another process too; only where the removal of the temporary file fails as well, and there was
-- none before, may that file stay, and auth.json is as before.
pub write_rotation-atomic :
    (f : Faults) (d : Disk) (bytes : String)
    → All (IsWhole d.auth bytes) (write_rotation f d bytes).0
      × Ends f.remove d bytes (write_rotation f d bytes)
write_rotation-atomic f d bytes =
    by_cases d.auth d.tmp f.create f.write f.sync f.rename f.remove bytes
