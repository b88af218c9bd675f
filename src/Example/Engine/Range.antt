-- ===== src/Example/Engine/Range.antt =====
-- `Range` visits what `Read` reads, in the order of the keys.
use polardb_uncompleted.Base.{
  ℕ, ◌≡◌, ◌≢◌, refl, ap, ◌∙◌, sym, subst, inl, inr, Bool, true, false, Option, none, some, List, [],
  ◌∷◌, if◌then◌else◌, Bool-cases,
}
use polardb_uncompleted.Disk.Files.{FileSystem, same_path as same_bytes}
use polardb_uncompleted.Example.DataStore.{DataStore, read_value, slice}
use polardb_uncompleted.Example.DataStore.Append.{Stored, read_stored}
use polardb_uncompleted.Example.DoorPlate.{Location, find}
use polardb_uncompleted.Example.DoorPlate.Locations.{Locations, in_range}
use polardb_uncompleted.Example.DoorPlate.Ranges.{Sourced, get_range_location-find}
use polardb_uncompleted.Example.DoorPlate.Sorted.{Above, Ascends, lookup}
use polardb_uncompleted.Example.DoorPlate.View as Plate
use polardb_uncompleted.Example.Engine.{EngineExample, read_pair, visit_all, range_pairs, outcome}
use polardb_uncompleted.Example.Engine.Refine.{IsValid}
use polardb_uncompleted.Example.Util.{RetCode, succ}

-- The value that a `Read` gives, if it succeeds.
abbrev pub value_of : Option (RetCode × Option (List ℕ)) → Option (List ℕ)
value_of (some (succ, value)) = value
value_of _ = none

abbrev bytes_at : (fs : FileSystem) → fs.Files → DataStore → Option Location → Option (List ℕ)
bytes_at fs files store none = none
bytes_at fs files store (some l) = value_of (read_value fs files store l)

module _ (fs : FileSystem) (files : fs.Files) (store : DataStore) where
  abbrev AllStored : Locations → Type 0
  AllStored [] = Unit {0}
  AllStored ((k, l) ∷ m) = Stored fs files store l × AllStored m

  -- The visits have the keys of the locations.
  record Visited (m : Locations) (visits : List (List ℕ × List ℕ)) : Type 0 where
    pub above : (k : List ℕ) → Above k m → Above k visits
    pub ascends : Ascends m → Ascends visits
    pub values : (q : List ℕ) → lookup q visits ≡ bytes_at fs files store (lookup q m)

  visit_more :
      (k : List ℕ) (l : Location) (m : Locations) (value : List ℕ) (visits : List (List ℕ × List ℕ))
      → read_value fs files store l ≡ some (succ, some value)
      → visit_all fs files store m ≡ some (succ, visits)
      → visit_all fs files store ((k, l) ∷ m) ≡ some (succ, (k, value) ∷ visits)
  unfolding visit_all
  visit_more k l m value visits e done = rw (visit_all, e) (rw done refl)

  lookup_more :
      (q k : List ℕ) (l : Location) (m : Locations) (value : List ℕ)
      (visits : List (List ℕ × List ℕ))
      → read_value fs files store l ≡ some (succ, some value)
      → lookup q visits ≡ bytes_at fs files store (lookup q m)
      → lookup q ((k, value) ∷ visits) ≡ bytes_at fs files store (lookup q ((k, l) ∷ m))
  unfolding lookup
  lookup_more q k l m value visits e rest = elim (Bool-cases (same_bytes q k)) [
    | inl at ↦ rw (at, e) refl
    | inr off ↦ rw off rest
  ]

  visit_all-Visited :
      (m : Locations)
      → AllStored m
      → (visits : List (List ℕ × List ℕ)) × (visit_all fs files store m ≡ some (succ, visits))
        × Visited m visits
  visit_all-Visited [] s = (
    [],
    unfold visit_all in refl,
    record { above = λ k a. tt; ascends = λ a. tt; values = λ q. unfold lookup in refl },
  )
  visit_all-Visited ((k, l) ∷ m) s =
      let (visits, done, v) = visit_all-Visited m s.1 in
      let value = slice s.0.bytes l.offset l.len in
      let e = read_stored fs files store l s.0.bytes s.0.content s.0.fits in
      (
        (k, value) ∷ visits,
        visit_more k l m value visits e done,
        record {
          above = λ j a. (a.0, v.above j a.1);
          ascends = λ a. (v.above k a.0, v.ascends a.1);
          values = λ q. lookup_more q k l m value visits e (v.values q);
        },
      )

  pub Sourced-AllStored :
      (lower upper : List ℕ) (e : EngineExample)
      → e.store ≡ store
      → IsValid fs files e
      → (m : Locations) → Sourced lower upper e.plate m
      → AllStored m
  Sourced-AllStored lower upper e same valid [] s = tt
  Sourced-AllStored lower upper e same valid ((k, l) ∷ m) ((p, used, at), s) = (
    subst (λ (d : DataStore). Stored fs files d l) same
        (subst (Stored fs files e.store) at (valid.linked p used)),
    Sourced-AllStored lower upper e same valid m s,
  )

-- The value under a key, by what `Find` finds.
read_bytes :
    (fs : FileSystem) (files : fs.Files) (e : EngineExample) (q : List ℕ)
    → IsValid fs files e
    → q ≢ []
    → bytes_at fs files e.store (find e.plate q).1 ≡ value_of (read_pair fs files e q)
unfolding read_pair
read_bytes fs files e q valid nil = elim (Plate.find_cases e.plate q valid.plate nil) [
  | inr gone ↦ rw gone refl
  | inl (p, used, key, lt, at) ↦
      let z = valid.linked p used in
      let r = read_stored fs files e.store (e.plate p).location z.bytes z.content z.fits in
      rw at (ap value_of r ∙ sym (ap (λ o. value_of (outcome o)) r))
]

-- `Range` on a well-formed engine succeeds. It visits keys in ascending order, and for every key but
-- the empty one it visits the key with the value that `Read` gives if the key is in the range and
-- `Read` succeeds, and does not visit the key otherwise.
pub range_pairs-read_pair :
    (fs : FileSystem) (files : fs.Files) (e : EngineExample) (lower upper q : List ℕ)
    → IsValid fs files e
    → q ≢ []
    → (visits : List (List ℕ × List ℕ)) × (range_pairs fs files e lower upper ≡ some (succ, visits))
      × Ascends visits
      × (lookup q visits
          ≡ (if in_range lower upper q then value_of (read_pair fs files e q) else none))
unfolding range_pairs
range_pairs-read_pair fs files e lower upper q valid nil =
    let (m, gathered, a, sourced, found) =
      get_range_location-find lower upper e.plate valid.plate in
    let stored = Sourced-AllStored fs files e.store lower upper e refl valid m sourced in
    let (visits, done, v) = visit_all-Visited fs files e.store m stored in
    (
      visits,
      rw gathered done,
      v.ascends a,
      v.values q
          ∙ ap (bytes_at fs files e.store) (found q nil)
          ∙ in_or_out q nil (in_range lower upper q),
    )
  where
    in_or_out :
        (q : List ℕ)
        → q ≢ []
        → (b : Bool)
        → bytes_at fs files e.store (if b then (find e.plate q).1 else none)
          ≡ (if b then value_of (read_pair fs files e q) else none)
    in_or_out q nil true = read_bytes fs files e q valid nil
    in_or_out q nil false = refl
