-- ===== src/Example/DoorPlate/Sorted.antt =====
-- The order of strings, and lists in ascending order of their keys.
use polardb_uncompleted.Base.{
  ℕ, ◌≡◌, ◌≢◌, refl, ap, sym, inl, inr, true, false, Option, none, some, List, [], ◌∷◌,
  if◌then◌else◌, Bool-cases, arith,
}
use polardb_uncompleted.Disk.Files.{same_path as same_bytes, same_path_iff as same_bytes_iff}
use polardb_uncompleted.Disk.Paths.{other_path}
use polardb_uncompleted.Example.DoorPlate.{Location}
use polardb_uncompleted.Example.DoorPlate.Locations.{string_lt, Locations, insert_location}

pub string_lt_irrefl : (a : List ℕ) → string_lt a a ≡ false
unfolding string_lt
string_lt_irrefl [] = refl
string_lt_irrefl (x ∷ a) = ground (arith, string_lt_irrefl a)

pub string_lt_trans :
    (a b c : List ℕ) → string_lt a b ≡ true → string_lt b c ≡ true → string_lt a c ≡ true
unfolding string_lt
string_lt_trans a [] c h k = absurd cc
string_lt_trans a (y ∷ b) [] h k = absurd cc
string_lt_trans [] (y ∷ b) (z ∷ c) h k = refl
string_lt_trans (x ∷ a) (y ∷ b) (z ∷ c) h k = ground (arith, string_lt_trans a b c)

-- Strings that do not differ in order are the same.
pub string_lt-eq : (a b : List ℕ) → string_lt a b ≡ false → string_lt b a ≡ false → a ≡ b
unfolding string_lt
string_lt-eq [] [] h k = refl
string_lt-eq [] (y ∷ b) h k = absurd cc
string_lt-eq (x ∷ a) [] h k = absurd cc
string_lt-eq (x ∷ a) (y ∷ b) h k = ground (arith, string_lt-eq a b)

-- Every key is above a given one.
abbrev pub Above : {V : Type 0} → List ℕ → List (List ℕ × V) → Type 0
Above k [] = Unit {0}
Above k ((j, w) ∷ m) = (string_lt k j ≡ true) × Above k m

abbrev pub Ascends : {V : Type 0} → List (List ℕ × V) → Type 0
Ascends [] = Unit {0}
Ascends ((j, w) ∷ m) = Above j m × Ascends m

unfoldable pub lookup : {V : Type 0} → List ℕ → List (List ℕ × V) → Option V
lookup q [] = none
lookup q ((j, w) ∷ m) = if same_bytes q j then some w else lookup q m

Above-lt : (k j : List ℕ) (m : Locations) → string_lt k j ≡ true → Above j m → Above k m
Above-lt k j [] h a = tt
Above-lt k j ((i, w) ∷ m) h a = (string_lt_trans k j i h a.0, Above-lt k j m h a.1)

Above-insert :
    (j k : List ℕ) (l : Location) (m : Locations)
    → string_lt j k ≡ true
    → Above j m
    → Above j (insert_location k l m)
unfolding insert_location
Above-insert j k l [] h a = (h, tt)
Above-insert j k l ((i, w) ∷ m) h a = elim (Bool-cases (string_lt k i)) [
  | inl lt ↦ rw lt (h, a)
  | inr ge ↦ elim (Bool-cases (string_lt i k)) [
    | inl gt ↦ rw (ge, gt) (a.0, Above-insert j k l m h a.1)
    | inr eq ↦ rw (ge, eq) a
  ]
]

pub insert-Ascends :
    (k : List ℕ) (l : Location) (m : Locations) → Ascends m → Ascends (insert_location k l m)
unfolding insert_location
insert-Ascends k l [] a = (tt, tt)
insert-Ascends k l ((i, w) ∷ m) a = elim (Bool-cases (string_lt k i)) [
  | inl lt ↦ rw lt ((lt, Above-lt k i m lt a.0), a)
  | inr ge ↦ elim (Bool-cases (string_lt i k)) [
    | inl gt ↦ rw (ge, gt) (Above-insert i k l m gt a.0, insert-Ascends k l m a.1)
    | inr eq ↦ rw (ge, eq) a
  ]
]

pub lookup-above : (k : List ℕ) (m : Locations) → Above k m → lookup k m ≡ none
unfolding lookup
lookup-above k [] a = refl
lookup-above k ((j, w) ∷ m) a =
    let ne : k ≢ j = λ e. cc (a.0, ap (string_lt k) e, string_lt_irrefl k) in
    rw (other_path k j ne) (lookup-above k m a.1)

abbrev pub first_of : Option Location → Option Location → Option Location
first_of none o = o
first_of (some l) o = some l

first_of-none : (o : Option Location) → first_of o none ≡ o
first_of-none none = refl
first_of-none (some l) = refl

lookup_front :
    (q k : List ℕ) (l : Location) (m : Locations)
    → Above k m
    → (if same_bytes q k then some l else lookup q m)
      ≡ first_of (lookup q m) (if same_bytes q k then some l else none)
lookup_front q k l m a = elim (Bool-cases (same_bytes q k)) [
  | inl at ↦
      let e = (same_bytes_iff q k).0 at in
      let gone : lookup q m ≡ none = rw e (lookup-above k m a) in rw (at, gone) refl
  | inr off ↦ rw off (sym (first_of-none (lookup q m)))
]

-- An insertion adds a key that was not there.
pub lookup-insert :
    (q k : List ℕ) (l : Location) (m : Locations)
    → Ascends m
    → lookup q (insert_location k l m)
      ≡ first_of (lookup q m) (if same_bytes q k then some l else none)
unfolding lookup insert_location
lookup-insert q k l [] a = refl
lookup-insert q k l ((i, w) ∷ m) a = elim (Bool-cases (string_lt k i)) [
  | inl lt ↦ rw lt (lookup_front q k l ((i, w) ∷ m) (lt, Above-lt k i m lt a.0))
  | inr ge ↦ elim (Bool-cases (string_lt i k)) [
    | inl gt ↦ elim (Bool-cases (same_bytes q i)) [
      | inl at ↦ rw (ge, gt, at) refl
      | inr off ↦ rw (ge, gt, off) (lookup-insert q k l m a.1)
    ]
    | inr eq ↦
        let same = string_lt-eq k i ge eq in
        elim (Bool-cases (same_bytes q i)) [
          | inl at ↦ rw (ge, eq, at) refl
          | inr off ↦
              let off' : same_bytes q k ≡ false = rw same off in
              rw (ge, eq, off, off') (sym (first_of-none (lookup q m)))
        ]
  ]
]
