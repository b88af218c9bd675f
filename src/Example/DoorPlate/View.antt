-- ===== src/Example/DoorPlate/View.antt =====
-- The key that an item holds, and when a table of class DoorPlate is well formed.
use polardb_uncompleted.Base.{
  ℕ, ◌%◌, ◌≤◌, ◌<◌, ◌≡◌, ◌≢◌, ◌↔◌, refl, ap, ◌∙◌, sym, ◌⊎◌, inl, inr, Bool, true, false, none, some,
  List, [], length, length-append, length-replicate, ◌==◌, arith, Bool-cases, Option-cases,
  ℕ_discrete,
}
use polardb_uncompleted.Disk.Files.{same_path_iff as same_bytes_iff}
use polardb_uncompleted.Disk.Image.{take, drop, take-append}
use polardb_uncompleted.Disk.Log.{length-take, length-drop}
use polardb_uncompleted.Example.DoorPlate.{
  Location, no_location, Item, DoorPlate, max_key_len, max_door_cnt, new, item_key_match,
  item_try_place, calc_index, placed, find,
}
use polardb_uncompleted.Example.DoorPlate.Probe.{probe_sound}
use polardb_uncompleted.Example.Util.{succ, not_found, str_hash}

abbrev pub item_key : Item → List ℕ
item_key item = take item.key_size item.key

-- An item that is not used is as in a new file.
pub record IsItem (item : Item) : Type 0 where
  pub array : length item.key ≡ max_key_len
  pub fits : item.key_size ≤ max_key_len
  pub zeros : item.in_use ≡ 0 → (item.key_size ≡ 0) × (item.location ≡ no_location)

-- Every item in use is where the search for its key ends.
pub record IsValid (items : DoorPlate) : Type 0 where
  pub item : (p : ℕ) → IsItem (items p)
  pub found : (p : ℕ) → (items p).in_use ≢ 0 → calc_index items (item_key (items p)) ≡ some p

pub new-IsValid : IsValid new
unfolding new
new-IsValid = record {
  item = λ p. record {
    array = length-replicate {A = ℕ} max_key_len 0;
    fits = omega arith;
    zeros = λ h. (refl, refl);
  };
  found = λ p h. absurd (h refl);
}

pub match_iff :
    (item : Item) (q : List ℕ) → IsItem item → (item_key_match item q ≡ true) ↔ (item_key item ≡ q)
unfolding item_key_match
match_iff item q z =
    let len = length-take item.key_size item.key (omega (arith, z.array, z.fits)) in
    let same = same_bytes_iff (item_key item) q in
    (
      λ h. ground (arith, same),
      λ e. let size : length q ≡ item.key_size = ap length (sym e) ∙ len in ground (arith, same),
    )

pub try_used :
    (item : Item) (q : List ℕ) → item.in_use ≢ 0 → item_try_place item q ≡ item_key_match item q
unfolding item_try_place
try_used item q h = ground arith

pub try_free : (item : Item) (q : List ℕ) → item.in_use ≡ 0 → item_try_place item q ≡ true
unfolding item_try_place
try_free item q h = ground arith

-- A free item matches no key but the empty one.
pub free_match :
    (item : Item) (q : List ℕ)
    → IsItem item
    → item.in_use ≡ 0
    → q ≢ []
    → item_key_match item q ≡ false
free_match item q z free ne = elim (Bool-cases (item_key_match item q)) [
  | inr no_match ↦ no_match
  | inl m ↦
      let e = (match_iff item q z).0 m in
      let nil : item_key item ≡ [] = rw ((z.zeros free).0) (unfold take in refl) in
      absurd (ne (sym e ∙ nil))
]

pub calc_sound :
    (items : DoorPlate) (q : List ℕ) (p : ℕ)
    → calc_index items q ≡ some p
    → (item_try_place (items p) q ≡ true) × (p < max_door_cnt)
unfolding calc_index
calc_sound items q p e =
    probe_sound (λ index. item_try_place (items index) q) max_door_cnt (str_hash q % max_door_cnt) p
      (omega arith) e

abbrev pub match_at : DoorPlate → List ℕ → ℕ → Bool
match_at items q p = item_key_match (items p) q

-- `find` by the place that the search ends at.
pub find-none :
    (items : DoorPlate) (q : List ℕ) → calc_index items q ≡ none → find items q ≡ (not_found, none)
unfolding find
find-none items q e = rw (e, find) refl

pub find_match :
    (items : DoorPlate) (q : List ℕ) (p : ℕ)
    → calc_index items q ≡ some p
    → item_key_match (items p) q ≡ true
    → find items q ≡ (succ, some (items p).location)
unfolding find
find_match items q p e m = rw (find, e) (rw m refl)

pub find_other :
    (items : DoorPlate) (q : List ℕ) (p : ℕ)
    → calc_index items q ≡ some p
    → item_key_match (items p) q ≡ false
    → find items q ≡ (not_found, none)
unfolding find
find_other items q p e m = rw (find, e) (rw m refl)

-- The item after `AddOrUpdate` is used, and holds the key and the location.
pub record Holds (item : Item) (k : List ℕ) (l : Location) : Type 0 where
  pub used : item.in_use ≢ 0
  pub key : item_key item ≡ k
  pub location : item.location ≡ l
  pub valid : IsItem item

pub placed-Holds :
    (item : Item) (k : List ℕ) (l : Location)
    → IsItem item
    → length k ≤ max_key_len
    → item_try_place item k ≡ true
    → Holds (placed item k l) k l
unfolding placed
placed-Holds item k l z short t = elim (ℕ_discrete item.in_use 0) [
  | yes free ↦
      let left = length-drop (length k) item.key (omega (arith, z.array)) in
      rw free (record {
        used = omega arith;
        key = take-append (length k) k (drop (length k) item.key) refl;
        location = refl;
        valid = record {
          array = omega (arith, length-append k (drop (length k) item.key), z.array);
          fits = short;
          zeros = λ h. absurd (omega arith);
        };
      })
  | no used ↦
      let m = sym (try_used item k used) ∙ t in
      let off : (item.in_use == 0) ≡ false = ground arith in
      rw off (record {
        used = used;
        key = (match_iff item k z).0 m;
        location = refl;
        valid = record { array = z.array; fits = z.fits; zeros = λ h. absurd (used h) };
      })
]

-- For a key other than the empty one `Find` succeeds at an item in use, or it fails.
pub find_cases :
    (items : DoorPlate) (q : List ℕ)
    → IsValid items
    → q ≢ []
    → ((p : ℕ) × ((items p).in_use ≢ 0)
        × (item_key (items p) ≡ q)
        × (p < max_door_cnt)
        × (find items q ≡ (succ, some (items p).location)))
      ⊎ (find items q ≡ (not_found, none))
find_cases items q valid nil = elim (Option-cases (calc_index items q)) [
  | inl gone ↦ inr (find-none items q gone)
  | inr (p, at) ↦ elim (Bool-cases (match_at items q p)) [
    | inl m ↦ inl (
      p,
      (λ free. cc (m, free_match (items p) q (valid.item p) free nil)),
      (match_iff (items p) q (valid.item p)).0 m,
      (calc_sound items q p at).1,
      find_match items q p at m,
    )
    | inr m ↦ inr (find_other items q p at m)
  ]
]
