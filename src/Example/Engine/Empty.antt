-- ===== src/Example/Engine/Empty.antt =====
-- `Read` of the empty key when no item has it.
use polardb_uncompleted.Base.{
  ℕ, ◌<◌, ◌≡◌, ◌≢◌, refl, ap, ◌∙◌, sym, inl, inr, some, List, [], Option-cases, ℕ_discrete, arith,
}
use polardb_uncompleted.Disk.Files.{FileSystem}
use polardb_uncompleted.Disk.Image.{take, drop}
use polardb_uncompleted.Example.DataStore.{file_name, slice}
use polardb_uncompleted.Example.DataStore.Append.{read_stored}
use polardb_uncompleted.Example.DoorPlate.{no_location, DoorPlate, max_door_cnt, calc_index, find}
use polardb_uncompleted.Example.DoorPlate.Update.{calc_full}
use polardb_uncompleted.Example.DoorPlate.View.{
  item_key, IsValid, match_iff, try_used, try_free, calc_sound, find_match,
}
use polardb_uncompleted.Example.Engine.{EngineExample, read_pair, outcome}
use polardb_uncompleted.Example.Util.{succ}

-- The search for the empty key ends at an item that is not used, which matches it.
find-nil :
    (items : DoorPlate) (p : ℕ)
    → IsValid items
    → ((j : ℕ) → (items j).in_use ≢ 0 → item_key (items j) ≢ [])
    → p < max_door_cnt
    → (items p).in_use ≡ 0
    → find items [] ≡ (succ, some no_location)
find-nil items p valid absent lt free = elim (Option-cases (calc_index items [])) [
  | inl gone ↦ absurd (cc (calc_full items [] gone p lt, try_free (items p) [] free))
  | inr (j, at) ↦ elim (ℕ_discrete (items j).in_use 0) [
    | no used ↦
        let m = sym (try_used (items j) [] used) ∙ (calc_sound items [] j at).0 in
        absurd (absent j used ((match_iff (items j) [] (valid.item j)).0 m))
    | yes unused ↦
        let z = (valid.item j).zeros unused in
        let nil : item_key (items j) ≡ [] = rw (z.0) (unfold take in refl) in
        let m = (match_iff (items j) [] (valid.item j)).1 nil in
        find_match items [] j at m ∙ ap (λ l. (succ, some l)) z.1
  ]
]

-- `Read` of the empty key, which no item in use has, succeeds with the empty value, when the table
-- is well formed and has a place left and the first data file exists.
pub read_pair-nil :
    (fs : FileSystem) (files : fs.Files) (e : EngineExample) (p : ℕ) (s : List ℕ)
    → IsValid e.plate
    → ((j : ℕ) → (e.plate j).in_use ≢ 0 → item_key (e.plate j) ≢ [])
    → p < max_door_cnt
    → (e.plate p).in_use ≡ 0
    → fs.content files (file_name e.store.dir 0) ≡ some s
    → read_pair fs files e [] ≡ some (succ, some [])
unfolding read_pair
read_pair-nil fs files e p s valid absent lt free at =
    let empty : slice s 0 0 ≡ [] = unfold slice take drop in refl in
    rw (find-nil e.plate p valid absent lt free) (
      ap outcome (
        read_stored fs files e.store no_location s at (omega arith)
        ∙ ap (λ t. some (succ, some t)) empty))
