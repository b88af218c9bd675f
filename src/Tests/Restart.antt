-- ===== src/Tests/Restart.antt =====
-- A hot log of one record, or of two bytes, and `init`.
use polardb_uncompleted.Base.{
  ℕ, ◌≡◌, refl, inl, inr, Option, none, some, List, [], ◌∷◌, length-replicate, if◌then◌else◌, arith,
}
use polardb_uncompleted.Base.Run.{ok, assertion_failed}
use polardb_uncompleted.Buffer.Record.{new as new_record}
use polardb_uncompleted.DbSystem.{read}
use polardb_uncompleted.DbSystem.Fetch.{init_system}
use polardb_uncompleted.DbSystem.Fetch.Loop.{last_with}
use polardb_uncompleted.DbSystem.Fetch.Durable.{write_records-init_system}
use polardb_uncompleted.DbSystem.Fetch.Restart.{value_of, value_in, init_system-read}
use polardb_uncompleted.DbSystem.Fetch.Torn.{init_system-torn}
use polardb_uncompleted.DbSystem.Write.{System}
use polardb_uncompleted.Disk.{DiskManager, append_to}
use polardb_uncompleted.Disk as Manager
use polardb_uncompleted.Disk.Files.{FilePath, in_memory, same_path}
use polardb_uncompleted.Disk.Log.{AllSized, sized_nil, sized_cons, images}
use polardb_uncompleted.Manifest.{Manifester, recover_manifist, count_levels}
use polardb_uncompleted.Manifest as Manifest
use polardb_uncompleted.Utils.{get_key, path_join, last_byte}
use polardb_uncompleted.Disk.Writing.{write_records}

-- "d/hot_log" and "d/died_log"
abbrev hot : FilePath
hot = b'd' ∷ b'/' ∷ b'h' ∷ b'o' ∷ b't' ∷ b'_' ∷ b'l' ∷ b'o' ∷ b'g' ∷ []

abbrev died : FilePath
died = b'd' ∷ b'/' ∷ b'd' ∷ b'i' ∷ b'e' ∷ b'd' ∷ b'_' ∷ b'l' ∷ b'o' ∷ b'g' ∷ []

abbrev logs : FilePath → Option (List ℕ)
logs p = if same_path p hot then some (images (new_record ∷ [])) else none

abbrev no_files : Manifester
no_files = record { all_records = []; record_cnt = λ lvl. 0 }

abbrev text : List ℕ
text = 0 ∷ 0 ∷ 0 ∷ 0 ∷ 0 ∷ 0 ∷ 0 ∷ 0 ∷ []

no_manifest : Manifest.new in_memory logs (Manager.new (b'd' ∷ [])) ≡ ok no_files
unfolding Manifest.new Manager.new recover_manifist count_levels path_join
no_manifest = refl

to_died : path_join ((b'd' ∷ []) ∷ Manager.died_log ∷ []) ≡ ok died
unfolding path_join
to_died = refl

to_hot : path_join ((b'd' ∷ []) ∷ Manager.hot_log ∷ []) ≡ ok hot
unfolding path_join
to_hot = refl

zero_key : get_key text ≡ ok 0
unfolding get_key
zero_key = refl

sized : AllSized (new_record ∷ [])
unfolding new_record
sized =
    sized_cons
      (record {
        magic = omega arith;
        key = omega arith;
        value = length-replicate {A = ℕ} 4096 0;
        check = omega arith;
      })
      sized_nil

init_system-read_example :
    (s : System in_memory) × (init_system in_memory 1 (λ i. 1) logs (b'd' ∷ [])
      ≡ ok (some (s, no_files)))
    × (s.disk.curr_log_fd ≡ append_to hot)
    × (value_of (read s.db text) ≡ value_in (last_with 0 (new_record ∷ [])))
init_system-read_example =
    init_system-read in_memory 0 (λ i. 1) logs (b'd' ∷ []) died hot no_files [] (new_record ∷ [])
      text 0 (λ i. (omega arith, omega arith)) to_died to_hot no_manifest (inl (refl, refl))
      (inr refl) sized_nil sized (omega arith) zero_key

-- The hot log of `logs`, opened.
abbrev manager : DiskManager
manager = record (Manager.new (b'd' ∷ [])) { curr_log_fd = append_to hot; curr_log_len = 4120 }

write_records-init_system_example :
    (files' : FilePath → Option (List ℕ)) × (d' : DiskManager) × (s : System in_memory)
    × (write_records in_memory logs manager (new_record ∷ []) ≡ ok (files', d'))
    × (init_system in_memory 1 (λ i. 1) files' (b'd' ∷ []) ≡ ok (some (s, no_files)))
    × (value_of (read s.db text) ≡ value_in (last_with 0 (new_record ∷ new_record ∷ [])))
unfolding last_byte Manager.new
write_records-init_system_example =
    write_records-init_system in_memory 0 (λ i. 1) logs manager b'd' no_files [] (new_record ∷ [])
      (new_record ∷ []) text 0 (λ i. (omega arith, omega arith)) refl refl (omega arith) no_manifest
      (inl (refl, refl)) refl sized_nil sized sized (omega arith) zero_key

abbrev torn_logs : FilePath → Option (List ℕ)
torn_logs p = if same_path p hot then some (1 ∷ 2 ∷ []) else none

no_manifest_torn : Manifest.new in_memory torn_logs (Manager.new (b'd' ∷ [])) ≡ ok no_files
unfolding Manifest.new Manager.new recover_manifist count_levels path_join
no_manifest_torn = refl

init_system-torn_example : init_system in_memory 1 (λ i. 1) torn_logs (b'd' ∷ []) ≡ assertion_failed
init_system-torn_example =
    init_system-torn in_memory 0 (λ i. 1) torn_logs (b'd' ∷ []) died hot no_files [] (1 ∷ 2 ∷ [])
      (λ i. (omega arith, omega arith)) to_died to_hot no_manifest_torn (inl (refl, refl)) sized_nil
      refl (λ e. absurd (omega (arith, e))) (omega arith)
