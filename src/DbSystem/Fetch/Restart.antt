-- ===== src/DbSystem/Fetch/Restart.antt =====
-- `DBSystem::init`: what the two logs hold can be read afterwards.
use polardb_uncompleted.Base.{
  ℕ, zero, suc, ◌+◌, ◌≤◌, ◌<◌, ◌≡◌, refl, ap, ◌∙◌, sym, subst, ◌⊎◌, inl, inr, false, Option, none,
  some, List, [], ◌∷◌, ◌++◌, length, ◌==◌, arith, Bool-cases, Option-cases, replicate,
}
use polardb_uncompleted.Base.Run.{Run, ok, assertion_failed, undefined}
use polardb_uncompleted.Buffer.{Buffer, record_buff_size, indices, member}
use polardb_uncompleted.Buffer as Slots
use polardb_uncompleted.Buffer.Record.{Record, record_value_len}
use polardb_uncompleted.Buffer.Slots.{new-IsValid as new-Partitioned}
use polardb_uncompleted.DbSystem.{DbSystem, read, read_at}
use polardb_uncompleted.DbSystem.Call.{◌>>+◌, at_once, steps_on}
use polardb_uncompleted.DbSystem.Fetch.{
  LogType, hot_log_t, died_log_t, fetch_content, init_log_file_and_fetch_data, init_system,
  new_system,
}
use polardb_uncompleted.DbSystem.Fetch.Loop.{last_with}
use polardb_uncompleted.DbSystem.Fetch.Logs.{Resting, Present, Recovered, fetch_bytes-Recovered}
use polardb_uncompleted.DbSystem.Recover.{found_under, read-slot, in_bounds, stored_idx}
use polardb_uncompleted.DbSystem.Stored.{got_all}
use polardb_uncompleted.DbSystem.Write.{System}
use polardb_uncompleted.Disk.{DiskManager, append_to, hot_log, died_log, open_hot_log}
use polardb_uncompleted.Disk as Manager
use polardb_uncompleted.Disk.Files.{FileSystem, FilePath}
use polardb_uncompleted.Disk.Image.{IsSized}
use polardb_uncompleted.Disk.Log.{AllSized, sized_cons, images, append-AllSized}
use polardb_uncompleted.Index.{get_idx, if_valid}
use polardb_uncompleted.IndexHashMap as Table
use polardb_uncompleted.IndexHashMap.{get}
use polardb_uncompleted.IndexHashMap.Room.{new-Holds}
use polardb_uncompleted.IndexHashMap.View.{view, view_free, new-IsValid}
use polardb_uncompleted.Indexer
use polardb_uncompleted.Indexer.Writing.{view-some}
use polardb_uncompleted.Manifest.{Manifester}
use polardb_uncompleted.Manifest as Manifest
use polardb_uncompleted.SkipList.{skip_list_max_height}
use polardb_uncompleted.SkipList as Tables
use polardb_uncompleted.SkipList.Walk.{new-IsValid as new-IsList}
use polardb_uncompleted.Utils.{get_key, path_join}

-- A log that holds the records; without records there may be no file.
abbrev pub Logged : Option (List ℕ) → List Record → Type 0
Logged content rs = ((content ≡ none) × (rs ≡ [])) ⊎ (content ≡ some (images rs))

last_with-IsSized :
    (k : ℕ) (r : Record) (rs : List Record) → AllSized rs → last_with k rs ≡ some r → IsSized r
unfolding last_with
last_with-IsSized k r [] z h = absurd cc
last_with-IsSized k r (x ∷ rs) (sized_cons z more) h = elim (Option-cases (last_with k rs)) [
  | inr (y, later) ↦
      let h' = rw (later, last_with) at h in last_with-IsSized k r rs more (later ∙ h')
  | inl gone ↦ elim (Bool-cases (x.key == k)) [
    | inl same ↦ let h' = rw (gone, same, last_with) at h in let e : x ≡ r = cc in rw (← e) z
    | inr off ↦ let h' = rw (gone, off, last_with) at h in absurd cc
  ]
]

last_with-append :
    (k : ℕ) (rs ts : List Record)
    → last_with k (rs ++ ts) ≡ (elim (last_with k ts) [ some x ↦ some x | none ↦ last_with k rs ])
unfolding last_with
last_with-append k [] ts = elim (Option-cases (last_with k ts)) [
  | inl e ↦ rw e refl
  | inr (x, e) ↦ rw e refl
]
last_with-append k (r ∷ rs) ts = elim (Option-cases (last_with k ts)) [
  | inl e ↦ rw (last_with-append k rs ts, e) refl
  | inr (x, e) ↦ rw (last_with-append k rs ts, e) refl
]

-- `read` of a key by what the table has under it.
Present-read :
    (s : DbSystem) (text : List ℕ) (k : ℕ) (r : Record)
    → get_key text ≡ ok k
    → ((i : ℕ) → s.buffer.accessing i ≡ false)
    → Present s k r
    → length r.value_ptr ≡ record_value_len
    → (b : Buffer) × (read s text ≡ ok (some (r.value_ptr, record s { buffer = b })))
unfolding Indexer.get
Present-read s text k r known idle at len =
    let (e, there, is_word) = found_under s.hash_table k _ at.word in
    let slot : get_idx (s.hash_table e).idx ≡ at.place =
      ap get_idx is_word ∙ stored_idx at.place (omega (arith, at.small)) in
    read-slot s text k e at.place r.value_ptr known there slot (in_bounds at.place at.small)
      (idle at.place)
      (got_all (s.buffer.slots at.place) r.value_ptr (ap (λ (x : Record). x.value_ptr) at.slot) len)

absent-read :
    (s : DbSystem) (text : List ℕ) (k : ℕ)
    → get_key text ≡ ok k
    → view s.hash_table k ≡ none
    → read s text ≡ undefined
unfolding Indexer.get read
absent-read s text k known gone = elim (Option-cases (get s.hash_table k)) [
  | inl out ↦ rw (read, known) (rw (read_at, out) refl)
  | inr (e, at) ↦ absurd (cc (gone, view-some s.hash_table k e at))
]

module _ (fs : FileSystem) (type : LogType) (tries : ℕ) (heights : ℕ → ℕ)
    (high : (i : ℕ) → (1 ≤ heights i) × (heights i ≤ skip_list_max_height)) (s : System fs) (n : ℕ)
    (rs : List Record) (sized : AllSized rs) (h : Resting s.db n)
    (room : length rs < length s.db.buffer.idxes_empty) (few : n + length rs ≤ 1024) where
  none-Recovered : Recovered fs s n [] s
  unfolding last_with
  none-Recovered =
      let e : n ≡ n + length {A = Record} [] = omega arith in
      record {
        resting = subst (λ (m : ℕ). Resting s.db m) e h;
        present = λ k r there. absurd cc;
        others = λ k gone. refl;
        kept = λ i there. (there, refl);
        less = omega arith;
        files = refl;
        disk = refl;
      }

  fetch_content-Recovered :
      (content : Option (List ℕ))
      → Logged content rs
      → (s' : System fs) × (fetch_content fs type (suc tries) heights s content ≡ ok (some s'))
        × Recovered fs s n rs s'
  fetch_content-Recovered content (inl (gone, nil)) = (s, rw gone refl, rw nil none-Recovered)
  fetch_content-Recovered content (inr there) =
      let (s', done, z) =
        fetch_bytes-Recovered fs type tries heights high s n rs sized h room few in
      (s', rw there done, z)

not_none : {x : Record} → some x ≡ none → ⊥
not_none e = cc

-- Two logs, one after the other.
both-Recovered :
    (fs : FileSystem) (s s1 s2 : System fs) (n : ℕ) (rs ts : List Record)
    → Recovered fs s n rs s1
    → Recovered fs s1 (n + length rs) ts s2
    → (k : ℕ)
    → ((r : Record) → last_with k (rs ++ ts) ≡ some r → Present s2.db k r)
      × (last_with k (rs ++ ts) ≡ none → view s2.db.hash_table k ≡ view s.db.hash_table k)
both-Recovered fs s s1 s2 n rs ts a b k = elim (Option-cases (last_with k ts)) [
  | inr (x, later) ↦
      let same = last_with-append k rs ts ∙ rw later refl in
      (
        λ r there. b.present k r (later ∙ sym same ∙ there),
        λ gone. absurd (not_none (sym same ∙ gone)),
      )
  | inl none_later ↦
      let same : last_with k (rs ++ ts) ≡ last_with k rs =
        last_with-append k rs ts ∙ rw none_later refl in
      (
        λ r there.
            let p = a.present k r (sym same ∙ there) in
            let (wrote, slot) = b.kept p.place p.wrote in
            record {
              place = p.place;
              small = p.small;
              wrote = wrote;
              word = b.others k none_later ∙ p.word;
              slot = slot ∙ p.slot;
            },
        λ gone. b.others k none_later ∙ a.others k (sym same ∙ gone),
      )
]

pub new_system-Resting : Resting new_system 0
unfolding new_system Slots.new Tables.new
new_system-Resting = record {
  table = record { valid = new-IsValid; room = new-Holds };
  opens = record {
    first = Tables.new 0;
    others = replicate 39 (Tables.new 0);
    is = refl;
    locked = refl;
    dumping = refl;
    lists = λ i. [];
    valid = new-IsList 0;
  };
  slots = new-Partitioned;
  idle = λ i. refl;
}

length-indices : (i n : ℕ) → length (indices i n) ≡ n
unfolding indices
length-indices i zero = refl
length-indices i (suc n) = ap suc (length-indices (suc i) n)

pub slots_of_new : length new_system.buffer.idxes_empty ≡ 1024
unfolding new_system Slots.new
slots_of_new = length-indices 0 1024

view_of_new : (k : ℕ) → view new_system.hash_table k ≡ none
unfolding new_system Table.new if_valid
view_of_new k = view_free Table.new k refl

module _ (fs : FileSystem) (tries : ℕ) (heights : ℕ → ℕ)
    (high : (i : ℕ) → (1 ≤ heights i) × (heights i ≤ skip_list_max_height)) (s : System fs) (n : ℕ)
    (rs : List Record) (sized : AllSized rs) (h : Resting s.db n)
    (room : length rs < length s.db.buffer.idxes_empty) (few : n + length rs ≤ 1024)
    (log : FilePath) (logged : Logged (fs.content s.files log) rs) where
  pub died_log-Recovered :
      path_join (s.disk.basepath ∷ died_log ∷ []) ≡ ok log
      → (s' : System fs) × (init_log_file_and_fetch_data fs died_log_t (suc tries) heights s
          ≡ ok (some s'))
        × Recovered fs s n rs s'
  unfolding init_log_file_and_fetch_data ◌>>+◌
  died_log-Recovered path =
      let (s', done, z) =
        fetch_content-Recovered fs died_log_t tries heights high s n rs sized h room few
          (fs.content s.files log) logged in
      (s', rw path (rw done refl), z)

  -- The hot log is open for appending then.
  hot_log-Recovered :
      path_join (s.disk.basepath ∷ hot_log ∷ []) ≡ ok log
      → (s' : System fs) × (last : System fs) × (init_log_file_and_fetch_data fs hot_log_t
            (suc tries)
            heights
            s
          ≡ ok (some last))
        × Recovered fs s n rs s'
        × (last.db ≡ s'.db)
        × (last.disk.curr_log_fd ≡ append_to log)
  unfolding init_log_file_and_fetch_data ◌>>+◌ open_hot_log
  hot_log-Recovered path =
      let (s', done, z) =
        fetch_content-Recovered fs hot_log_t tries heights high s n rs sized h room few
          (fs.content s.files log) logged in
      let path' : path_join (s'.disk.basepath ∷ hot_log ∷ []) ≡ ok log = rw (z.disk) path in
      (
        s',
        record s' {
          files = fs.create s'.files log;
          disk = record s'.disk { curr_log_fd = append_to log };
        },
        rw path (rw done (rw path' refl)),
        z,
        refl,
        refl,
      )

-- The value that a call of `read` gives, without the state.
abbrev pub value_of : Run (Option (List ℕ × DbSystem)) → Run (Option (List ℕ))
value_of (ok none) = ok none
value_of (ok (some (value, s))) = ok (some value)
value_of assertion_failed = assertion_failed
value_of undefined = undefined

abbrev pub value_in : Option Record → Run (Option (List ℕ))
value_in none = undefined
value_in (some r) = ok (some r.value_ptr)

both-read :
    (fs : FileSystem) (s s1 s2 : System fs) (n : ℕ) (rs ts : List Record) (text : List ℕ) (k : ℕ)
    → AllSized rs
    → AllSized ts
    → Recovered fs s n rs s1
    → Recovered fs s1 (n + length rs) ts s2
    → get_key text ≡ ok k
    → view s.db.hash_table k ≡ none
    → value_of (read s2.db text) ≡ value_in (last_with k (rs ++ ts))
both-read fs s s1 s2 n rs ts text k sized_rs sized_ts a b known empty =
    let both = both-Recovered fs s s1 s2 n rs ts a b k in
    elim (Option-cases (last_with k (rs ++ ts))) [
      | inl gone ↦ rw gone (ap value_of (absent-read s2.db text k known (both.1 gone ∙ empty)))
      | inr (r, at) ↦
          let sized =
            last_with-IsSized k r (rs ++ ts) (append-AllSized rs ts sized_rs sized_ts) at in
          let (buffer, got) =
            Present-read s2.db text k r known b.resting.idle (both.0 r at) sized.value in
          rw at (ap value_of got)
    ]

-- `init` of a directory with a died and a hot log of fewer than 1024 whole records together comes to
-- its end, without waiting, and leaves the hot log open for appending. `read` of a string with a key
-- then gives the value of the last record with that key in the died log followed by the hot log, and
-- is undefined when there is none. A log without records may be missing; the paths exist, the
-- manifest is read, and new nodes get heights from 1 to 12.
pub init_system-read :
    (fs : FileSystem) (tries : ℕ) (heights : ℕ → ℕ) (files : fs.Files)
    (base_path died hot : FilePath) (manifester : Manifester) (rs ts : List Record) (text : List ℕ)
    (k : ℕ)
    → ((i : ℕ) → (1 ≤ heights i) × (heights i ≤ skip_list_max_height))
    → path_join (base_path ∷ died_log ∷ []) ≡ ok died
    → path_join (base_path ∷ hot_log ∷ []) ≡ ok hot
    → Manifest.new fs files (Manager.new base_path) ≡ ok manifester
    → Logged (fs.content files died) rs
    → Logged (fs.content files hot) ts
    → AllSized rs
    → AllSized ts
    → length rs + length ts < 1024
    → get_key text ≡ ok k
    → (s : System fs) × (init_system fs (suc tries) heights files base_path
        ≡ ok (some (s, manifester)))
      × (s.disk.curr_log_fd ≡ append_to hot)
      × (value_of (read s.db text) ≡ value_in (last_with k (rs ++ ts)))
unfolding init_system Manager.new ◌>>+◌
init_system-read fs tries heights files base_path died hot manifester rs ts text k high to_died
      to_hot listed in_died in_hot sized_rs sized_ts small known =
    let start : System fs = record {
      db = new_system;
      dump_queue = [];
      files = files;
      disk = Manager.new base_path;
    } in
    let slots = slots_of_new in
    let (s1, first, a) =
      died_log-Recovered fs tries heights high start 0 rs sized_rs new_system-Resting
        (omega (arith, slots, small)) (omega (arith, small)) died in_died to_died in
    let in_hot1 : Logged (fs.content s1.files hot) ts = rw (a.files) in_hot in
    let to_hot1 : path_join (s1.disk.basepath ∷ hot_log ∷ []) ≡ ok hot = rw (a.disk) to_hot in
    let (s2, s3, second, b, same, opened) =
      hot_log-Recovered fs tries heights high s1 (0 + length rs) ts sized_ts a.resting
        (omega (arith, a.less, slots, small)) (omega (arith, small)) hot in_hot1 to_hot1 in
    (
      s3,
      steps_on (at_once (Manifest.new fs files (Manager.new base_path))) _ manifester
            (ap at_once listed)
          ∙ steps_on (init_log_file_and_fetch_data fs died_log_t (suc tries) heights start) _ s1
              first
          ∙ steps_on (init_log_file_and_fetch_data fs hot_log_t (suc tries) heights s1) _ s3 second,
      opened,
      rw same (both-read fs start s1 s2 0 rs ts text k sized_rs sized_ts a b known (view_of_new k)),
    )
