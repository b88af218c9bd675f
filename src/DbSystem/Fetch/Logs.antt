-- ===== src/DbSystem/Fetch/Logs.antt =====
-- After `init_log_file_and_fetch_data` the records of the log can be read.
use polardb_uncompleted.Base.{
  ℕ, suc, ◌+◌, ◌≤◌, ◌<◌, ◌≡◌, ◌≢◌, refl, ap, ◌∙◌, Bool, true, false, none, some, List, [], ◌∷◌,
  length, length-append, ◌==◌, if◌then◌else◌, write, ==_refl, arith, ℕ_discrete,
}
use polardb_uncompleted.Base.Run.{ok}
use polardb_uncompleted.Buffer.{Buffer, record_buff_size, end_access, member}
use polardb_uncompleted.Buffer.Record.{Record}
use polardb_uncompleted.Buffer.Slots.{IsValid as Partitioned}
use polardb_uncompleted.DbSystem.{DbSystem, index_to_buffer}
use polardb_uncompleted.DbSystem.Call.{◌>>+◌}
use polardb_uncompleted.DbSystem.Fetch.{LogType, fetch_bytes}
use polardb_uncompleted.DbSystem.Fetch.Loop.{Reading, Fetched, last_with, fetch_loop-Fetched}
use polardb_uncompleted.DbSystem.Fetch.Requests.{
  Taken, next_slot-Taken, Released, release_buff-Released,
}
use polardb_uncompleted.DbSystem.Fetch.Step.{FirstOpen, IsRoomy}
use polardb_uncompleted.DbSystem.Write.{System}
use polardb_uncompleted.Disk.Files.{FileSystem}
use polardb_uncompleted.Disk.Image.{length-image, image}
use polardb_uncompleted.Disk.Log.{AllSized, sized_cons, images}
use polardb_uncompleted.Index.{set_in_hash}
use polardb_uncompleted.IndexHashMap.View.{view}
use polardb_uncompleted.SkipList.{skip_list_max_height}

-- No slot is accessed; the hash table has at most `n` entries.
pub record Resting (s : DbSystem) (n : ℕ) : Type 0 where
  pub table : IsRoomy s.hash_table n
  pub opens : FirstOpen s.mem_tables
  pub slots : Partitioned s.buffer
  pub idle : (i : ℕ) → s.buffer.accessing i ≡ false

-- The hash table has a written slot with the record under the key.
pub record Present (s : DbSystem) (k : ℕ) (r : Record) : Type 0 where
  pub place : ℕ
  pub small : place < record_buff_size
  pub wrote : member place s.buffer.idxes_wrote ≡ true
  pub word : view s.hash_table k ≡ some (set_in_hash (index_to_buffer place) true)
  pub slot : s.buffer.slots place ≡ r

module _ (fs : FileSystem) where
  pub record Recovered (s : System fs) (n : ℕ) (rs : List Record) (s' : System fs) : Type 0 where
    pub resting : Resting s'.db (n + length rs)
    pub present : (k : ℕ) (r : Record) → last_with k rs ≡ some r → Present s'.db k r
    pub others : (k : ℕ) → last_with k rs ≡ none → view s'.db.hash_table k ≡ view s.db.hash_table k
    pub kept :
        (i : ℕ)
        → member i s.db.buffer.idxes_wrote ≡ true
        → (member i s'.db.buffer.idxes_wrote ≡ true) × (s'.db.buffer.slots i ≡ s.db.buffer.slots i)
    pub less : length s'.db.buffer.idxes_empty + length rs ≡ length s.db.buffer.idxes_empty
    pub files : s'.files ≡ s.files
    pub disk : s'.disk ≡ s.disk

length-images_le : (rs : List Record) → AllSized rs → length rs ≤ length (images rs)
unfolding images
length-images_le [] z = omega arith
length-images_le (r ∷ rs) (sized_cons z more) =
    omega (arith, length-append (image r) (images rs), length-image r z, length-images_le rs more)

passed :
    (b : Buffer) (last i : ℕ)
    → i ≢ last
    → (if i == last then false else member i b.idxes_wrote) ≡ member i b.idxes_wrote
passed b last i ne = let off : (i == last) ≡ false = ground (arith, ne) in rw off refl

ended :
    (b : Buffer) (last : ℕ)
    → ((i : ℕ) → i ≢ last → b.accessing i ≡ false)
    → (i : ℕ) → (end_access b last).accessing i ≡ false
unfolding end_access write
ended b last idle i = elim (ℕ_discrete i last) [
  | yes e ↦ rw (e, ==_refl last) refl
  | no ne ↦ let off : (last == i) ≡ false = ground (arith, ne) in rw off (idle i ne)
]

-- The end of the loop, with the last slot given back.
module _ (fs : FileSystem) (s s1 : System fs) (n idx last : ℕ) (buffer released : Buffer)
    (rs : List Record) (t : Taken s.db.buffer idx buffer)
    (z : Fetched fs (record s { db = record (s.db) { buffer = buffer } }) n idx rs s1 last)
    (f : Released (end_access s1.db.buffer last) last released) where
  same_slots : released.slots ≡ s1.db.buffer.slots
  unfolding end_access
  same_slots = f.slots

  still : (i : ℕ) → i ≢ last → member i released.idxes_wrote ≡ member i s1.db.buffer.idxes_wrote
  unfolding end_access
  still i ne = f.wrote i ∙ passed s1.db.buffer last i ne

  kept_on :
      (i : ℕ)
      → member i s.db.buffer.idxes_wrote ≡ true
      → (member i released.idxes_wrote ≡ true) × (released.slots i ≡ s.db.buffer.slots i)
  kept_on i there =
      let ne : i ≢ idx = λ e. cc (there, t.fresh, ap (λ j. member j s.db.buffer.idxes_wrote) e) in
      let there' : member i buffer.idxes_wrote ≡ true = rw (t.wrote) (ground (arith, there)) in
      let (a, b, c) = z.kept i ne there' in
      (
        still i b ∙ a,
        ap (λ (g : ℕ → Record). g i) same_slots ∙ c ∙ ap (λ (g : ℕ → Record). g i) t.slots,
      )

  Released-Recovered : Recovered fs s n rs (record s1 { db = record (s1.db) { buffer = released } })
  unfolding end_access
  Released-Recovered = record {
    resting = record {
      table = z.reading.table;
      opens = z.reading.opens;
      slots = f.valid;
      idle = λ i. ap (λ (g : ℕ → Bool). g i) f.accessing ∙ ended s1.db.buffer last z.reading.idle i;
    };
    present = λ k r there.
        let a = z.recalled k r there in
        record {
          place = a.place;
          small = a.small;
          wrote = still a.place a.other ∙ a.wrote;
          word = a.word;
          slot = ap (λ (g : ℕ → Record). g a.place) same_slots ∙ a.slot;
        };
    others = z.others;
    kept = kept_on;
    less = omega (arith, f.more, z.less, t.less);
    files = z.files;
    disk = z.disk;
  }

module _ (fs : FileSystem) (type : LogType) (tries : ℕ) (heights : ℕ → ℕ)
    (high : (i : ℕ) → (1 ≤ heights i) × (heights i ≤ skip_list_max_height)) (s : System fs) (n : ℕ)
    (rs : List Record) (sized : AllSized rs) (h : Resting s.db n)
    (room : length rs < length s.db.buffer.idxes_empty) (few : n + length rs ≤ 1024) where
  pub fetch_bytes-Recovered :
      (s' : System fs) × (fetch_bytes fs type (suc tries) heights s (images rs) ≡ ok (some s'))
      × Recovered fs s n rs s'
  unfolding fetch_bytes ◌>>+◌ end_access
  fetch_bytes-Recovered =
      let (idx, buffer, got, t) =
        next_slot-Taken s.db.buffer h.slots (omega (arith, room)) h.idle in
      let start : System fs = record s { db = record (s.db) { buffer = buffer } } in
      let reading : Reading start.db n idx = record {
        table = h.table;
        opens = h.opens;
        slots = t.valid;
        small = t.small;
        here = rw (t.wrote) (ground arith);
        idle = t.idle;
      } in
      let (s1, last, done, z) =
        fetch_loop-Fetched fs type tries heights (suc (length (images rs))) start n idx rs high
          sized (omega (arith, length-images_le rs sized)) reading (omega (arith, room, t.less))
          few in
      let closed : Buffer = end_access s1.db.buffer last in
      let parts : Partitioned closed = record {
        partition = z.reading.slots.partition;
        mapped = z.reading.slots.mapped;
      } in
      let here : member last closed.idxes_wrote ≡ true = z.reading.here in
      let (released, freed, f) = release_buff-Released closed last parts here in
      (
        record s1 { db = record (s1.db) { buffer = released } },
        rw got (rw done (rw freed refl)),
        Released-Recovered fs s s1 n idx last buffer released rs t z f,
      )
