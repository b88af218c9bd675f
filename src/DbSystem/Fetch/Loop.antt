-- ===== src/DbSystem/Fetch/Loop.antt =====
-- The recovery loop, for a log of whole records that fit into the free slots.
use polardb_uncompleted.Base.{
  ℕ, zero, suc, ◌+◌, ◌≤◌, ◌<◌, ◌≡◌, ◌≢◌, refl, ap, ◌∙◌, sym, subst, inl, inr, true, false, Option,
  none, some, List, [], ◌∷◌, length, ◌==◌, if◌then◌else◌, write, arith, Bool-cases, Option-cases,
  ==_refl,
}
use polardb_uncompleted.Base.Run.{Run, ok}
use polardb_uncompleted.Buffer.{Buffer, record_buff_size, end_access, if_full, member}
use polardb_uncompleted.Buffer.Record.{Record}
use polardb_uncompleted.Buffer.Slots.{IsValid as Partitioned}
use polardb_uncompleted.DbSystem.{DbSystem, index_to_buffer}
use polardb_uncompleted.DbSystem.Call.{◌>>+◌}
use polardb_uncompleted.DbSystem.Fetch.{
  LogType, after_read, next_slot, fetch_record, fetch_loop, dump_if_taken,
}
use polardb_uncompleted.DbSystem.Fetch.Requests.{next_slot-Taken}
use polardb_uncompleted.DbSystem.Fetch.Step.{FirstOpen, IsRoomy, write_recover-Places}
use polardb_uncompleted.DbSystem.Write.{System}
use polardb_uncompleted.Disk.Files.{FileSystem}
use polardb_uncompleted.Disk.Image.{
  take-append, drop-append, record_size, image, of_image, length-image, of_image-image,
}
use polardb_uncompleted.Disk.Log.{AllSized, sized_cons, images}
use polardb_uncompleted.Index.{set_in_hash}
use polardb_uncompleted.IndexHashMap.View.{view}
use polardb_uncompleted.SkipList.{skip_list_max_height}

-- The loop is about to read into slot `idx`; the hash table has at most `n` entries.
pub record Reading (s : DbSystem) (n idx : ℕ) : Type 0 where
  pub table : IsRoomy s.hash_table n
  pub opens : FirstOpen s.mem_tables
  pub slots : Partitioned s.buffer
  pub small : idx < record_buff_size
  pub here : member idx s.buffer.idxes_wrote ≡ true
  pub idle : (i : ℕ) → i ≢ idx → s.buffer.accessing i ≡ false

module _ (fs : FileSystem) (s : System fs) (idx : ℕ) (r : Record) where
  -- The record is in slot `idx`, and slot `next` is about to be read into.
  pub record Round (n next : ℕ) (s' : System fs) : Type 0 where
    pub reading : Reading s'.db (suc n) next
    pub view :
        (q : ℕ)
        → view s'.db.hash_table q ≡ (
            if q == r.key
            then some (set_in_hash (index_to_buffer idx) true)
            else view s.db.hash_table q)
    pub slots : (i : ℕ) → s'.db.buffer.slots i ≡ (if idx == i then r else s.db.buffer.slots i)
    pub fresh : member next s.db.buffer.idxes_wrote ≡ false
    pub wrote : s'.db.buffer.idxes_wrote ≡ next ∷ s.db.buffer.idxes_wrote
    pub less : suc (length s'.db.buffer.idxes_empty) ≡ length s.db.buffer.idxes_empty
    pub files : s'.files ≡ s.files
    pub disk : s'.disk ≡ s.disk

  abbrev filled : Buffer
  filled = end_access (record s.db.buffer { slots = write s.db.buffer.slots idx r }) idx

  same_key : (filled.slots idx).key ≡ r.key
  unfolding end_access write
  same_key = rw (==_refl idx) refl

  not_full : 0 < length s.db.buffer.idxes_empty → if_full filled ≡ false
  unfolding if_full end_access
  not_full room = some_left s.db.buffer.idxes_empty room
    where
      some_left : (xs : List ℕ) → 0 < length xs → (elim xs [ [] ↦ true | _ ∷ _ ↦ false ]) ≡ false
      some_left [] h = absurd (omega (arith, h))
      some_left (x ∷ xs) h = refl

  module _ (type : LogType) (tries height n : ℕ) (h : Reading s.db n idx)
      (room : 0 < length s.db.buffer.idxes_empty) (few : n ≤ 1024) (low : 1 ≤ height)
      (high : height ≤ skip_list_max_height) where
    pub fetch_record-Round :
        (s1 : System fs) × (next : ℕ) × (buffer : Buffer) × (fetch_record fs type
            (suc tries)
            height
            s
            idx
            r
          ≡ ok (some (true, s1)))
        × (next_slot s1.db.buffer ≡ ok (some (next, buffer)))
        × Round n next (record s1 { db = record (s1.db) { buffer = buffer } })
    unfolding fetch_record dump_if_taken ◌>>+◌ end_access write
    fetch_record-Round =
        let start : DbSystem = record s.db { buffer = filled } in
        let (db', done, z) =
          write_recover-Places tries height start idx n h.table h.opens h.small few low high in
        let idle : (i : ℕ) → db'.buffer.accessing i ≡ false =
          λ i. rw (z.buffer) (unfold end_access write in ground (arith, h.idle i)) in
        let parts : Partitioned db'.buffer =
          rw (z.buffer) (record { partition = h.slots.partition; mapped = h.slots.mapped }) in
        let left : 0 < length db'.buffer.idxes_empty = rw (z.buffer) room in
        let (next, buffer, got, taken) = next_slot-Taken db'.buffer parts left idle in
        let room' : if_full db'.buffer ≡ false = rw (z.buffer) (not_full room) in
        (
          record s { db = db' },
          next,
          buffer,
          rw (fetch_record, done) (rw room' refl),
          got,
          record {
            reading = record {
              table = z.table;
              opens = z.opens;
              slots = taken.valid;
              small = taken.small;
              here = rw (taken.wrote) (rw (==_refl next) refl);
              idle = taken.idle;
            };
            view = λ q.
                subst
                  (λ (k : ℕ). view db'.hash_table q ≡ (
                    if q == k
                    then some (set_in_hash (index_to_buffer idx) true)
                    else view s.db.hash_table q))
                  same_key (z.view q);
            slots = λ i.
                ap (λ (f : ℕ → Record). f i) (taken.slots ∙ ap (λ (b : Buffer). b.slots) z.buffer);
            fresh = rw (ap (λ (b : Buffer). member next b.idxes_wrote) (sym z.buffer)) taken.fresh;
            wrote = taken.wrote ∙ ap (λ (b : Buffer). next ∷ b.idxes_wrote) z.buffer;
            less = taken.less ∙ ap (λ (b : Buffer). length b.idxes_empty) z.buffer;
            files = refl;
            disk = refl;
          },
        )

-- The last record with a key.
unfoldable pub last_with : ℕ → List Record → Option Record
last_with k [] = none
last_with k (r ∷ rs) = elim (last_with k rs) [
  | some x ↦ some x
  | none ↦ if r.key == k then some r else none
]

-- The hash table has the slot of the record under the key, and the slot is not the one that is read
-- into.
pub record Recalled (s : DbSystem) (last k : ℕ) (r : Record) : Type 0 where
  pub place : ℕ
  pub small : place < record_buff_size
  pub other : place ≢ last
  pub wrote : member place s.buffer.idxes_wrote ≡ true
  pub word : view s.hash_table k ≡ some (set_in_hash (index_to_buffer place) true)
  pub slot : s.buffer.slots place ≡ r

module _ (fs : FileSystem) where
  pub record Fetched (s : System fs) (n idx : ℕ) (rs : List Record) (s' : System fs) (last : ℕ)
      : Type 0 where
    pub reading : Reading s'.db (n + length rs) last
    pub recalled : (k : ℕ) (r : Record) → last_with k rs ≡ some r → Recalled s'.db last k r
    pub others : (k : ℕ) → last_with k rs ≡ none → view s'.db.hash_table k ≡ view s.db.hash_table k
    pub kept :
        (i : ℕ)
        → i ≢ idx
        → member i s.db.buffer.idxes_wrote ≡ true
        → (member i s'.db.buffer.idxes_wrote ≡ true)
          × (i ≢ last)
          × (s'.db.buffer.slots i ≡ s.db.buffer.slots i)
    pub less : length s'.db.buffer.idxes_empty + length rs ≡ length s.db.buffer.idxes_empty
    pub files : s'.files ≡ s.files
    pub disk : s'.disk ≡ s.disk

  none-Fetched : (s : System fs) (n idx : ℕ) → Reading s.db n idx → Fetched s n idx [] s idx
  unfolding last_with
  none-Fetched s n idx h =
      let e : n ≡ n + length {A = Record} [] = omega arith in
      record {
        reading = subst (λ (m : ℕ). Reading s.db m idx) e h;
        recalled = λ k r there. absurd cc;
        others = λ k gone. refl;
        kept = λ i ne there. (there, ne, refl);
        less = omega arith;
        files = refl;
        disk = refl;
      }

  module _ (s s1 s' : System fs) (n idx next last : ℕ) (r : Record) (rs : List Record)
      (h : Reading s.db n idx) (round : Round fs s idx r n next s1)
      (z : Fetched s1 (suc n) next rs s' last) where
    -- A written slot is not the next one.
    kept_more :
        (i : ℕ)
        → member i s.db.buffer.idxes_wrote ≡ true
        → (member i s'.db.buffer.idxes_wrote ≡ true)
          × (i ≢ last)
          × (s'.db.buffer.slots i ≡ (if idx == i then r else s.db.buffer.slots i))
    kept_more i there =
        let ne : i ≢ next =
          λ e. cc (there, round.fresh, ap (λ j. member j s.db.buffer.idxes_wrote) e) in
        let there' : member i s1.db.buffer.idxes_wrote ≡ true =
          rw (round.wrote) (unfold_or i ne there) in
        let (a, b, c) = z.kept i ne there' in (a, b, c ∙ round.slots i)
      where
        unfold_or :
            (i : ℕ)
            → i ≢ next
            → member i s.db.buffer.idxes_wrote ≡ true
            → member i (next ∷ s.db.buffer.idxes_wrote) ≡ true
        unfold_or i ne there = ground (arith, there)

    Round-Recalled :
        (k : ℕ) (x : Record)
        → last_with k rs ≡ none
        → (r.key == k) ≡ true
        → r ≡ x
        → Recalled s'.db last k x
    Round-Recalled k x gone same e =
        let (a, b, c) = kept_more idx h.here in
        record {
          place = idx;
          small = h.small;
          other = b;
          wrote = a;
          word = z.others k gone ∙ round.view k ∙ ground (arith, same);
          slot = c ∙ rw (==_refl idx) e;
        }

    last_with-Recalled :
        (k : ℕ) (x : Record) → last_with k (r ∷ rs) ≡ some x → Recalled s'.db last k x
    unfolding last_with
    last_with-Recalled k x there = elim (Option-cases (last_with k rs)) [
      | inr (y, later) ↦
          let there' = rw (later, last_with) at there in z.recalled k x (later ∙ there')
      | inl gone ↦ elim (Bool-cases (r.key == k)) [
        | inl same ↦
            let there' = rw (gone, same, last_with) at there in
            let e : r ≡ x = cc in Round-Recalled k x gone same e
        | inr off ↦ let there' = rw (gone, off, last_with) at there in absurd cc
      ]
    ]

    others_more :
        (k : ℕ) → last_with k (r ∷ rs) ≡ none → view s'.db.hash_table k ≡ view s.db.hash_table k
    unfolding last_with
    others_more k there = elim (Option-cases (last_with k rs)) [
      | inr (y, later) ↦ let there' = rw (later, last_with) at there in absurd cc
      | inl gone ↦ elim (Bool-cases (r.key == k)) [
        | inl same ↦ let there' = rw (gone, same, last_with) at there in absurd cc
        | inr off ↦ z.others k gone ∙ round.view k ∙ ground (arith, off)
      ]
    ]

    Round-Fetched : Fetched s n idx (r ∷ rs) s' last
    Round-Fetched =
        let e : suc n + length rs ≡ n + length (r ∷ rs) = omega arith in
        record {
          reading = subst (λ (m : ℕ). Reading s'.db m last) e z.reading;
          recalled = last_with-Recalled;
          others = others_more;
          kept = λ i ne there.
              let (a, b, c) = kept_more i there in
              let off : (idx == i) ≡ false = ground (arith, ne) in (a, b, c ∙ rw off refl);
          less = omega (arith, z.less, round.less);
          files = z.files ∙ round.files;
          disk = z.disk ∙ round.disk;
        }

pub after_read-whole {ℓ} :
    {A : Type ℓ} (s : List ℕ) (end : Run A) (body : Record → Run A)
    → length s ≡ record_size
    → after_read s end body ≡ body (of_image s)
after_read-whole [] end body h = absurd (omega (arith, h))
after_read-whole (b ∷ s) end body h =
    let same : (length (b ∷ s) == record_size) ≡ true = ground (arith, h) in rw same refl

-- The loop reads every record of the log, when there are as many free slots as records.
pub fetch_loop-Fetched :
    (fs : FileSystem) (type : LogType) (tries : ℕ) (heights : ℕ → ℕ) (rounds : ℕ) (s : System fs)
    (n idx : ℕ) (rs : List Record)
    → ((i : ℕ) → (1 ≤ heights i) × (heights i ≤ skip_list_max_height))
    → AllSized rs
    → length rs < rounds
    → Reading s.db n idx
    → length rs ≤ length s.db.buffer.idxes_empty
    → n + length rs ≤ 1024
    → (s' : System fs) × (last : ℕ) × (fetch_loop fs type
          (suc tries)
          heights
          rounds
          true
          s
          idx
          (images rs)
        ≡ ok (some (last, s')))
      × Fetched fs s n idx rs s' last
unfolding fetch_loop images ◌>>+◌
fetch_loop-Fetched fs type tries heights zero s n idx rs high sized enough h room few =
    absurd (omega arith)
fetch_loop-Fetched fs type tries heights (suc rounds) s n idx [] high sized enough h room few =
    (s, idx, refl, none-Fetched fs s n idx h)
fetch_loop-Fetched fs type tries heights (suc rounds) s n idx (r ∷ rs) high (sized_cons sized more)
      enough h room few =
    let (s1, next, buffer, fetched, got, z) =
      fetch_record-Round fs s idx r type tries (heights rounds) n h (omega (arith, room))
        (omega (arith, few)) (high rounds).0 (high rounds).1 in
    let s2 : System fs = record s1 { db = record (s1.db) { buffer = buffer } } in
    let (s', last, done, all) =
      fetch_loop-Fetched fs type tries heights rounds s2 (suc n) next rs high more (omega arith)
        z.reading (omega (arith, z.less, room)) (omega (arith, few)) in
    let len = length-image r sized in
    (
      s',
      last,
      rw
          (
            take-append record_size (image r) (images rs) len,
            drop-append record_size (image r) (images rs) len,
          )
          (after_read-whole (image r) _ _ len ∙ rw (of_image-image r sized, fetched) (rw got done)),
      Round-Fetched fs s s2 s' n idx next last r rs h z all,
    )
