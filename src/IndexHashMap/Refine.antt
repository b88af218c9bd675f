-- ===== src/IndexHashMap/Refine.antt =====
-- Class IndexHashMap implements a map from keys to status words.
use polardb_uncompleted.Base.{
  ℕ, ◌<◌, ◌≡◌, ◌≢◌, refl, sym, ap, ◌∙◌, ◌⊎◌, inl, inr, true, false, none, some, arith, ◌==◌,
  if◌then◌else◌, write, ℕ_discrete, Bool-cases, fun_ext, ==_refl,
}
use polardb_uncompleted.Base.Run.{ok}
use polardb_uncompleted.Index.{Index, set_in_hash}
use polardb_uncompleted.Index.Word.{set_in_hash-if_in_hash, if_in_hash-if_valid}
use polardb_uncompleted.IndexHashMap.Hash.{hash_table_size, hash_key}
use polardb_uncompleted.IndexHashMap.Search.{search_from-skip}
use polardb_uncompleted.IndexHashMap.View.{
  view, IsValid, search_cases, view_out, view_free, view_found,
}
use polardb_uncompleted.IndexHashMap.{
  IndexHashMap, is_free, stops, search, search_from, stored, update,
}

module _ (m : IndexHashMap) (key : ℕ) (index : Index) (valid : IsValid m)
    (room : (search m key).search_cnt < hash_table_size) where
  slot : ℕ
  slot = (search m key).entry

  after : IndexHashMap
  unfolding slot
  after = write m slot (stored (m slot) key index)

  slot-stops : stops m key slot ≡ true
  unfolding slot
  slot-stops = elim (search_cases m key) [ inl (t, lt) ↦ t | inr out ↦ absurd (omega arith) ]

  after_at : after slot ≡ record { key = key; idx = set_in_hash index true }
  unfolding after write stored stops
  after_at = ground (arith, slot-stops)

  after_off : (j : ℕ) → j ≢ slot → after j ≡ m j
  unfolding after write
  after_off j n = ground arith

  after_used : is_free (after slot) ≡ false
  after_used = rw after_at (if_in_hash-if_valid _ (set_in_hash-if_in_hash index))

  stops_at : (q : ℕ) → stops after q slot ≡ (key == q)
  unfolding stops
  stops_at q = ground (arith, after_at, after_used)

  stops_off : (q j : ℕ) → j ≢ slot → stops after q j ≡ stops m q j
  unfolding stops
  stops_off q j n = rw (after_off j n)

  stops-slot : (q : ℕ) → (q ≡ key) ⊎ (stops m q slot ≡ false) → (key == q) ≡ stops m q slot
  unfolding stops
  stops-slot q c = ground (arith, slot-stops)

  stops_same :
      (q : ℕ) → (q ≡ key) ⊎ (stops m q slot ≡ false) → (j : ℕ) → stops after q j ≡ stops m q j
  stops_same q c j = elim (ℕ_discrete j slot) [
    | yes e ↦ rw e (stops_at q ∙ stops-slot q c)
    | no n ↦ stops_off q j n
  ]

  search_unchanged : (q : ℕ) → (q ≡ key) ⊎ (stops m q slot ≡ false) → search after q ≡ search m q
  unfolding search
  search_unchanged q c = ap (search_from (hash_key q)) (fun_ext (stops_same q c))

  -- A search that did not end at the slot is the same afterwards.
  search_same :
      (q : ℕ)
      → ((search m q).search_cnt < hash_table_size → (search m q).entry ≢ slot)
      → search after q ≡ search m q
  unfolding search
  search_same q c = elim (Bool-cases (stops m q slot)) [
    | inl t ↦ search_from-skip (stops m q) (stops after q) slot (stops_off q) t (hash_key q) c
    | inr f ↦ search_unchanged q (inr f)
  ]

  placed_at : ((search after key).entry ≡ slot) × ((search after key).search_cnt < hash_table_size)
  unfolding slot
  placed_at = rw (search_unchanged key (inl refl)) (refl, room)

  placed_off :
      (p : ℕ)
      → p ≢ slot
      → is_free (m p) ≡ false
      → ((search after (m p).key).entry ≡ p)
        × ((search after (m p).key).search_cnt < hash_table_size)
  placed_off p n used =
      let old = valid.placed p used in rw (search_same (m p).key (λ lt e. n (sym old.0 ∙ e))) old

  after-IsValid : IsValid after
  after-IsValid = record {
    placed = λ p used. elim (ℕ_discrete p slot) [
      | yes e ↦ rw (e, after_at) placed_at
      | no n ↦ rw (after_off p n) (placed_off p n (rw (after_off p n) at used))
    ];
    hashed = λ p used. elim (ℕ_discrete p slot) [
      | yes e ↦ rw (e, after_at) (set_in_hash-if_in_hash index)
      | no n ↦ rw (after_off p n) (valid.hashed p (rw (after_off p n) at used))
    ];
  }

  view_key : view after key ≡ some (set_in_hash index true)
  view_key =
      view_found after key placed_at.1 (rw placed_at.0 after_used) ∙ rw (placed_at.0, after_at)

  module _ (q : ℕ) where
    -- The search for `q` ended elsewhere.
    view_apart :
        ((search m q).search_cnt < hash_table_size → (search m q).entry ≢ slot)
        → view after q ≡ view m q
    view_apart c =
        let same = search_same q c in
        elim (search_cases m q) [
          | inr out ↦ view_out after q (rw same out) ∙ sym (view_out m q out)
          | inl (t, lt) ↦ elim (Bool-cases (is_free (m (search m q).entry))) [
            | inl free ↦
                view_free after q (rw (same, after_off _ (c lt)) free) ∙ sym (view_free m q free)
            | inr used ↦
                view_found after q (rw same lt) (rw (same, after_off _ (c lt)) used)
                ∙ rw (same, after_off _ (c lt)) (sym (view_found m q lt used))
          ]
        ]

    module _ (ne : q ≢ key) (at : (search m q).entry ≡ slot) where
      other_key : (key == q) ≡ false
      other_key = ground arith

      stops_key : (j : ℕ) → stops m q j ≡ true → is_free (m j) ≡ false → (m j).key ≡ q
      unfolding stops
      stops_key j t used = ground arith

      -- No slot in use has the key `q`, or the search would have ended there.
      no_entry : (j : ℕ) → stops after q j ≡ true → is_free (after j) ≡ true
      no_entry j t = elim (Bool-cases (is_free (after j))) [
        | inl free ↦ free
        | inr used ↦ elim (ℕ_discrete j slot) [
          | yes e ↦ let u = rw e at t in cc (u, stops_at q, other_key)
          | no n ↦
              let used' = rw (after_off j n) at used in
              let k = stops_key j (rw (stops_off q j n) at t) used' in
              let found = rw k at (valid.placed j used').0 in absurd (n (sym found ∙ at))
        ]
      ]

      slot_free : stops m q slot ≡ true → is_free (m slot) ≡ true
      unfolding stops
      slot_free t = ground (arith, slot-stops)

      view_gone : stops m q (search m q).entry ≡ true → view after q ≡ view m q
      view_gone t = gone ∙ sym (view_free m q (rw at (slot_free (rw at at t))))
        where
          gone : view after q ≡ none
          gone = elim (search_cases after q) [
            | inr out ↦ view_out after q out
            | inl (u, lt) ↦ view_free after q (no_entry _ u)
          ]

    view_other : q ≢ key → view after q ≡ view m q
    view_other ne = elim (ℕ_discrete (search m q).entry slot) [
      | no n ↦ view_apart (λ lt. n)
      | yes at ↦ elim (search_cases m q) [
        | inr out ↦ view_apart (λ lt e. absurd (omega arith))
        | inl (t, lt) ↦ view_gone ne at t
      ]
    ]

  view-after :
      (q : ℕ) → view after q ≡ (if q == key then some (set_in_hash index true) else view m q)
  view-after q = elim (ℕ_discrete q key) [
    | yes e ↦ rw (e, ==_refl) view_key
    | no n ↦ ground (arith, view_other q n)
  ]

  update-after : update m key index ≡ ok (after, (search m key).search_cnt)
  unfolding update after slot
  update-after = ground arith

update-room :
    (m : IndexHashMap) (key : ℕ) (index : Index) {m' : IndexHashMap} {cnt : ℕ}
    → update m key index ≡ ok (m', cnt)
    → (search m key).search_cnt < hash_table_size
unfolding update
update-room m key index h = ground arith

-- An `update` that returns keeps the table well formed, changes what is found under its key to the
-- given word with `in_hash` set, and changes nothing under any other key.
pub update-Writes :
    (m : IndexHashMap) (key : ℕ) (index : Index)
    → IsValid m
    → (m' : IndexHashMap) (cnt : ℕ) → update m key index ≡ ok (m', cnt)
    → IsValid m'
      × ((q : ℕ) → view m' q ≡ (if q == key then some (set_in_hash index true) else view m q))
update-Writes m key index valid m' cnt h =
    let room = update-room m key index h in
    let e : after m key index valid room ≡ m' = cc (update-after m key index valid room) in
    rw (← e) (after-IsValid m key index valid room, view-after m key index valid room)
