-- ===== src/Example/DoorPlate/Update.antt =====
-- `AddOrUpdate` as a change to what `Find` finds.
use polardb_uncompleted.Base.{
  ℕ, ◌%◌, ◌≤◌, ◌<◌, ◌≡◌, ◌≢◌, refl, ap, ◌∙◌, sym, ◌⊎◌, inl, inr, Bool, true, false, none, some,
  List, [], length, ltb, write, arith, Bool-cases, Option-cases, ℕ_discrete, if◌then◌else◌,
}
use polardb_uncompleted.Disk.Files.{same_path as same_bytes, same_path_iff as same_bytes_iff}
use polardb_uncompleted.Example.DoorPlate.{
  Location, DoorPlate, max_key_len, max_door_cnt, item_key_match, item_try_place, calc_index,
  placed, find, add_or_update,
}
use polardb_uncompleted.Example.DoorPlate.Probe.{probe-same, probe-agree, probe_full}
use polardb_uncompleted.Example.DoorPlate.View.{
  item_key, IsValid, Holds, placed-Holds, match_iff, try_used, free_match, calc_sound, find-none,
  find_match, find_other,
}
use polardb_uncompleted.Example.Util.{succ, full, invalid_argument, str_hash}

-- Every item in use has the location that is given, or was in use with the location that it has.
pub record Carries (items : DoorPlate) (l : Location) (items' : DoorPlate) : Type 0 where
  pub from :
      (p : ℕ)
      → (items' p).in_use ≢ 0
      → ((items' p).location ≡ l)
        ⊎ (((items p).in_use ≢ 0) × ((items' p).location ≡ (items p).location))

module _ (items : DoorPlate) (k : List ℕ) (l : Location) (valid : IsValid items) (i : ℕ) where
  abbrev after : DoorPlate
  after = write items i (placed (items i) k l)

  after_at : after i ≡ placed (items i) k l
  unfolding write
  after_at = ground arith

  after_off : (j : ℕ) → j ≢ i → after j ≡ items j
  unfolding write
  after_off j ne = ground arith

  find_at :
      (q : List ℕ) (p : ℕ)
      → p ≢ i
      → calc_index after q ≡ some p
      → calc_index items q ≡ some p
      → find after q ≡ find items q
  unfolding find
  find_at q p ne new old = rw (find, new, old) (rw (after_off p ne) refl)

  module _ (short : length k ≤ max_key_len) (at : calc_index items k ≡ some i) where
    holds : Holds (after i) k l
    holds =
        rw after_at (placed-Holds (items i) k l (valid.item i) short (calc_sound items k i at).0)

    match_self : item_key_match (after i) k ≡ true
    match_self = (match_iff (after i) k holds.valid).1 holds.key

    match_other : (q : List ℕ) → q ≢ k → item_key_match (after i) q ≡ false
    match_other q ne = elim (Bool-cases (item_key_match (after i) q)) [
      | inr no_match ↦ no_match
      | inl m ↦ absurd (ne (sym ((match_iff (after i) q holds.valid).0 m) ∙ holds.key))
    ]

    try_same :
        (q : List ℕ) (j : ℕ) → j ≢ i → item_try_place (after j) q ≡ item_try_place (items j) q
    try_same q j ne = ap (λ item. item_try_place item q) (after_off j ne)

    -- The search for the key itself ends where it did.
    calc_self : calc_index after k ≡ some i
    unfolding calc_index
    calc_self =
        probe-agree (λ j. item_try_place (items j) k) (λ j. item_try_place (after j) k)
          (λ j. elim (ℕ_discrete j i) [
            | yes e ↦
                rw e
                  (try_used (after i) k holds.used ∙ match_self ∙ sym (calc_sound items k i at).0)
            | no ne ↦ try_same k j ne
          ])
          max_door_cnt (str_hash k % max_door_cnt)
        ∙ at

    -- So does the search for another key, unless it ended at the item that has changed.
    calc_other :
        (q : List ℕ) → q ≢ k → calc_index items q ≢ some i → calc_index after q ≡ calc_index items q
    unfolding calc_index
    calc_other q ne off =
        let test : ℕ → Bool = λ j. item_try_place (items j) q in
        let other : ℕ → Bool = λ j. item_try_place (after j) q in
        let gone : other i ≡ false = try_used (after i) q holds.used ∙ match_other q ne in
        elim (Bool-cases (test i)) [
          | inl t ↦
              probe-same test other i (try_same q) max_door_cnt (str_hash q % max_door_cnt) t off
          | inr t ↦
              probe-agree test other
                (λ j. elim (ℕ_discrete j i) [ yes e ↦ rw e (gone ∙ sym t) | no n ↦ try_same q j n ])
                max_door_cnt (str_hash q % max_door_cnt)
        ]

    after-IsValid : IsValid after
    after-IsValid = record {
      item = λ p. elim (ℕ_discrete p i) [
        | yes e ↦ rw e holds.valid
        | no ne ↦ rw (after_off p ne) (valid.item p)
      ];
      found = λ p used. elim (ℕ_discrete p i) [
        | yes e ↦ rw (e, holds.key) calc_self
        | no ne ↦
            let used' = rw (after_off p ne) at used in
            let was = valid.found p used' in
            let q = item_key (items p) in
            let other : q ≢ k = λ e. ne (cc (was, at, ap (calc_index items) e)) in
            rw (after_off p ne) (calc_other q other (λ e. ne (cc)) ∙ was)
      ];
    }

    after-Carries : Carries items l after
    after-Carries = record {
      from = λ p used. elim (ℕ_discrete p i) [
        | yes e ↦ inl (rw e holds.location)
        | no ne ↦ inr (rw (after_off p ne) at used, ap (λ item. item.location) (after_off p ne))
      ];
    }

    find_self : find after k ≡ (succ, some l)
    find_self = find_match after k i calc_self match_self ∙ ap (λ m. (succ, some m)) holds.location

    no_match :
        (q : List ℕ)
        → q ≢ []
        → q ≢ k
        → calc_index items q ≡ some i
        → (p : ℕ) → calc_index after q ≡ some p
        → item_key_match (after p) q ≡ false
    no_match q nil ne here p there = elim (ℕ_discrete p i) [
      | yes e ↦ rw e (match_other q ne)
      | no off ↦ elim (Bool-cases (item_key_match (after p) q)) [
        | inr m ↦ m
        | inl m ↦
            let m' = rw (after_off p off) at m in
            let e = (match_iff (items p) q (valid.item p)).0 m' in
            elim (ℕ_discrete (items p).in_use 0) [
              | yes free ↦ absurd (cc (m', free_match (items p) q (valid.item p) free nil))
              | no used ↦
                  let was = valid.found p used in
                  absurd (off (cc (was, here, ap (calc_index items) e)))
            ]
      ]
    ]

    -- A key for which the search ended at the item is found no more than before: the item was free.
    find_passed :
        (q : List ℕ) → q ≢ [] → q ≢ k → calc_index items q ≡ some i → find after q ≡ find items q
    find_passed q nil ne here =
        let t = (calc_sound items q i here).0 in
        let free : (items i).in_use ≡ 0 = elim (ℕ_discrete (items i).in_use 0) [
          | yes z ↦ z
          | no used ↦
              let mq = sym (try_used (items i) q used) ∙ t in
              let mk = sym (try_used (items i) k used) ∙ (calc_sound items k i at).0 in
              absurd (
                ne (
                  sym ((match_iff (items i) q (valid.item i)).0 mq)
                  ∙ (match_iff (items i) k (valid.item i)).0 mk))
        ] in
        let before = find_other items q i here (free_match (items i) q (valid.item i) free nil) in
        elim (Option-cases (calc_index after q)) [
          | inl none_left ↦ find-none after q none_left ∙ sym before
          | inr (p, there) ↦
              find_other after q p there (no_match q nil ne here p there) ∙ sym before
        ]

    find-after :
        (q : List ℕ)
        → q ≢ []
        → find after q ≡ (if same_bytes q k then (succ, some l) else find items q)
    find-after q nil = elim (Bool-cases (same_bytes q k)) [
      | inl e ↦ rw (e, (same_bytes_iff q k).0 e) find_self
      | inr off ↦
          let ne : q ≢ k = λ e. cc ((same_bytes_iff q k).1 e) in
          elim (Option-cases (calc_index items q)) [
            | inl gone ↦
                let same = calc_other q ne (λ e. cc) in
                rw off (find-none after q (same ∙ gone) ∙ sym (find-none items q gone))
            | inr (p, there) ↦ elim (ℕ_discrete p i) [
              | yes e ↦ rw off (find_passed q nil ne (there ∙ ap some e))
              | no n ↦
                  let same = calc_other q ne (λ e. n (cc)) in
                  rw off (find_at q p n (same ∙ there) there)
            ]
          ]
    ]

pub calc_full :
    (items : DoorPlate) (k : List ℕ)
    → calc_index items k ≡ none
    → (p : ℕ) → p < max_door_cnt
    → item_try_place (items p) k ≡ false
unfolding calc_index
calc_full items k gone p lt =
    probe_full (λ j. item_try_place (items j) k) (str_hash k % max_door_cnt) p (omega arith) gone lt

-- `AddOrUpdate` by what `Find` finds under every key.
pub add_or_update-find_all :
    (items : DoorPlate) (k : List ℕ) (l : Location)
    → IsValid items
    → ((max_key_len < length k) × (add_or_update items k l ≡ (invalid_argument, items)))
      ⊎ (((p : ℕ) → p < max_door_cnt → item_try_place (items p) k ≡ false)
          × (add_or_update items k l ≡ (full, items)))
      ⊎ ((length k ≤ max_key_len)
          × (items' : DoorPlate) × (add_or_update items k l ≡ (succ, items'))
          × IsValid items'
          × Carries items l items'
          × ((q : List ℕ)
              → q ≢ []
              → find items' q ≡ (if same_bytes q k then (succ, some l) else find items q)))
unfolding add_or_update
add_or_update-find_all items k l valid = elim (Bool-cases (ltb max_key_len (length k))) [
  | inl long ↦ inl (ground arith, rw (add_or_update, long) refl)
  | inr short ↦
      let short' : length k ≤ max_key_len = ground arith in
      elim (Option-cases (calc_index items k)) [
        | inl gone ↦ inr (inl (calc_full items k gone, rw (short, gone, add_or_update) refl))
        | inr (i, at) ↦ inr (
            inr (
              short',
              after items k l valid i,
              rw (short, at, add_or_update) refl,
              after-IsValid items k l valid i short' at,
              after-Carries items k l valid i short' at,
              find-after items k l valid i short' at,
            ))
      ]
]

-- `AddOrUpdate` on a well-formed table: a key of more than 32 bytes is refused; when every place is
-- used by another key the table is full; otherwise it succeeds, keeps the table well formed, carries
-- the locations of the other items over, and `Find` then finds the location under the key, and under
-- any other key but the empty one what it found before. The table stays as it is in the first two
-- cases.
pub add_or_update-find :
    (items : DoorPlate) (k : List ℕ) (l : Location) (q : List ℕ)
    → IsValid items
    → q ≢ []
    → ((max_key_len < length k) × (add_or_update items k l ≡ (invalid_argument, items)))
      ⊎ (((p : ℕ) → p < max_door_cnt → item_try_place (items p) k ≡ false)
          × (add_or_update items k l ≡ (full, items)))
      ⊎ ((length k ≤ max_key_len)
          × (items' : DoorPlate) × (add_or_update items k l ≡ (succ, items'))
          × IsValid items'
          × Carries items l items'
          × (find items' q ≡ (if same_bytes q k then (succ, some l) else find items q)))
add_or_update-find items k l q valid nil = elim (add_or_update-find_all items k l valid) [
  | inl long ↦ inl long
  | inr (inl taken) ↦ inr (inl taken)
  | inr (inr (short, items', placed, valid', carries, found)) ↦
      inr (inr (short, items', placed, valid', carries, found q nil))
]
