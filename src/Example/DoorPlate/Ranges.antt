-- ===== src/Example/DoorPlate/Ranges.antt =====
-- `GetRangeLocation` gathers what `Find` finds for the keys of a range.
use polardb_uncompleted.Base.{
  ℕ, zero, suc, ◌+◌, ◌≤◌, ◌≡◌, ◌≢◌, refl, ap, ◌∙◌, sym, subst, inl, inr, Bool, true, false, ◌&&◌,
  Option, none, some, List, [], ◌∷◌, ltb, if◌then◌else◌, Bool-cases, ℕ_discrete, arith,
}
use polardb_uncompleted.Disk.Files.{same_path as same_bytes, same_path_iff as same_bytes_iff}
use polardb_uncompleted.Example.DoorPlate.{
  Location, Item, DoorPlate, max_door_cnt, calc_index, find,
}
use polardb_uncompleted.Example.DoorPlate.Locations.{
  in_range, Locations, insert_location, string_lt, wanted, range_loop, get_range_location,
  max_range_buf_count,
}
use polardb_uncompleted.Example.DoorPlate.Sorted.{
  Ascends, lookup, first_of, insert-Ascends, lookup-insert,
}
use polardb_uncompleted.Example.DoorPlate.View.{
  item_key, IsValid, match_iff, find_match, find_cases,
}
use polardb_uncompleted.Example.Util.{RetCode, succ, not_found}

module _ (lower upper : List ℕ) (items : DoorPlate) where
  -- The location under a key among the first items, the last of them first.
  unfoldable first_match : ℕ → List ℕ → Option Location
  first_match zero q = none
  first_match (suc p) q =
      if wanted lower upper items (items p) && same_bytes q (item_key (items p))
      then some (items p).location
      else first_match p q

  first_of_assoc : (a b c : Option Location) → first_of (first_of a b) c ≡ first_of a (first_of b c)
  first_of_assoc none b c = refl
  first_of_assoc (some l) b c = refl

  first_match_step :
      (p : ℕ) (q : List ℕ)
      → wanted lower upper items (items p) ≡ true
      → first_of
          (if same_bytes q (item_key (items p)) then some (items p).location else none)
          (first_match p q)
        ≡ first_match (suc p) q
  unfolding first_match
  first_match_step p q h = elim (Bool-cases (same_bytes q (item_key (items p)))) [
    | inl at ↦ rw (h, at) refl
    | inr off ↦ rw (h, off) refl
  ]

  first_match_skip :
      (p : ℕ) (q : List ℕ)
      → wanted lower upper items (items p) ≡ false
      → first_match p q ≡ first_match (suc p) q
  unfolding first_match
  first_match_skip p q h = rw h refl

  nothing_more : (o : Option Location) (q : List ℕ) → first_of o (first_match zero q) ≡ o
  unfolding first_match
  nothing_more none q = refl
  nothing_more (some l) q = refl

  loop_skip :
      (p count : ℕ) (m : Locations)
      → wanted lower upper items (items p) ≡ false
      → range_loop lower upper items (suc p) count m ≡ range_loop lower upper items p count m
  unfolding range_loop
  loop_skip p count m off = rw (range_loop, off) refl

  loop_take :
      (p count : ℕ) (m : Locations)
      → wanted lower upper items (items p) ≡ true
      → ltb max_range_buf_count (count + 1) ≡ false
      → range_loop lower upper items (suc p) count m
        ≡ range_loop lower upper items p
            (count + 1)
            (insert_location (item_key (items p)) (items p).location m)
  unfolding range_loop
  loop_take p count m on fits = rw (range_loop, on) (rw fits refl)

  -- The loop succeeds, and adds the keys of the items that it is given.
  range_loop-first_match :
      (n count : ℕ) (m : Locations)
      → count + n ≤ max_range_buf_count
      → Ascends m
      → (m' : Locations) × (range_loop lower upper items n count m ≡ (succ, m'))
        × Ascends m'
        × ((q : List ℕ) → lookup q m' ≡ first_of (lookup q m) (first_match n q))
  range_loop-first_match zero count m h a =
      (m, unfold range_loop in refl, a, λ q. sym (nothing_more (lookup q m) q))
  range_loop-first_match (suc p) count m h a =
      elim (Bool-cases (wanted lower upper items (items p))) [
        | inr off ↦
            let (m', e, a', s) = range_loop-first_match p count m (omega arith) a in
            (
              m',
              loop_skip p count m off ∙ e,
              a',
              λ q. s q ∙ ap (first_of (lookup q m)) (first_match_skip p q off),
            )
        | inl on ↦
            let k = item_key (items p) in
            let l = (items p).location in
            let (m', e, a', s) =
              range_loop-first_match p (count + 1) (insert_location k l m) (omega arith)
                (insert-Ascends k l m a) in
            let fits : ltb max_range_buf_count (count + 1) ≡ false = ground arith in
            (
              m',
              loop_take p count m on fits ∙ e,
              a',
              λ q.
                  s q
                  ∙ ap (λ o. first_of o (first_match p q)) (lookup-insert q k l m a)
                  ∙ first_of_assoc (lookup q m) (if same_bytes q k then some l else none)
                      (first_match p q)
                  ∙ ap (first_of (lookup q m)) (first_match_step p q on),
            )
      ]

  wanted_used :
      (item : Item)
      → item.in_use ≢ 0
      → wanted lower upper items item ≡ in_range lower upper (item_key item)
  unfolding wanted
  wanted_used item used = ground arith

  wanted_free : (item : Item) → wanted lower upper items item ≡ true → item.in_use ≢ 0
  unfolding wanted
  wanted_free item h free = ground arith

  none_or : (b : Bool) → ◌≡◌ {A = Option Location} (if b then none else none) none
  none_or true = refl
  none_or false = refl

  module _ (valid : IsValid items) (q : List ℕ) where
    only_one :
        (p : ℕ)
        → (items p).in_use ≢ 0
        → item_key (items p) ≡ q
        → (n : ℕ) → n ≢ p
        → wanted lower upper items (items n) && same_bytes q (item_key (items n)) ≡ false
    only_one p used key n ne =
        elim (Bool-cases
          (wanted lower upper items (items n) && same_bytes q (item_key (items n)))) [
            | inr off ↦ off
            | inl on ↦
                let on' : (wanted lower upper items (items n) ≡ true)
                    × (same_bytes q (item_key (items n)) ≡ true) =
                  (ground arith, ground arith) in
                let used' = wanted_free (items n) on'.0 in
                let key' = (same_bytes_iff q (item_key (items n))).0 on'.1 in
                let there = valid.found n used' in
                let here = valid.found p used in
                absurd (ne (cc (there, here, ap (calc_index items) (key ∙ key'))))
          ]

    -- The first_match over the table finds the item in use that has the key.
    scan_found :
        (p : ℕ)
        → (items p).in_use ≢ 0
        → item_key (items p) ≡ q
        → (n : ℕ)
        → first_match n q ≡ (
            if ltb p n
            then if in_range lower upper q then some (items p).location else none
            else none)
    unfolding first_match
    scan_found p used key zero = ground arith
    scan_found p used key (suc n) = elim (ℕ_discrete n p) [
      | yes e ↦
          let here : wanted lower upper items (items n) ≡ in_range lower upper q =
            rw e (wanted_used (items p) used ∙ ap (in_range lower upper) key) in
          let same : same_bytes q (item_key (items n)) ≡ true =
            rw (e, key) ((same_bytes_iff q q).1 refl) in
          let rest = scan_found p used key n in
          let before : ltb p n ≡ false = ground arith in
          let after : ltb p (suc n) ≡ true = ground arith in
          elim (Bool-cases (in_range lower upper q)) [
            | inl is_in ↦ rw (here, same, is_in, after) (ap (λ i. some (items i).location) e)
            | inr out ↦ rw (here, same, out, after) (rest ∙ rw before refl)
          ]
      | no ne ↦
          let off : wanted lower upper items (items n) && same_bytes q (item_key (items n))
              ≡ false =
            only_one p used key n ne in
          let same : ltb p n ≡ ltb p (suc n) = ground arith in
          rw off (scan_found p used key n ∙ rw same refl)
    ]

    scan_none : (n : ℕ) → q ≢ [] → find items q ≡ (not_found, none) → first_match n q ≡ none
    unfolding first_match
    scan_none zero nil gone = refl
    scan_none (suc n) nil gone =
        elim (Bool-cases
          (wanted lower upper items (items n) && same_bytes q (item_key (items n)))) [
            | inr off ↦ rw off (scan_none n nil gone)
            | inl on ↦
                let on' : (wanted lower upper items (items n) ≡ true)
                    × (same_bytes q (item_key (items n)) ≡ true) =
                  (ground arith, ground arith) in
                let key = (same_bytes_iff q (item_key (items n))).0 on'.1 in
                let there =
                  ap (calc_index items) key ∙ valid.found n (wanted_free (items n) on'.0) in
                let m = (match_iff (items n) q (valid.item n)).1 (sym key) in
                absurd (cc (gone, find_match items q n there m))
          ]

    scan_find :
        q ≢ []
        → first_match max_door_cnt q ≡ (if in_range lower upper q then (find items q).1 else none)
    scan_find nil = elim (find_cases items q valid nil) [
      | inr gone ↦
          scan_none max_door_cnt nil gone ∙ rw gone (sym (none_or (in_range lower upper q)))
      | inl (p, used, key, lt, at) ↦
          let below : ltb p max_door_cnt ≡ true = ground arith in
          scan_found p used key max_door_cnt ∙ rw (below, at) refl
    ]

  -- Every location is that of an item in use.
  abbrev pub Sourced : Locations → Type 0
  Sourced [] = Unit {0}
  Sourced ((k, l) ∷ m) = ((p : ℕ) × ((items p).in_use ≢ 0) × ((items p).location ≡ l)) × Sourced m

  insert-Sourced :
      (k : List ℕ) (p : ℕ) (m : Locations)
      → (items p).in_use ≢ 0
      → Sourced m
      → Sourced (insert_location k (items p).location m)
  unfolding insert_location
  insert-Sourced k p [] used s = ((p, used, refl), tt)
  insert-Sourced k p ((j, w) ∷ m) used s = elim (Bool-cases (string_lt k j)) [
    | inl lt ↦ rw lt ((p, used, refl), s)
    | inr ge ↦ elim (Bool-cases (string_lt j k)) [
      | inl gt ↦ rw (ge, gt) (s.0, insert-Sourced k p m used s.1)
      | inr eq ↦ rw (ge, eq) s
    ]
  ]

  range_loop-Sourced :
      (n count : ℕ) (m : Locations)
      → count + n ≤ max_range_buf_count
      → Sourced m
      → Sourced (range_loop lower upper items n count m).1
  range_loop-Sourced zero count m h s = unfold range_loop in s
  range_loop-Sourced (suc p) count m h s = elim (Bool-cases (wanted lower upper items (items p))) [
    | inr off ↦ rw (loop_skip p count m off) (range_loop-Sourced p count m (omega arith) s)
    | inl on ↦
        let k = item_key (items p) in
        let fits : ltb max_range_buf_count (count + 1) ≡ false = ground arith in
        rw (loop_take p count m on fits) (
          range_loop-Sourced p (count + 1) (insert_location k (items p).location m) (omega arith)
            (insert-Sourced k p m (wanted_free (items p) on) s))
  ]

-- On a well-formed table `GetRangeLocation` succeeds, and gathers in ascending order of their keys,
-- for every key but the empty one, the location that `Find` finds if the key is in the range, and
-- none otherwise; every location gathered is that of an item in use.
pub get_range_location-find :
    (lower upper : List ℕ) (items : DoorPlate)
    → IsValid items
    → (m : Locations) × (get_range_location lower upper items ≡ (succ, m))
      × Ascends m
      × Sourced lower upper items m
      × ((q : List ℕ)
          → q ≢ []
          → lookup q m ≡ (if in_range lower upper q then (find items q).1 else none))
unfolding get_range_location lookup
get_range_location-find lower upper items valid =
    let (m, done, a, s) =
      range_loop-first_match lower upper items max_door_cnt 0 [] (omega arith) tt in
    (
      m,
      done,
      a,
      subst (λ (r : RetCode × Locations). Sourced lower upper items r.1) done
          (range_loop-Sourced lower upper items max_door_cnt 0 [] (omega arith) tt),
      λ q nil. s q ∙ scan_find lower upper items valid q nil,
    )
