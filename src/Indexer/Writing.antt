-- ===== src/Indexer/Writing.antt =====
-- The writing mark of an entry, as the methods of class Indexer set and read it.
use polardb_uncompleted.Base.{
  ℕ, ◌≡◌, ◌≢◌, refl, ap, ◌∙◌, inl, inr, Bool, false, none, some, arith, ◌==◌, if◌then◌else◌, write,
  ℕ_discrete, Option-cases, fun_ext, ==_refl,
}
use polardb_uncompleted.Base.Run.{ok}
use polardb_uncompleted.Index.{Index, if_in_hash}
use polardb_uncompleted.Index as Word
use polardb_uncompleted.Index.Fields.{Fields, IsSized, encode}
use polardb_uncompleted.Index.Setters.{set_if_writing-encode}
use polardb_uncompleted.Index.Word.{
  if_in_hash-if_valid, set_if_writing-if_in_hash, if_writing-set_if_writing,
}
use polardb_uncompleted.IndexHashMap.Hash.{hash_key}
use polardb_uncompleted.IndexHashMap.View.{view, IsValid, search_cases}
use polardb_uncompleted.IndexHashMap.{IndexHashMap, is_free, stops, search, search_from, get}
use polardb_uncompleted.Indexer.{set_if_writing, get_if_writing}

-- A pointer that `get` returns leads to the entry in use of the key.
get_found :
    (m : IndexHashMap) (q e : ℕ) → get m q ≡ some e → (is_free (m e) ≡ false) × ((m e).key ≡ q)
unfolding get stops
get_found m q e h = ground (arith, search_cases m q)

pub view-some : (m : IndexHashMap) (q e : ℕ) → get m q ≡ some e → view m q ≡ some (m e).idx
unfolding view
view-some m q e h = rw (h, view)

pub view-none : (m : IndexHashMap) (q : ℕ) → get m q ≡ none → view m q ≡ none
unfolding view
view-none m q h = rw (h, view)

-- Every entry in use is what `get` finds under its key.
get_placed :
    (m : IndexHashMap) → IsValid m → (e : ℕ) → is_free (m e) ≡ false → get m (m e).key ≡ some e
unfolding get
get_placed m valid e used = let p = valid.placed e used in rw (p.0, used) (ground arith)

module _ (m : IndexHashMap) (valid : IsValid m) (e : ℕ) (used : is_free (m e) ≡ false)
    (b : Bool) where
  marked : IndexHashMap
  marked = write m e (record (m e) { idx = Word.set_if_writing (m e).idx b })

  marked_at : marked e ≡ record (m e) { idx = Word.set_if_writing (m e).idx b }
  unfolding marked write
  marked_at = ground arith

  marked_off : (j : ℕ) → j ≢ e → marked j ≡ m j
  unfolding marked write
  marked_off j n = ground arith

  marked_hash : if_in_hash (marked e).idx ≡ 0x200
  marked_hash = rw marked_at (set_if_writing-if_in_hash (m e).idx b ∙ valid.hashed e used)

  stops-marked : (q j : ℕ) → stops marked q j ≡ stops m q j
  unfolding stops
  stops-marked q j = elim (ℕ_discrete j e) [
    | yes at ↦
        rw at (ground (arith, marked_at, used, if_in_hash-if_valid (marked e).idx marked_hash))
    | no n ↦ rw (marked_off j n)
  ]

  search-marked : (q : ℕ) → search marked q ≡ search m q
  unfolding search
  search-marked q = ap (search_from (hash_key q)) (fun_ext (stops-marked q))

  free_marked : (p : ℕ) → is_free (marked p) ≡ is_free (m p)
  free_marked p = elim (ℕ_discrete p e) [
    | yes at ↦ rw (at, used) (if_in_hash-if_valid (marked e).idx marked_hash)
    | no n ↦ rw (marked_off p n)
  ]

  key_marked : (p : ℕ) → (marked p).key ≡ (m p).key
  key_marked p = elim (ℕ_discrete p e) [ yes at ↦ rw (at, marked_at) | no n ↦ rw (marked_off p n) ]

  get-marked : (q : ℕ) → get marked q ≡ get m q
  unfolding get
  get-marked q = rw (search-marked q, free_marked)

  marked-IsValid : IsValid marked
  marked-IsValid = record {
    placed = λ p h. rw (key_marked p, search-marked) (valid.placed p (rw free_marked at h));
    hashed = λ p h. elim (ℕ_discrete p e) [
      | yes at ↦ rw at marked_hash
      | no n ↦ rw (marked_off p n) (valid.hashed p (rw free_marked at h))
    ];
  }

  abbrev Marked : ℕ → Type 0
  Marked q =
      view marked q ≡ (if q == (m e).key then some (Word.set_if_writing (m e).idx b) else view m q)

  Marked-none : (q : ℕ) → get m q ≡ none → Marked q
  Marked-none q h =
      let other : q ≢ (m e).key = λ k. cc (h, get_placed m valid e used, k) in
      view-none marked q (get-marked q ∙ h) ∙ ground (arith, view-none m q h)

  Marked-some : (q p : ℕ) → get m q ≡ some p → Marked q
  Marked-some q p h = elim (ℕ_discrete p e) [
    | yes at ↦
        let k : (m e).key ≡ q = rw at at ((get_found m q p h).1) in
        view-some marked q p (get-marked q ∙ h) ∙ rw (at, marked_at, k, ==_refl)
    | no n ↦
        let other : q ≢ (m e).key = λ k. n (cc (h, get_placed m valid e used, k)) in
        view-some marked q p (get-marked q ∙ h)
        ∙ rw (marked_off p n, view-some m q p h) (ground arith)
  ]

  mark_read : (key : ℕ) → get m key ≡ some e → get_if_writing marked key ≡ ok b
  unfolding get_if_writing
  mark_read key h =
      rw (get-marked key, h, get_if_writing)
        (rw (marked_at, if_writing-set_if_writing (m e).idx b) (ground arith))

  view-Marked : (q : ℕ) → Marked q
  view-Marked q = elim (Option-cases (get m q)) [
    | inl h ↦ Marked-none q h
    | inr (p, h) ↦ Marked-some q p h
  ]

-- `set_if_writing` by what the method of the word does.
set_if_writing_word :
    (m : IndexHashMap) (key : ℕ) (b : Bool) (i : Index)
    → IsValid m
    → view m key ≡ some i
    → (m' : IndexHashMap) × (set_if_writing m key b ≡ ok m')
      × IsValid m'
      × ((q : ℕ) → view m' q ≡ (if q == key then some (Word.set_if_writing i b) else view m q))
      × (get_if_writing m' key ≡ ok b)
unfolding set_if_writing
set_if_writing_word m key b i valid h = elim (Option-cases (get m key)) [
  | inl gone ↦ cc (h, view-none m key gone)
  | inr (e, g) ↦
      let (used, k) = get_found m key e g in
      let same : (m e).idx ≡ i = cc (h, view-some m key e g) in
      (
        marked m valid e used b,
        rw (g, set_if_writing) (unfold marked in refl),
        marked-IsValid m valid e used b,
        λ q. rw (← same, ← k) (view-Marked m valid e used b q),
        mark_read m valid e used b key g,
      )
]

-- `set_if_writing` of a key that is present, whose word has fields that fit: it returns, sets the mark
-- in the word of that key, clears `in_file` there as well when it clears the mark, leaves the other
-- fields and the words of all other keys, and keeps the table well formed. `get_if_writing` then
-- reads the mark.
pub set_if_writing-Writes :
    (m : IndexHashMap) (key : ℕ) (b : Bool) (v : Fields)
    → IsValid m
    → IsSized v
    → view m key ≡ some (encode v)
    → (m' : IndexHashMap) × (set_if_writing m key b ≡ ok m')
      × IsValid m'
      × ((q : ℕ)
          → view m' q ≡ (
              if q == key
              then some
                  (encode (record v { writing = b; in_file = if b then v.in_file else false }))
              else view m q))
      × (get_if_writing m' key ≡ ok b)
set_if_writing-Writes m key b v valid sized h =
    let (m', done, valid', seen, mark) = set_if_writing_word m key b (encode v) valid h in
    let word = set_if_writing-encode v sized b in
    (m', done, valid', λ q. seen q ∙ rw word refl, mark)
