-- ===== src/Buffer/Slots.antt =====
-- Free and written slots of class Buffer.
use polardb_uncompleted.Base.{
  ℕ, zero, suc, ◌+◌, ◌<◌, ◌≡◌, ◌≢◌, refl, sym, ap, ◌∙◌, ◌⊎◌, inl, inr, Bool, true, false, none,
  some, List, [], ◌∷◌, arith, ◌==◌, ltb, if◌then◌else◌, write, Option-cases, Bool-cases,
}
use polardb_uncompleted.Base.Run.{ok, assertion_failed}
use polardb_uncompleted.Buffer.{
  Buffer, record_buff_size, indices, new, split_last, member, remove, request_record_buff,
  release_buff, if_full, wait_for_access, end_access,
}

abbrev one : Bool → ℕ
one true = 1
one false = 0

pub count : ℕ → List ℕ → ℕ
count a [] = 0
count a (x ∷ xs) = one (a == x) + count a xs

-- Every slot number below 1024 stands once in one of the two lists, and no other number stands in
-- them; the map has the written ones.
pub record IsValid (b : Buffer) : Type 0 where
  pub partition :
      (a : ℕ) → count a b.idxes_empty + count a b.idxes_wrote ≡ one (ltb a record_buff_size)
  pub mapped : (a : ℕ) → count a b.wrote_mapping ≡ count a b.idxes_wrote

count-indices : (a i n : ℕ) → count a (indices i n) ≡ (if ltb a i then 0 else one (ltb a (i + n)))
unfolding count indices
count-indices a i zero = ground arith
count-indices a i (suc n) = ground (arith, count-indices a (suc i) n)

pub new-IsValid : IsValid new
unfolding new count
new-IsValid = record {
  partition = λ a. ground (arith, count-indices a 0 record_buff_size);
  mapped = λ a. refl;
}

count-member : (a : ℕ) (xs : List ℕ) → member a xs ≡ ltb 0 (count a xs)
unfolding count
count-member a [] = refl
count-member a (x ∷ xs) = ground (arith, count-member a xs)

count-remove :
    (a b : ℕ) (xs : List ℕ) → member b xs ≡ true → count a (remove b xs) + one (a == b) ≡ count a xs
unfolding count remove
count-remove a b [] h = cc
count-remove a b (x ∷ xs) h = ground (arith, count-remove a b xs)

split_last-none : (xs : List ℕ) → split_last xs ≡ none → xs ≡ []
unfolding split_last
split_last-none [] h = refl
split_last-none (x ∷ xs) h = ground (arith, split_last-none xs)

count-split_last :
    (xs : List ℕ) (y : ℕ) (ys : List ℕ)
    → split_last xs ≡ some (y, ys)
    → (a : ℕ) → count a xs ≡ count a ys + one (a == y)
unfolding count split_last
count-split_last [] y ys h a = cc
count-split_last (x ∷ xs) y ys h a = elim (Option-cases (split_last xs)) [
  | inl e ↦
      let nil = ap (count a) (split_last-none xs e) in
      let h' = rw (e, split_last) at h in ground (arith, nil)
  | inr ((z, zs), e) ↦
      let h' = rw (e, split_last) at h in ground (arith, count-split_last xs z zs e a)
]

-- A request waits exactly when the buffer is full. Otherwise it returns a slot number below 1024
-- that was not written, moves exactly that number to the written ones, and keeps the buffer valid.
pub request-Moves :
    (b : Buffer)
    → IsValid b
    → ((if_full b ≡ true) × (request_record_buff b ≡ none))
      ⊎ ((r : ℕ) × (b' : Buffer) × (request_record_buff b ≡ some (r, b'))
          × (r < record_buff_size)
          × (member r b.idxes_wrote ≡ false)
          × (b'.idxes_wrote ≡ r ∷ b.idxes_wrote)
          × IsValid b')
unfolding request_record_buff if_full
request-Moves b v = elim (Option-cases (split_last b.idxes_empty)) [
  | inl e ↦
      let nil = split_last-none b.idxes_empty e in
      inl (rw nil refl, rw (e, request_record_buff) refl)
  | inr ((r, rest), e) ↦
      let moved = count-split_last b.idxes_empty r rest e in
      let at = v.partition r in
      let fresh : member r b.idxes_wrote ≡ false =
        ground (arith, moved r, count-member r b.idxes_wrote) in
      let unmapped : member r b.wrote_mapping ≡ false =
        ground (arith, v.mapped r, count-member r b.idxes_wrote, count-member r b.wrote_mapping) in
      inr (
        r,
        record b {
          idxes_empty = rest;
          idxes_wrote = r ∷ b.idxes_wrote;
          wrote_mapping = r ∷ b.wrote_mapping;
        },
        rw (e, request_record_buff) (rw unmapped refl),
        ground (arith, moved r),
        fresh,
        refl,
        record {
          partition = λ a. unfold count in omega (arith, moved a, v.partition a);
          mapped = λ a. unfold count in omega (arith, v.mapped a);
        },
      )
]

-- A release of a written slot takes that number alone out of the written ones and keeps the buffer
-- valid; a release of any other number fails its assertion.
pub release-Moves :
    (b : Buffer) (id : ℕ)
    → IsValid b
    → ((member id b.idxes_wrote ≡ true)
        × (b' : Buffer) × (release_buff b id ≡ ok b')
        × IsValid b'
        × ((a : ℕ) → member a b'.idxes_wrote ≡ (if a == id then false else member a b.idxes_wrote)))
      ⊎ ((member id b.idxes_wrote ≡ false) × (release_buff b id ≡ assertion_failed))
unfolding release_buff
release-Moves b id v = elim (Bool-cases (member id b.idxes_wrote)) [
  | inl w ↦
      let kept = λ (a : ℕ). count-remove a id b.idxes_wrote w in
      let known : member id b.wrote_mapping ≡ true =
        ground
          (arith, v.mapped id, count-member id b.idxes_wrote, count-member id b.wrote_mapping) in
      let unmapped = λ (a : ℕ). count-remove a id b.wrote_mapping known in
      inl (
        w,
        record b {
          idxes_wrote = remove id b.idxes_wrote;
          wrote_mapping = remove id b.wrote_mapping;
          idxes_empty = id ∷ b.idxes_empty;
        },
        rw known refl,
        record {
          partition = λ a. unfold count in omega (arith, kept a, v.partition a);
          mapped = λ a. omega (arith, kept a, unmapped a, v.mapped a);
        },
        λ a. ground (
          arith,
          kept a,
          v.partition a,
          count-member a (remove id b.idxes_wrote),
          count-member a b.idxes_wrote,
        ),
      )
  | inr out ↦ inr (
    out,
    ground (arith, v.mapped id, count-member id b.idxes_wrote, count-member id b.wrote_mapping),
  )
]

access_marks :
    (b b' : Buffer) (idx slot : ℕ)
    → wait_for_access b idx ≡ some (slot, b')
    → (slot ≡ idx) × (b'.accessing idx ≡ true)
unfolding wait_for_access write
access_marks b b' idx slot h = elim (Bool-cases (b.accessing idx)) [
  | inl t ↦ let h' = rw (t, wait_for_access) at h in cc
  | inr f ↦
      let marked : Buffer = record b { accessing = write b.accessing idx true } in
      let e : some (idx, marked) ≡ some (slot, b') = rw (f, wait_for_access) at h in
      let same : marked ≡ b' = cc in
      (cc, sym (ap (λ (c : Buffer). c.accessing idx) same) ∙ ground arith)
]

-- A slot that `wait_for_access` has returned makes the next access to it wait, also after the end
-- of an access to another slot; after the end of its own access the slot is returned again.
pub access-excludes :
    (b b' : Buffer) (idx slot other : ℕ)
    → wait_for_access b idx ≡ some (slot, b')
    → other ≢ idx
    → (wait_for_access b' idx ≡ none)
      × (wait_for_access (end_access b' other) idx ≡ none)
      × ((again : Buffer) × (wait_for_access (end_access b' idx) idx ≡ some (slot, again)))
unfolding wait_for_access end_access write
access-excludes b b' idx slot other h ne =
    let (e, t) = access_marks b b' idx slot h in
    (
      rw (t, wait_for_access) refl,
      ground (arith, t),
      (record b' { accessing = write (end_access b' idx).accessing idx true }, rw e (ground arith)),
    )
