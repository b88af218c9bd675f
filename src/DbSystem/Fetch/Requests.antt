-- ===== src/DbSystem/Fetch/Requests.antt =====
-- What requests and releases of class Buffer leave as it is.
use polardb_uncompleted.Base.{
  ℕ, suc, ◌<◌, ◌≡◌, ◌≢◌, refl, ap, ◌∙◌, sym, inl, inr, Bool, true, false, none, some, List, [], ◌∷◌,
  length, ◌==◌, if◌then◌else◌, write, arith, Bool-cases, Option-cases,
}
use polardb_uncompleted.Base.Run.{ok}
use polardb_uncompleted.Buffer.{
  Buffer, record_buff_size, split_last, member, remove, request_record_buff, wait_for_access,
  release_buff, if_full,
}
use polardb_uncompleted.Buffer.Slots.{IsValid, request-Moves, release-Moves}
use polardb_uncompleted.DbSystem.Call.{◌>>+◌}
use polardb_uncompleted.DbSystem.Fetch.{next_slot}

length-no_split : (xs : List ℕ) → split_last xs ≡ none → length xs ≡ 0
unfolding split_last
length-no_split [] h = refl
length-no_split (x ∷ xs) h = elim (Option-cases (split_last xs)) [
  | inl e ↦ let h' = rw (e, split_last) at h in absurd cc
  | inr ((z, zs), e) ↦ let h' = rw (e, split_last) at h in absurd cc
]

length-split_last :
    (xs : List ℕ) (y : ℕ) (ys : List ℕ) → split_last xs ≡ some (y, ys) → suc (length ys) ≡ length xs
unfolding split_last
length-split_last [] y ys h = absurd cc
length-split_last (x ∷ xs) y ys h = elim (Option-cases (split_last xs)) [
  | inl e ↦
      let h' = rw (e, split_last) at h in
      let none_left = length-no_split xs e in
      let same : [] ≡ ys = cc in rw (← same) (omega (arith, none_left))
  | inr ((z, zs), e) ↦
      let h' = rw (e, split_last) at h in
      let less = length-split_last xs z zs e in
      let same : x ∷ zs ≡ ys = cc in rw (← same) (omega (arith, less))
]

-- The slots and the marks of the buffer that a request returns.
record Requested (b : Buffer) (r : ℕ) (b' : Buffer) : Type 0 where
  pub slots : b'.slots ≡ b.slots
  pub accessing : b'.accessing ≡ b.accessing
  pub less : suc (length b'.idxes_empty) ≡ length b.idxes_empty

request_record_buff-Requested :
    (b : Buffer) (r : ℕ) (b' : Buffer) → request_record_buff b ≡ some (r, b') → Requested b r b'
unfolding request_record_buff
request_record_buff-Requested b r b' h = elim (Option-cases (split_last b.idxes_empty)) [
  | inl stuck ↦ let h' = rw (request_record_buff, stuck) at h in absurd cc
  | inr ((last, rest), split) ↦
      let h' = rw (request_record_buff, split) at h in
      let after : Buffer = record b {
        idxes_empty = rest;
        idxes_wrote = last ∷ b.idxes_wrote;
        wrote_mapping =
            if member last b.wrote_mapping then b.wrote_mapping else last ∷ b.wrote_mapping;
      } in
      let e : after ≡ b' = cc in
      let len = length-split_last b.idxes_empty last rest split in
      rw (← e) (record { slots = refl; accessing = refl; less = len })
]

-- What `next_slot` does when a slot is free and none is accessed.
pub record Taken (b : Buffer) (idx : ℕ) (b' : Buffer) : Type 0 where
  pub small : idx < record_buff_size
  pub fresh : member idx b.idxes_wrote ≡ false
  pub wrote : b'.idxes_wrote ≡ idx ∷ b.idxes_wrote
  pub valid : IsValid b'
  pub slots : b'.slots ≡ b.slots
  pub less : suc (length b'.idxes_empty) ≡ length b.idxes_empty
  pub idle : (i : ℕ) → i ≢ idx → b'.accessing i ≡ false

pub next_slot-Taken :
    (b : Buffer)
    → IsValid b
    → 0 < length b.idxes_empty
    → ((i : ℕ) → b.accessing i ≡ false)
    → (idx : ℕ) × (b' : Buffer) × (next_slot b ≡ ok (some (idx, b'))) × Taken b idx b'
unfolding next_slot ◌>>+◌ wait_for_access if_full
next_slot-Taken b valid room idle = elim (request-Moves b valid) [
  | inl (full, stuck) ↦ absurd (some_left b.idxes_empty room full)
  | inr (r, b1, got, small, fresh, wrote, valid1) ↦
      let z = request_record_buff-Requested b r b1 got in
      let free : b1.accessing r ≡ false = ap (λ (f : ℕ → Bool). f r) z.accessing ∙ idle r in
      (
        r,
        record b1 { accessing = write b1.accessing r true },
        rw got (rw free refl),
        record {
          small = small;
          fresh = fresh;
          wrote = wrote;
          valid = record { partition = valid1.partition; mapped = valid1.mapped };
          slots = z.slots;
          less = z.less;
          idle = λ i ne.
              let other : b1.accessing i ≡ false =
                ap (λ (f : ℕ → Bool). f i) z.accessing ∙ idle i in
              unfold write in ground (arith, other, ne);
        },
      )
]
  where
    some_left : (xs : List ℕ) → 0 < length xs → (elim xs [ [] ↦ true | _ ∷ _ ↦ false ]) ≡ true → ⊥
    some_left [] h e = omega (arith, h)
    some_left (x ∷ xs) h e = cc

-- What the release of a written slot does.
pub record Released (b : Buffer) (idx : ℕ) (b' : Buffer) : Type 0 where
  pub valid : IsValid b'
  pub slots : b'.slots ≡ b.slots
  pub accessing : b'.accessing ≡ b.accessing
  pub more : length b'.idxes_empty ≡ suc (length b.idxes_empty)
  pub wrote :
      (a : ℕ) → member a b'.idxes_wrote ≡ (if a == idx then false else member a b.idxes_wrote)

pub release_buff-Released :
    (b : Buffer) (idx : ℕ)
    → IsValid b
    → member idx b.idxes_wrote ≡ true
    → (b' : Buffer) × (release_buff b idx ≡ ok b') × Released b idx b'
unfolding release_buff
release_buff-Released b idx valid there = elim (release-Moves b idx valid) [
  | inr (gone, fails) ↦ absurd (cc (gone, there))
  | inl (at, b', done, valid', wrote) ↦ elim (Bool-cases (member idx b.wrote_mapping)) [
    | inr out ↦ let done' = rw (out, release_buff) at done in absurd cc
    | inl in_map ↦
        let done' = rw (in_map, release_buff) at done in
        let after : Buffer = record b {
          idxes_wrote = remove idx b.idxes_wrote;
          wrote_mapping = remove idx b.wrote_mapping;
          idxes_empty = idx ∷ b.idxes_empty;
        } in
        let e : after ≡ b' = cc in
        let same : (after.slots ≡ b'.slots)
            × (after.accessing ≡ b'.accessing)
            × (after.idxes_empty ≡ b'.idxes_empty) =
          (ap (λ c. c.slots) e, ap (λ c. c.accessing) e, ap (λ c. c.idxes_empty) e) in
        (
          b',
          done,
          record {
            valid = valid';
            slots = sym same.0;
            accessing = sym same.1;
            more = ap length (sym same.2);
            wrote = wrote;
          },
        )
  ]
]
