-- ===== src/Index/Setters.antt =====
-- What each setter of class Index does to the fields.
use Prim.Native.Nat.{bit_or}
use polardb_uncompleted.Base.{
  ℕ, ◌+◌, ◌*◌, ◌/◌, ◌%◌, ◌^◌, ◌<◌, ◌≡◌, ap, ◌∙◌, Bool, true, false, arith, if◌then◌else◌,
}
use polardb_uncompleted.Base.Bits.{bit_or-zero, zero-bit_or}
use polardb_uncompleted.Index.Word.{
  word, flags-bit_and, flags-bit_or, top_bits, high_or_low, zero_fields, low_fields,
}
use polardb_uncompleted.Index.Fields.{
  Fields, IsSized, encode, masked, joined, keep_idx, keep_fid, keep_flags, zero_fid,
}
use polardb_uncompleted.Index.{
  Index, clear_fid, clear_idx, set_fid, set_idx, set_in_hash, set_in_file, set_if_writing,
}

module _ (v : Fields) (z : IsSized v) where
  open v use {idx, reserved, writing, in_hash, in_file, fid}

  -- `set_in_file` sets or clears `in_file` and leaves every other field.
  pub set_in_file-encode : (b : Bool) → set_in_file (encode v) b ≡ encode (record v { in_file = b })
  unfolding set_in_file encode word
  set_in_file-encode true =
      ap (λ s. record { status = s })
        (joined v z 0 1 0 (omega arith) (omega arith)
          ∙ rw
              (bit_or-zero idx, bit_or-zero fid, (flags-bit_or reserved writing in_hash in_file).1))
  set_in_file-encode false =
      ap (λ s. record { status = s })
        (masked v z 0xfffff 14 0xff (omega arith) (omega arith)
          ∙ rw (keep_idx v z, keep_fid v z, (flags-bit_and reserved writing in_hash in_file).4))

  -- `set_in_hash` sets `in_hash` and leaves every other field; clearing `in_hash` clears `in_file` too.
  pub set_in_hash-encode :
      (b : Bool)
      → set_in_hash (encode v) b
        ≡ encode (record v { in_hash = b; in_file = if b then in_file else false })
  unfolding set_in_hash encode word
  set_in_hash-encode true =
      ap (λ s. record { status = s })
        (joined v z 0 2 0 (omega arith) (omega arith)
          ∙ rw
              (bit_or-zero idx, bit_or-zero fid, (flags-bit_or reserved writing in_hash in_file).0))
  set_in_hash-encode false =
      ap (λ s. record { status = s })
        (masked v z 0xfffff 12 0xff (omega arith) (omega arith)
          ∙ rw (keep_idx v z, keep_fid v z, (flags-bit_and reserved writing in_hash in_file).3))

  -- `set_if_writing` sets `writing` and leaves every other field; clearing `writing` clears `in_file`
  -- too.
  pub set_if_writing-encode :
      (b : Bool)
      → set_if_writing (encode v) b
        ≡ encode (record v { writing = b; in_file = if b then in_file else false })
  unfolding set_if_writing encode word
  set_if_writing-encode true =
      ap (λ s. record { status = s })
        (joined v z 0 4 0 (omega arith) (omega arith)
          ∙ rw
              (bit_or-zero idx, bit_or-zero fid, (flags-bit_or reserved writing in_hash in_file).2))
  set_if_writing-encode false =
      ap (λ s. record { status = s })
        (masked v z 0xfffff 10 0xff (omega arith) (omega arith)
          ∙ rw (keep_idx v z, keep_fid v z, (flags-bit_and reserved writing in_hash in_file).5))

  clear_fid-encode : clear_fid (encode v) ≡ encode (record v { fid = 0 })
  unfolding clear_fid encode word
  clear_fid-encode =
      ap (λ s. record { status = s })
        (masked v z 0xfffff 15 0 (omega arith) (omega arith)
          ∙ rw (keep_idx v z, keep_flags v z, zero_fid v z))

  -- `0xc0000fff` keeps the top two bits of the index.
  clear_idx-encode : clear_idx (encode v) ≡ encode (record v { idx = idx / 2 ^ 18 * 2 ^ 18 })
  unfolding clear_idx encode word
  clear_idx-encode =
      ap (λ s. record { status = s })
        (masked v z 0xc0000 15 0xff (omega arith) (omega arith)
          ∙ rw (top_bits idx z.idx, keep_flags v z, keep_fid v z))

module _ (v : Fields) (z : IsSized v) where
  -- The new index is joined to the two bits that `clear_idx` keeps.
  set_idx-bit_or :
      (i : ℕ)
      → i < 2 ^ 20
      → set_idx (encode v) i ≡ encode (record v { idx = bit_or (v.idx / 2 ^ 18 * 2 ^ 18) i })
  unfolding set_idx encode word
  set_idx-bit_or i h =
      let kept : Fields = record v { idx = v.idx / 2 ^ 18 * 2 ^ 18 } in
      let z' : IsSized kept = record { idx = omega (arith, z.idx); fid = z.fid } in
      let shifted : i * 2 ^ 12 % 2 ^ 32 ≡ word i 0 0 = omega arith in
      ap (λ (c : Index). record { status = bit_or c.status (i * 2 ^ 12 % 2 ^ 32) })
        (clear_idx-encode v z)
      ∙ ap (λ s. record { status = s })
          (ap (bit_or (encode kept).status) shifted
            ∙ joined kept z' i 0 0 (omega arith) (omega arith)
            ∙ rw (bit_or-zero v.fid, (flags-bit_or v.reserved v.writing v.in_hash v.in_file).3))

  -- Over an index below 2 ^ 18, `set_idx` stores any index of 20 bits and leaves the other fields.
  pub set_idx-encode :
      (i : ℕ) → i < 2 ^ 20 → v.idx < 2 ^ 18 → set_idx (encode v) i ≡ encode (record v { idx = i })
  set_idx-encode i h low =
      let cleared : v.idx / 2 ^ 18 * 2 ^ 18 ≡ 0 = omega arith in
      set_idx-bit_or i h
      ∙ ap (λ (n : ℕ). encode (record v { idx = n })) (rw (cleared, zero-bit_or i))

  -- An index below 2 ^ 18 is stored with the two top bits of the old index, which may be any of
  -- 20 bits; the other fields stay.
  pub set_idx-keeps_top :
      (i : ℕ)
      → i < 2 ^ 18
      → set_idx (encode v) i ≡ encode (record v { idx = v.idx / 2 ^ 18 * 2 ^ 18 + i })
  set_idx-keeps_top i low =
      set_idx-bit_or i (omega arith)
      ∙ ap (λ (n : ℕ). encode (record v { idx = n })) (high_or_low (v.idx / 2 ^ 18) i low)

  -- A file number of 8 bits replaces the old one; the next 256 numbers set `in_file` as well.
  pub set_fid-encode :
      (d : ℕ)
      → d < 2 ^ 8
      → (set_fid (encode v) d ≡ encode (record v { fid = d }))
        × (set_fid (encode v) (2 ^ 8 + d) ≡ encode (record v { fid = d; in_file = true }))
  unfolding set_fid clear_fid encode word
  set_fid-encode d h =
      let kept : Fields = record v { fid = 0 } in
      let z' : IsSized kept = record { idx = z.idx; fid = omega arith } in
      (
        ap (λ (c : Index). record { status = bit_or c.status d }) (clear_fid-encode v z)
            ∙ ap (λ s. record { status = s })
                (ap (bit_or (encode kept).status) (zero_fields d)
                  ∙ joined kept z' 0 0 d (omega arith) h
                  ∙ rw (
                    bit_or-zero v.idx,
                    zero-bit_or d,
                    (flags-bit_or v.reserved v.writing v.in_hash v.in_file).3,
                  )),
        ap (λ (c : Index). record { status = bit_or c.status (2 ^ 8 + d) }) (clear_fid-encode v z)
            ∙ ap (λ s. record { status = s })
                (ap (bit_or (encode kept).status) (low_fields d)
                  ∙ joined kept z' 0 1 d (omega arith) h
                  ∙ rw (
                    bit_or-zero v.idx,
                    zero-bit_or d,
                    (flags-bit_or v.reserved v.writing v.in_hash v.in_file).1,
                  )),
      )
