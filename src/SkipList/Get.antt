-- ===== src/SkipList/Get.antt =====
-- `get` of class SkipList finds exactly the keys of level 0.
use polardb_uncompleted.Base.{
  ℕ, zero, suc, ◌≡◌, refl, sym, ◌∙◌, ap, inl, inr, true, false, Option, none, some, List, [], ◌∷◌,
  ◌++◌, arith, ◌==◌, if◌then◌else◌, ℕ_discrete, Bool-cases,
}
use mathlib.Core.List.{append_assoc, append-nil}
use polardb_uncompleted.SkipList.{SkipList, get_heighest_level, step_right, descend, get_loop, get}
use polardb_uncompleted.SkipList.Chains.{has}
use polardb_uncompleted.SkipList.Order.{last_le-has, last_le-found}
use polardb_uncompleted.SkipList.Walk.{
  downto, key_at, IsValid, StartBelow, point, points, step_right-point, Outcome, Missing, Down-at,
  descend-finds, hit, hit-has, miss-Missing,
}

module _ (s : SkipList) (xs : ℕ → List ℕ) (key : ℕ) (valid : IsValid s xs) where
  abbrev here : ℕ → ℕ
  here lvl = point (s.levels lvl) (xs lvl) key

  -- Where the walk goes on if the key is not found on a level.
  abbrev below : ℕ → ℕ
  below lvl = if here lvl == 0 then here lvl else ((s.levels lvl).nodes (here lvl)).bottom

  below-StartBelow : (lvl : ℕ) → StartBelow s xs key lvl (below lvl)
  below-StartBelow zero = tt
  below-StartBelow (suc lvl) = elim (ℕ_discrete (here (suc lvl)) 0) [
    | yes z ↦ inl (ground arith)
    | no ne ↦
        let t : (here (suc lvl) == 0) ≡ false = ground arith in
        elim (last_le-has (key_at (s.levels (suc lvl))) key 0 (xs (suc lvl))) [
          | inl z ↦ absurd (ne z)
          | inr (m, le) ↦
              let (m', same) = Down-at s xs key valid lvl (here (suc lvl)) m in
              rw t (inr (m', omega arith))
        ]
  ]

  loop_hit :
      (lvl c : ℕ) (trace : List ℕ)
      → step_right (s.levels lvl) key (s.levels lvl).size c ≡ here lvl
      → hit s xs key valid lvl ≡ true
      → get_loop s key (suc lvl) c trace
        ≡ (some (descend s lvl (here lvl) trace).0, (descend s lvl (here lvl) trace).1)
  unfolding get_loop
  loop_hit lvl c trace e t = rw (e, t, get_loop) refl

  loop_miss :
      (lvl c : ℕ) (trace : List ℕ)
      → step_right (s.levels lvl) key (s.levels lvl).size c ≡ here lvl
      → hit s xs key valid lvl ≡ false
      → get_loop s key (suc lvl) c trace ≡ get_loop s key lvl (below lvl) (trace ++ here lvl ∷ [])
  unfolding get_loop
  loop_miss lvl c trace e t = rw (e, t, get_loop) refl

  loop_end :
      (c : ℕ) (trace : List ℕ) → get_loop s key 0 c trace ≡ (none, trace ++ points s xs key 0)
  unfolding get_loop downto
  loop_end c trace = rw append-nil refl

  trace_on :
      (lvl : ℕ) (trace : List ℕ)
      → ◌≡◌ {A = Option ℕ × List ℕ}
          (none, (trace ++ here lvl ∷ []) ++ points s xs key lvl)
          (none, trace ++ points s xs key (suc lvl))
  unfolding downto
  trace_on lvl trace = rw (append_assoc trace (here lvl ∷ []) (points s xs key lvl)) refl

  get_loop-Outcome :
      (lvl c : ℕ) (trace : List ℕ)
      → StartBelow s xs key lvl c
      → Outcome s xs key lvl trace (get_loop s key lvl c trace)
  get_loop-Outcome zero c trace start = inr (loop_end c trace, λ i lt. absurd (omega arith))
  get_loop-Outcome (suc lvl) c trace start =
      let e = step_right-point (s.levels lvl) (xs lvl) key c (valid.levels lvl) start in
      elim (Bool-cases (hit s xs key valid lvl)) [
        | inl t ↦
            let (m, same) = hit-has s xs key valid lvl t in
            let (m', same') = descend-finds s xs key valid lvl (here lvl) trace m in
            rw (loop_hit lvl c trace e t) (inl (_, refl, m', same' ∙ same))
        | inr f ↦
            let absent = miss-Missing s xs key valid lvl f in
            rw (loop_miss lvl c trace e f)
              (elim (get_loop-Outcome lvl (below lvl) (trace ++ here lvl ∷ [])
                (below-StartBelow lvl)) [
                  | inl found ↦ inl found
                  | inr (result, missing) ↦ inr (
                    result ∙ trace_on lvl trace,
                    λ i lt. elim (ℕ_discrete i lvl) [
                      | yes same ↦ rw same absent
                      | no ne ↦ missing i (omega arith)
                    ],
                  )
                ])
      ]

  -- `get` finds an element of level 0 with the key, or it returns -1, there is none on the levels
  -- walked through, and the trace holds the last smaller place of each.
  pub get-Outcome : Outcome s xs key (suc (get_heighest_level s)) [] (get s key)
  unfolding get
  get-Outcome = get_loop-Outcome (suc (get_heighest_level s)) 0 [] (inl refl)

  same_place :
      (a b : ℕ)
      → has a (xs 0) ≡ true
      → has b (xs 0) ≡ true
      → key_at (s.levels 0) a ≡ key
      → key_at (s.levels 0) b ≡ key
      → a ≡ b
  same_place a b ma mb ea eb =
      sym (last_le-found (key_at (s.levels 0)) key 0 a (xs 0) (valid.levels 0).ascends ma ea)
      ∙ last_le-found (key_at (s.levels 0)) key 0 b (xs 0) (valid.levels 0).ascends mb eb

  pub get-found :
      (a : ℕ) → has a (xs 0) ≡ true → key_at (s.levels 0) a ≡ key → (get s key).0 ≡ some a
  get-found a m e = elim get-Outcome [
    | inl (b, r, mb, eb) ↦ r ∙ ap some (same_place b a mb m eb e)
    | inr (r, missing) ↦ absurd (missing 0 (omega arith) a m e)
  ]

  pub get-Missing : Missing s xs key 0 → (get s key).0 ≡ none
  get-Missing gone = elim get-Outcome [
    | inl (b, r, mb, eb) ↦ absurd (gone b mb eb)
    | inr (r, missing) ↦ ap (λ (t : Option ℕ × List ℕ). t.0) r
  ]
