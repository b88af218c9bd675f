-- ===== src/SkipList/Walk.antt =====
-- When a skip list is well formed, and how `get` walks through it.
use polardb_uncompleted.Base.{
  ℕ, zero, suc, ◌≤◌, ◌<◌, ◌≡◌, ◌≢◌, refl, sym, ◌∙◌, ◌⊎◌, inl, inr, Bool, true, false, not, ◌&&◌,
  ◌||◌, Option, none, some, List, [], ◌∷◌, ◌++◌, arith, ◌==◌, length, write,
}
use polardb_uncompleted.SkipList.{SkipList, new, step_right, descend}
use polardb_uncompleted.SkipList.Chains.{has, Chain, Chain-pos}
use polardb_uncompleted.SkipList.Levels.{Level, empty_level, give_all, give_back}
use polardb_uncompleted.SkipList.Order.{
  Ascends, last_le, after, Chain-after, last_le-after, last_le-has, last_le-found,
}
use polardb_uncompleted.SkipList.Resize.{IsReady, empty_level-IsReady}

abbrev pub key_at : Level → ℕ → ℕ
key_at l a = (l.nodes a).item.key

-- A level with the elements `xs` in ascending order. Node 0 has key 0.
pub record IsLevel (l : Level) (xs : List ℕ) : Type 0 where
  pub free : List ℕ
  pub ready : IsReady l xs free
  pub head : key_at l 0 ≡ 0
  pub ascends : Ascends (key_at l) xs

-- Each element but one leads to an element of the lower level with its key.
abbrev pub Down : Level → List ℕ → Level → List ℕ → ℕ → Type 0
Down u us l ls except =
    (a : ℕ)
    → has a us ≡ true
    → a ≢ except
    → (has (u.nodes a).bottom ls ≡ true) × (key_at l (u.nodes a).bottom ≡ key_at u a)

-- `xs i` are the places of the elements on level `i`. Node 0 is no element.
pub record IsValid (s : SkipList) (xs : ℕ → List ℕ) : Type 0 where
  pub levels : (i : ℕ) → IsLevel (s.levels i) (xs i)
  pub down : (i : ℕ) → Down (s.levels (suc i)) (xs (suc i)) (s.levels i) (xs i) 0

pub new-IsValid : (id : ℕ) → IsValid (new id) (λ i. [])
unfolding new
new-IsValid id =
    let (free, ready) = empty_level-IsReady in
    record {
      levels = λ i. record {
        free = free;
        ready = ready;
        head = unfold empty_level give_all give_back write in refl;
        ascends = tt;
      };
      down = λ i a m ne. cc;
    }

abbrev pub IsStart : Level → List ℕ → ℕ → ℕ → Type 0
IsStart l xs key c = (c ≡ 0) ⊎ ((has c xs ≡ true) × (key_at l c ≤ key))

step_right-Chain :
    (l : Level) (key rounds c : ℕ) (ys : List ℕ)
    → Chain l.nodes l.size (l.nodes c).next ys
    → length ys < rounds
    → step_right l key rounds c ≡ last_le (key_at l) key c ys
unfolding step_right last_le
step_right-Chain l key zero c ys h lt = absurd (omega arith)
step_right-Chain l key (suc rounds) c [] h lt = ground (arith, h)
step_right-Chain l key (suc rounds) c (y ∷ ys) (e, pos, less, once, rest) lt =
    let ih = step_right-Chain l key rounds y ys rest (omega arith) in rw (e, ih) (ground arith)

abbrev pub point : Level → List ℕ → ℕ → ℕ
point l xs key = last_le (key_at l) key 0 xs

pub step_right-point :
    (l : Level) (xs : List ℕ) (key c : ℕ)
    → IsLevel l xs
    → IsStart l xs key c
    → step_right l key l.size c ≡ point l xs key
step_right-point l xs key c h (inl z) =
    rw z (step_right-Chain l key l.size 0 xs h.ready.split.used (omega (arith, h.ready.total)))
step_right-point l xs key c h (inr (m, le)) =
    let (chain, less) = Chain-after l.nodes l.size (l.nodes 0).next c xs h.ready.split.used m in
    step_right-Chain l key l.size c (after c xs) chain (omega (arith, h.ready.total))
    ∙ sym (last_le-after (key_at l) key 0 c xs h.ascends m le)

-- One entry for each level below `lvl`, the highest first.
unfoldable pub downto : (ℕ → ℕ) → ℕ → List ℕ
downto f zero = []
downto f (suc lvl) = f lvl ∷ downto f lvl

module _ (s : SkipList) (xs : ℕ → List ℕ) (key : ℕ) where
  -- The trace of the levels below one, if the key is not there.
  abbrev pub points : ℕ → List ℕ
  points lvl = downto (λ i. point (s.levels i) (xs i) key) lvl

  abbrev pub Missing : ℕ → Type 0
  Missing lvl = (a : ℕ) → has a (xs lvl) ≡ true → key_at (s.levels lvl) a ≢ key

  abbrev pub Found : Option ℕ → Type 0
  Found r = (a : ℕ) × (r ≡ some a) × (has a (xs 0) ≡ true) × (key_at (s.levels 0) a ≡ key)

  -- What the walk below a level comes to.
  abbrev pub Outcome : ℕ → List ℕ → Option ℕ × List ℕ → Type 0
  Outcome lvl trace r =
      Found r.0 ⊎ ((r ≡ (none, trace ++ points lvl)) × ((i : ℕ) → i < lvl → Missing i))

  abbrev pub StartBelow : ℕ → ℕ → Type 0
  StartBelow zero c = Unit
  StartBelow (suc lvl) c = IsStart (s.levels lvl) (xs lvl) key c

  module _ (valid : IsValid s xs) where
    pub Down-at :
        (lvl a : ℕ)
        → has a (xs (suc lvl)) ≡ true
        → (has ((s.levels (suc lvl)).nodes a).bottom (xs lvl) ≡ true)
          × (key_at (s.levels lvl) ((s.levels (suc lvl)).nodes a).bottom
              ≡ key_at (s.levels (suc lvl)) a)
    Down-at lvl a m =
        let upper = s.levels (suc lvl) in
        let used = (valid.levels (suc lvl)).ready.split.used in
        valid.down lvl a m (λ z.
          omega
            (arith, Chain-pos upper.nodes upper.size (upper.nodes 0).next (xs (suc lvl)) used a m))

    pub descend-finds :
        (lvl c : ℕ) (trace : List ℕ)
        → has c (xs lvl) ≡ true
        → (has (descend s lvl c trace).0 (xs 0) ≡ true)
          × (key_at (s.levels 0) (descend s lvl c trace).0 ≡ key_at (s.levels lvl) c)
    unfolding descend
    descend-finds zero c trace m = (m, refl)
    descend-finds (suc lvl) c trace m =
        let (m', same) = Down-at lvl c m in
        let (found, key') = descend-finds lvl _ (trace ++ c ∷ []) m' in (found, key' ∙ same)

    -- The test of `get` on a level.
    abbrev pub hit : ℕ → Bool
    hit lvl =
        let p : ℕ = point (s.levels lvl) (xs lvl) key in
        (not (p == 0) || not (key == 0)) && key_at (s.levels lvl) p == key

    pub hit-has :
        (lvl : ℕ)
        → hit lvl ≡ true
        → (has (point (s.levels lvl) (xs lvl) key) (xs lvl) ≡ true)
          × (key_at (s.levels lvl) (point (s.levels lvl) (xs lvl) key) ≡ key)
    hit-has lvl t = elim (last_le-has (key_at (s.levels lvl)) key 0 (xs lvl)) [
      | inl z ↦
          let head = (valid.levels lvl).head in
          let t' : (not (key == 0) && (key_at (s.levels lvl) 0 == key)) ≡ true = rw z at t in
          absurd (ground arith)
      | inr (m, le) ↦ (m, ground arith)
    ]

    pub miss-Missing : (lvl : ℕ) → hit lvl ≡ false → Missing lvl
    miss-Missing lvl f a m e =
        let l = s.levels lvl in
        let at = last_le-found (key_at l) key 0 a (xs lvl) (valid.levels lvl).ascends m e in
        let pos =
          Chain-pos l.nodes l.size (l.nodes 0).next (xs lvl) (valid.levels lvl).ready.split.used a
            m in
        let f' : ((not (a == 0) || not (key == 0)) && key_at l a == key) ≡ false = rw at at f in
        ground arith
