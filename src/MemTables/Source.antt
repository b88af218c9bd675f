-- ===== src/MemTables/Source.antt =====
-- What the dumper asks of a skip list: `front_lvl_0` and `pop_lvl_0`, with the elements that they
-- stand for.
use polardb_uncompleted.Base.{ℕ, ◌≡◌, refl, ap, ap₂, Option, none, some, List, [], ◌∷◌, map}
use polardb_uncompleted.IndexHashMap.{KeyIdxPair}
use polardb_uncompleted.SkipList.Chains.{IsSplit}
use polardb_uncompleted.SkipList.Levels.{Level, pop, front}
use polardb_uncompleted.SkipList.Pop.{pop-Pops}

abbrev pub head? : List KeyIdxPair → Option KeyIdxPair
head? [] = none
head? (x ∷ xs) = some x

abbrev pub tail : List KeyIdxPair → List KeyIdxPair
tail [] = []
tail (x ∷ xs) = xs

pub record Source : Type 1 where
  pub Table : Type 0
  pub front : Table → Option KeyIdxPair
  pub pop : Table → Option KeyIdxPair × Table
  pub items : Table → List KeyIdxPair
  pub front_lem : (t : Table) → front t ≡ head? (items t)
  pub pop_lem : (t : Table) → ((pop t).0 ≡ head? (items t)) × (items (pop t).1 ≡ tail (items t))

-- A level 0 together with its elements and unused nodes.
pub record Front : Type 0 where
  pub level : Level
  pub xs : List ℕ
  pub free : List ℕ
  pub split : IsSplit level xs free

unfoldable pub level_items : Front → List KeyIdxPair
level_items t = map (λ a. (t.level.nodes a).item) t.xs

advance : (l : Level) (xs free : List ℕ) → IsSplit l xs free → Front
advance l [] free h = record { level = l; xs = []; free = free; split = h }
advance l (x ∷ xs) free h = record {
  level = (pop l).1;
  xs = xs;
  free = x ∷ free;
  split = (pop-Pops l (x ∷ xs) free h).2;
}

pub level_pop : Front → Option KeyIdxPair × Front
level_pop t = ((pop t.level).0, advance t.level t.xs t.free t.split)

pub level_front-head : (t : Front) → front t.level ≡ head? (level_items t)
unfolding level_items
level_front-head t = by_elements t.level t.xs t.free t.split
  where
    by_elements :
        (l : Level) (xs free : List ℕ)
        → IsSplit l xs free
        → front l ≡ head? (map (λ a. (l.nodes a).item) xs)
    by_elements l [] free h = (pop-Pops l [] free h).0
    by_elements l (x ∷ xs) free h = (pop-Pops l (x ∷ xs) free h).0

map_same : (f g : ℕ → KeyIdxPair) (xs : List ℕ) → ((a : ℕ) → f a ≡ g a) → map f xs ≡ map g xs
map_same f g [] same = refl
map_same f g (x ∷ xs) same = ap₂ ◌∷◌ (same x) (map_same f g xs same)

pub level_pop-tail :
    (t : Front)
    → ((level_pop t).0 ≡ head? (level_items t))
      × (level_items (level_pop t).1 ≡ tail (level_items t))
unfolding level_items level_pop advance
level_pop-tail t = by_elements t.level t.xs t.free t.split
  where
    by_elements :
        (l : Level) (xs free : List ℕ) (h : IsSplit l xs free)
        → ((pop l).0 ≡ head? (map (λ a. (l.nodes a).item) xs))
          × (map (λ a. ((advance l xs free h).level.nodes a).item) (advance l xs free h).xs
              ≡ tail (map (λ a. (l.nodes a).item) xs))
    by_elements l [] free h = (ap (λ r. r.0) (pop-Pops l [] free h).1, refl)
    by_elements l (x ∷ xs) free h =
        let (f, p, split, same) = pop-Pops l (x ∷ xs) free h in (p, map_same _ _ xs same)

-- Level 0 of a skip list is such a source.
abbrev pub skip_list : Source
skip_list = record {
  Table = Front;
  front = λ t. front t.level;
  pop = level_pop;
  items = level_items;
  front_lem = level_front-head;
  pop_lem = level_pop-tail;
}

-- Tables at their addresses.
abbrev pub owned : Source → Source
owned source = record {
  Table = ℕ × source.Table;
  front = λ t. source.front t.1;
  pop = λ t. ((source.pop t.1).0, (t.0, (source.pop t.1).1));
  items = λ t. source.items t.1;
  front_lem = λ t. source.front_lem t.1;
  pop_lem = λ t. source.pop_lem t.1;
}
