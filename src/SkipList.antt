-- ===== src/SkipList.antt =====
-- engine_race/DBSystem/SkipList.cpp, class SkipList: linked levels over arrays, a lock and a
-- dumping flag. Random numbers and the keys come from outside.
pub mod Levels
pub mod Chains
pub mod Resize
pub mod Link
pub mod Insert
pub mod Pop
pub mod Height
pub mod Order
pub mod Keep
pub mod Walk
pub mod Get
pub mod Grow
pub mod Build
pub mod Trace
pub mod Loop
pub mod Refine
pub mod Update
pub mod Reword
pub mod Map
pub mod Flags
use Levels.{
  Level, SkipListNode, empty_level, insert_after, pop, front, set_bottom, node_at, set_data,
}
use polardb_uncompleted.Base.{
  ℕ, zero, suc, ◌+◌, ◌-◌, ◌%◌, ◌≡◌, refl, Bool, true, false, not, ◌&&◌, ◌||◌, Option, none, some,
  List, [], ◌∷◌, ◌++◌, ◌==◌, ltb, leb, if◌then◌else◌, length, write,
}
use polardb_uncompleted.Base.Run.{Run, ok, ◌>>=◌}
use polardb_uncompleted.Index as Word
use polardb_uncompleted.Index.{Index}
use polardb_uncompleted.IndexHashMap.{KeyIdxPair}

abbrev pub skip_list_max_height : ℕ
skip_list_max_height = 12

abbrev pub possibility_gen_upper : ℕ
possibility_gen_upper = 4

-- `levels i` is `sk_data[i]` with `sk_capacity[i]`; `locked` is the state of `data_mutex`.
pub record SkipList : Type 0 where
  pub levels : ℕ → Level
  pub id : ℕ
  pub dumping : Bool
  pub locked : Bool

unfoldable pub new : ℕ → SkipList
new id = record { levels = λ i. empty_level; id = id; dumping = false; locked = false }

-- The highest level with an element, 0 if there is none. The loop runs down from `ret`.
unfoldable pub heighest_from : SkipList → ℕ → ℕ
heighest_from s zero = 0
heighest_from s (suc ret) =
    let lower = heighest_from s ret in
    if (node_at (s.levels (suc ret)) 0).next == 0 then lower else suc ret

unfoldable pub get_heighest_level : SkipList → ℕ
unfolding heighest_from
get_heighest_level s = heighest_from s (skip_list_max_height - 1)

-- The inner loop of `get`: to the last node of a level whose key is at most the given one. A
-- level of `size` nodes is left after fewer rounds than it has nodes.
unfoldable pub step_right : Level → ℕ → ℕ → ℕ → ℕ
step_right l key zero curridx = curridx
step_right l key (suc rounds) curridx =
    let next : ℕ = (node_at l curridx).next in
    let rest = step_right l key rounds next in
    if not (next == 0) && leb (node_at l next).item.key key then rest else curridx

-- `while(lvl)` of `get`: the nodes below a found node are pushed too.
unfoldable pub descend : SkipList → ℕ → ℕ → List ℕ → ℕ × List ℕ
descend s zero curridx trace = (curridx, trace)
descend s (suc lvl) curridx trace =
    descend s lvl (node_at (s.levels (suc lvl)) curridx).bottom (trace ++ curridx ∷ [])

-- The outer loop of `get`, by the levels left. The result is the node on level 0, if the key was
-- found, and the trace.
unfoldable pub get_loop : SkipList → ℕ → ℕ → ℕ → List ℕ → Option ℕ × List ℕ
unfolding step_right descend
get_loop s key zero curridx trace = (none, trace)
get_loop s key (suc lvl) curridx trace =
    let l = s.levels lvl in
    let curr : ℕ = step_right l key l.size curridx in
    let found = descend s lvl curr trace in
    let below : ℕ = if curr == 0 then curr else (node_at l curr).bottom in
    let rest = get_loop s key lvl below (trace ++ curr ∷ []) in
    if (not (curr == 0) || not (key == 0)) && (node_at l curr).item.key == key
    then (some found.0, found.1)
    else rest

unfoldable pub get : SkipList → ℕ → Option ℕ × List ℕ
unfolding get_loop get_heighest_level
get s key = get_loop s key (suc (get_heighest_level s)) 0 []

unfoldable pub direct_get : SkipList → ℕ → Index
direct_get s lvl0_idx = (node_at (s.levels 0) lvl0_idx).item.idx

-- `random i` is the result of the i-th call of `random()`.
unfoldable pub height_loop : (ℕ → ℕ) → ℕ → ℕ → ℕ
height_loop random zero k = k
height_loop random (suc rounds) k =
    let rest = height_loop random rounds (k + 1) in
    if random (k - 1) % possibility_gen_upper == 0 then rest else k

unfoldable pub get_insert_height : (ℕ → ℕ) → ℕ
unfolding height_loop
get_insert_height random = height_loop random (skip_list_max_height - 1) 1

-- The insertion point of a level, with the rest of the trace: entries of higher levels are passed
-- over by `continue`.
unfoldable pub insert_point : ℕ → List ℕ → ℕ × List ℕ
insert_point lvl [] = (0, [])
insert_point lvl (t ∷ ts) =
    let rest = insert_point lvl ts in
    if leb (length (t ∷ ts)) lvl then (0, t ∷ ts) else if ltb lvl (length ts) then rest else (t, ts)

-- `sk_data[insert_lvl+1][prev_insert_place].bottom = insert_place`
unfoldable pub link_down : SkipList → ℕ → ℕ → ℕ → SkipList
link_down s upper prev place =
    if prev == 0
    then s
    else record s { levels = write s.levels upper (set_bottom (s.levels upper) prev place) }

-- The insertion loop of `update`, by the levels left.
unfoldable pub insert_loop : ℕ → Index → SkipList → ℕ → List ℕ → ℕ → ℕ → Run (SkipList × ℕ)
unfolding insert_point link_down
insert_loop key index s zero trace prev idx = ok (s, idx)
insert_loop key index s (suc lvl) trace prev idx =
    let (point, rest) = insert_point lvl trace in
    insert_after key index (s.levels lvl) point >>= λ (l, place).
    let inserted = record s { levels = write s.levels lvl l } in
    insert_loop key index (link_down inserted (suc lvl) prev place) lvl rest place place

-- `height` is the result of `get_insert_height`.
unfoldable pub update : SkipList → ℕ → Index → ℕ → Run (SkipList × ℕ)
unfolding get insert_loop
update s key index height =
    let (found, trace) = get s key in
    elim found [
      | none ↦ insert_loop key index s height trace 0 0
      | some idx ↦
          let old = node_at (s.levels 0) idx in
          let word = Word.set_fid (Word.set_idx old.item.idx (Word.get_idx index)) s.id in
          let l = set_data (s.levels 0) idx (record { key = old.item.key; idx = word }) in
          if idx == 0
          then insert_loop key index s height trace 0 0
          else ok (record s { levels = write s.levels 0 l }, idx)
    ]

unfoldable pub cnt_ns : SkipList → ℕ
cnt_ns s = (s.levels 0).size - (s.levels 0).capacity - 1

-- A lock that is taken stays taken when the list is dumping.
unfoldable pub try_lock : SkipList → Bool × SkipList
try_lock s = if s.locked then (false, s) else (not s.dumping, record s { locked = true })

unfoldable pub set_dumping : SkipList → SkipList
set_dumping s = record s { dumping = true }

unfoldable pub un_lock : SkipList → SkipList
un_lock s = record s { locked = false }

unfoldable pub pop_lvl_0 : SkipList → Option KeyIdxPair × SkipList
pop_lvl_0 s = let (r, l) = pop (s.levels 0) in (r, record s { levels = write s.levels 0 l })

unfoldable pub front_lvl_0 : SkipList → Option KeyIdxPair
front_lvl_0 s = front (s.levels 0)
