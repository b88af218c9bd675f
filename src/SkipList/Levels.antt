-- ===== src/SkipList/Levels.antt =====
-- One level of class SkipList (engine_race/DBSystem/SkipList.cpp): an array that holds two linked
-- lists, the elements from `next` of node 0 and the unused nodes from `bottom` of node 0.
use polardb_uncompleted.Base.{
  ℕ, zero, suc, ◌-◌, ◌*◌, Option, none, some, ◌==◌, ltb, if◌then◌else◌, write,
}
use polardb_uncompleted.Base.Run.{Run, ok, assertion_failed}
use polardb_uncompleted.Index.{Index, new as new_index}
use polardb_uncompleted.IndexHashMap.{KeyIdxPair}

abbrev pub skip_list_init_capacity : ℕ
skip_list_init_capacity = 10

pub record SkipListNode : Type 0 where
  pub item : KeyIdxPair
  pub next : ℕ
  pub bottom : ℕ

-- `SkipListNode()`, and `KeyIdxPair` in it
abbrev pub new_node : SkipListNode
new_node = record { item = record { key = 0; idx = new_index }; next = 0; bottom = 0 }

-- `nodes i` for `i < size` is the vector's content; `capacity` counts unused nodes.
pub record Level : Type 0 where
  pub nodes : ℕ → SkipListNode
  pub size : ℕ
  pub capacity : ℕ

abbrev pub node_at : Level → ℕ → SkipListNode
node_at l i = l.nodes i

unfoldable pub set_next : Level → ℕ → ℕ → Level
set_next l i v = record l { nodes = write l.nodes i (record (l.nodes i) { next = v }) }

unfoldable pub set_bottom : Level → ℕ → ℕ → Level
set_bottom l i v = record l { nodes = write l.nodes i (record (l.nodes i) { bottom = v }) }

unfoldable pub set_data : Level → ℕ → KeyIdxPair → Level
set_data l i v = record l { nodes = write l.nodes i (record (l.nodes i) { item = v }) }

-- Two assignments that put a node in front of the unused ones.
unfoldable pub give_back : Level → ℕ → Level
unfolding set_next set_bottom
give_back l node = set_bottom (set_next l node (l.nodes 0).bottom) 0 node

-- The for loops that make `count` new nodes unused, from `node` on.
unfoldable pub give_all : Level → ℕ → ℕ → Level
unfolding give_back
give_all l node zero = l
give_all l node (suc count) = give_all (give_back l node) (suc node) count

-- The body of the constructor's loop over the levels.
unfoldable pub empty_level : Level
empty_level =
    let capacity : ℕ = skip_list_init_capacity - 1 in
    give_all (record { nodes = λ i. new_node; size = skip_list_init_capacity; capacity = capacity })
      1 capacity

unfoldable pub check_and_resize : Level → Level
check_and_resize l =
    let pre_size : ℕ = l.size in
    let resized : Level = record {
      nodes = λ i. if ltb i pre_size then l.nodes i else new_node;
      size = pre_size * 2;
      capacity = pre_size * 2 - pre_size;
    } in
    if l.capacity == 0 then give_all resized pre_size pre_size else l

-- The level and the place of the new node.
unfoldable pub insert_after : ℕ → Index → Level → ℕ → Run (Level × ℕ)
unfolding set_next set_bottom set_data
insert_after key index l insert_node_idx =
    if l.capacity == 0
    then assertion_failed
    else let empty : ℕ = (l.nodes 0).bottom in
      let l₁ = set_bottom l 0 (l.nodes empty).next in
      let l₂ = set_next l₁ empty (l₁.nodes insert_node_idx).next in
      let l₃ = set_next l₂ insert_node_idx empty in
      let l₄ = set_data l₃ empty (record { key = key; idx = index }) in
      ok (check_and_resize (record l₄ { capacity = l₄.capacity - 1 }), empty)

-- `pop_lvl_0` on level 0: the record and the level without it.
unfoldable pub pop : Level → Option KeyIdxPair × Level
unfolding set_next set_bottom
pop l =
    let pop_idx : ℕ = (l.nodes 0).next in
    if pop_idx == 0
    then (none, l)
    else let l₁ = set_next l 0 (l.nodes pop_idx).next in
      let l₂ = set_next l₁ pop_idx (l₁.nodes 0).bottom in
      let l₃ = set_bottom l₂ 0 pop_idx in (some (l₃.nodes pop_idx).item, l₃)

-- `front_lvl_0` on level 0
unfoldable pub front : Level → Option KeyIdxPair
front l = let first : ℕ = (l.nodes 0).next in if first == 0 then none else some (l.nodes first).item
