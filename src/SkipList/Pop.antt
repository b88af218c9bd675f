-- ===== src/SkipList/Pop.antt =====
-- `pop_lvl_0` and `front_lvl_0`: the first element of level 0.
use polardb_uncompleted.Base.{ℕ, ◌<◌, ◌≡◌, ◌≢◌, false, none, some, List, [], ◌∷◌, arith, write}
use polardb_uncompleted.SkipList.Chains.{has, Chain, IsSplit, Chain-frame, has-zero}
use polardb_uncompleted.SkipList.Levels.{Level, pop, front}

-- The level after a pop of its first element `x`.
module _ (l : Level) (x : ℕ) (first : (l.nodes 0).next ≡ x) (pos : 0 < x) where
  popped : Level
  popped = (pop l).1

  pop-item : (pop l).0 ≡ some (l.nodes x).item
  unfolding pop write
  pop-item = ground arith

  popped-head : (popped.nodes 0).next ≡ (l.nodes x).next
  unfolding popped pop write
  popped-head = ground arith

  popped-node : (popped.nodes x).next ≡ (l.nodes 0).bottom
  unfolding popped pop write
  popped-node = ground arith

  popped-next : (a : ℕ) → a ≢ x → a ≢ 0 → (popped.nodes a).next ≡ (l.nodes a).next
  unfolding popped pop write
  popped-next a ne nz = ground arith

  popped-bottom : (popped.nodes 0).bottom ≡ x
  unfolding popped pop write
  popped-bottom = ground arith

  popped-same :
      (popped.size ≡ l.size)
      × (popped.capacity ≡ l.capacity)
      × ((a : ℕ) → (popped.nodes a).item ≡ (l.nodes a).item)
  unfolding popped pop write
  popped-same = (ground arith, ground arith, λ a. ground arith)

module _ (l : Level) (x : ℕ) (xs free : List ℕ) (h : IsSplit l (x ∷ xs) free) where
  x-pos : 0 < x
  x-pos = h.used.1

  head-x : (l.nodes 0).next ≡ x
  head-x = h.used.0

  after : Level
  after = popped l x head-x x-pos

  out_of_free : has x free ≡ false
  out_of_free = h.apart x (ground arith)

  kept-Chain :
      (q : ℕ) (ys : List ℕ)
      → has x ys ≡ false
      → Chain l.nodes l.size q ys
      → Chain after.nodes after.size q ys
  unfolding after
  kept-Chain q ys out c =
      let size = (popped-same l x head-x x-pos).0 in
      Chain-frame l.nodes (popped l x head-x x-pos).nodes l.size _ q ys (omega arith)
        (λ a m.
          popped-next l x head-x x-pos a (λ e. cc (m, rw (← e) at out))
            (λ e. cc (m, rw (← e) at (has-zero l.nodes l.size q ys c))))
        c

  after-IsSplit : IsSplit after xs (x ∷ free)
  unfolding after
  after-IsSplit = record {
    used = rw (popped-head l x head-x x-pos) (kept-Chain _ xs h.used.3 h.used.4);
    unused = (
      popped-bottom l x head-x x-pos,
      x-pos,
      omega (arith, h.used.2, (popped-same l x head-x x-pos).0),
      out_of_free,
      rw (popped-node l x head-x x-pos) (kept-Chain _ free out_of_free h.unused),
    );
    apart = λ a m. ground (arith, h.apart a, h.used.3);
  }

-- What `front_lvl_0` and `pop_lvl_0` do on a level whose elements are `xs`.
abbrev pub Pops : Level → List ℕ → List ℕ → Type 0
Pops l [] free = (front l ≡ none) × (pop l ≡ (none, l))
Pops l (x ∷ xs) free =
    (front l ≡ some (l.nodes x).item)
    × ((pop l).0 ≡ some (l.nodes x).item)
    × IsSplit (pop l).1 xs (x ∷ free)
    × ((a : ℕ) → ((pop l).1.nodes a).item ≡ (l.nodes a).item)

-- On an empty level `front` and `pop` return the null pointer and nothing changes. Otherwise both
-- return the first element, and `pop` removes it, keeps the others in order with their content, and
-- puts its node in front of the unused ones.
pub pop-Pops : (l : Level) (xs free : List ℕ) → IsSplit l xs free → Pops l xs free
unfolding pop front
pop-Pops l [] free h = (rw h.used, rw h.used)
pop-Pops l (x ∷ xs) free h =
    let split = after-IsSplit l x xs free h in
    (
      ground (arith, h.used.0, h.used.1),
      pop-item l x h.used.0 h.used.1,
      (unfold after popped in split),
      unfold popped in (popped-same l x h.used.0 h.used.1).2,
    )
