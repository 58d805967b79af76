-- ===== src/Server/Map/Walk.antt =====
-- The walk round the slots that put, get_true_index and get of multi_thread_server/src/hashmap.c
-- make, and counting slots. Nothing here looks at what a slot holds.
use linux_system.Prelude.{
  ℕ, zero, suc, ◌+◌, ◌-◌, ◌≤◌, ◌<◌, ◌≡◌, refl, ◌≢◌, Bool, true, false, ◌&&◌, List, [], ◌∷◌, arith,
  ltb, leb, if◌then◌else◌, length, set, get_or-set_self, get_or-set_ne,
}
use linux_system.Server.Map.{MapNode, next_index, slot, empty_node}

pub slot-set_self :
    (nodes : List MapNode) (i : ℕ) (w : MapNode) → i < length nodes → slot (set nodes i w) i ≡ w
unfolding slot
slot-set_self nodes i w h = get_or-set_self nodes i w empty_node h

pub slot-set_ne :
    (nodes : List MapNode) (i j : ℕ) (w : MapNode) → i ≢ j → slot (set nodes i w) j ≡ slot nodes j
unfolding slot
slot-set_ne nodes i j w h = get_or-set_ne nodes i j w empty_node h

pub next_index-lt : (capacity i : ℕ) → i < capacity → next_index capacity i < capacity
unfolding next_index
next_index-lt capacity i h = ground arith

-- The next `r` slots from `i` on do not come to `j`.
abbrev pub Avoids : ℕ → ℕ → ℕ → ℕ → Type 0
Avoids capacity r i j = (i ≤ j → r ≤ j - i) × (j < i → r ≤ capacity - i + j)

pub Avoids-start :
    (capacity r j : ℕ) → j < capacity → r < capacity → Avoids capacity r (next_index capacity j) j
unfolding next_index
Avoids-start capacity r j h lt = ground arith

pub Avoids-ne : (capacity r i j : ℕ) → Avoids capacity (suc r) i j → i < capacity → j ≢ i
Avoids-ne capacity r i j h lt e = absurd (omega (arith, h.0 (omega arith)))

pub Avoids-next :
    (capacity r i j : ℕ)
    → Avoids capacity (suc r) i j
    → i < capacity
    → j < capacity
    → Avoids capacity r (next_index capacity i) j
unfolding next_index
Avoids-next capacity r i j h lt lj = ground arith

-- The first `r` slots of the walk from `i` all pass a test.
unfoldable pub walk_all : (MapNode → Bool) → ℕ → ℕ → List MapNode → ℕ → Bool
walk_all p zero capacity nodes i = true
walk_all p (suc r) capacity nodes i =
    p (slot nodes i) && walk_all p r capacity nodes (next_index capacity i)

-- The slot that lies `d` steps from `i`.
abbrev ahead : ℕ → ℕ → ℕ → ℕ
ahead capacity i d = if ltb (i + d) capacity then i + d else i + d - capacity

walk_all-ahead :
    (p : MapNode → Bool) (r capacity : ℕ) (nodes : List MapNode) (i d : ℕ)
    → walk_all p r capacity nodes i ≡ true
    → i < capacity
    → r ≤ capacity
    → d < r
    → p (slot nodes (ahead capacity i d)) ≡ true
unfolding walk_all
walk_all-ahead p zero capacity nodes i d h li lr ld = absurd (omega arith)
walk_all-ahead p (suc r) capacity nodes i zero h li lr ld =
    let e : ahead capacity i 0 ≡ i = ground arith in rw e (ground arith)
walk_all-ahead p (suc r) capacity nodes i (suc d) h li lr ld =
    let e : ahead capacity i (suc d) ≡ ahead capacity (next_index capacity i) d = shift in
    rw e (
      walk_all-ahead p r capacity nodes (next_index capacity i) d (ground arith)
        (next_index-lt capacity i li) (omega arith) (omega arith))
  where
    shift : ahead capacity i (suc d) ≡ ahead capacity (next_index capacity i) d
    shift = unfold next_index in ground arith

-- A walk of `capacity` steps visits every slot.
pub walk_all_slots :
    (p : MapNode → Bool) (capacity : ℕ) (nodes : List MapNode) (i x : ℕ)
    → walk_all p capacity capacity nodes i ≡ true
    → i < capacity
    → x < capacity
    → p (slot nodes x) ≡ true
walk_all_slots p capacity nodes i x h li lx =
    let d = if leb i x then x - i else x + capacity - i in
    let e : ahead capacity i d ≡ x = ground arith in
    rw e at (walk_all-ahead p capacity capacity nodes i d h li (omega arith) (ground arith))

abbrev pub to_nat : Bool → ℕ
to_nat true = 1
to_nat false = 0

-- How many slots pass a test.
unfoldable pub tally : (MapNode → Bool) → List MapNode → ℕ
tally p [] = 0
tally p (n ∷ ns) = to_nat (p n) + tally p ns

pub tally-le-length : (p : MapNode → Bool) (nodes : List MapNode) → tally p nodes ≤ length nodes
unfolding tally
tally-le-length p [] = omega arith
tally-le-length p (n ∷ ns) = ground (arith, tally-le-length p ns)

pub tally-eq-zero :
    (p : MapNode → Bool) (nodes : List MapNode)
    → ((x : ℕ) → x < length nodes → p (slot nodes x) ≡ false)
    → tally p nodes ≡ 0
unfolding tally slot
tally-eq-zero p [] h = refl
tally-eq-zero p (n ∷ ns) h =
    rw (h 0 (omega arith), tally-eq-zero p ns (λ x lt. h (suc x) (omega arith)))

pub tally-eq-length :
    (p : MapNode → Bool) (nodes : List MapNode)
    → ((x : ℕ) → x < length nodes → p (slot nodes x) ≡ true)
    → tally p nodes ≡ length nodes
unfolding tally slot
tally-eq-length p [] h = refl
tally-eq-length p (n ∷ ns) h =
    rw (h 0 (omega arith), tally-eq-length p ns (λ x lt. h (suc x) (omega arith))) (omega arith)

pub tally-set :
    (p : MapNode → Bool) (nodes : List MapNode) (i : ℕ) (w : MapNode)
    → i < length nodes
    → tally p (set nodes i w) + to_nat (p (slot nodes i)) ≡ tally p nodes + to_nat (p w)
unfolding tally slot
tally-set p [] i w h = absurd (omega arith)
tally-set p (n ∷ ns) zero w h = omega arith
tally-set p (n ∷ ns) (suc i) w h = omega (arith, tally-set p ns i w (omega arith))

pub tally-pos :
    (p : MapNode → Bool) (nodes : List MapNode) (i : ℕ)
    → i < length nodes
    → p (slot nodes i) ≡ true
    → 0 < tally p nodes
unfolding tally slot
tally-pos p [] i h e = absurd (omega arith)
tally-pos p (n ∷ ns) zero h e = rw e (omega arith)
tally-pos p (n ∷ ns) (suc i) h e = omega (arith, tally-pos p ns i (omega arith) e)

pub tally-set-le :
    (p : MapNode → Bool) (nodes : List MapNode) (i : ℕ) (w : MapNode)
    → i < length nodes
    → tally p (set nodes i w) ≤ tally p nodes + 1
tally-set-le p nodes i w h = ground (arith, tally-set p nodes i w h)
