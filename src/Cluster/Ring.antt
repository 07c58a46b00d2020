-- ===== src/Cluster/Ring.antt =====
-- internal/cluster/ring.go: consistent hashing with virtual nodes. The FNV-1a hash of a string, the
-- label `fmt.Sprintf("%s#%d", nodeID, i)` and the order in which `sort.Slice` leaves virtual nodes
-- of one hash are parameters. `none` is an index out of range, a panic in Go.
-- The mutex is not modelled: every method holds it for its whole body.
pub mod Sorted
pub mod Owner
pub mod Replicas
pub mod Preference
pub mod Invariant
use mathlib.Core.List.{Perm}
use hedgehog_db_opus.Base.{ℕ, zero, suc, ◌+◌, ◌%◌, ◌≤◌, Bool, true, false, not, Option, none, some}
use hedgehog_db_opus.Base.{List, [], ◌∷◌, ◌++◌, String, string_keys, nat_keys, ltb, leb, ◌==◌}
use hedgehog_db_opus.Base.{if◌then◌else◌, length, get_elem?, All}
use hedgehog_db_opus.Base.GoMap.{GoMap, insert, delete, read}
use hedgehog_db_opus.Base.Search.{first_true}

pub record VNode : Type 0 where
  pub hash : ℕ
  pub node_id : String
  pub vnode_idx : ℕ

pub record Ring : Type 0 where
  pub vnodes : List VNode
  pub vnode_count : ℕ
  pub physical_nodes : GoMap String Bool

-- In order of the hashes.
abbrev pub IsSorted : List VNode → Type 0
IsSorted [] = Unit
IsSorted (v ∷ l) = All (λ w. v.hash ≤ w.hash) l × IsSorted l

-- What the ring takes from the standard library: a hash, the label of a virtual node, and a sort
-- that returns the same virtual nodes in order of their hashes.
pub record Library : Type 0 where
  pub hash_key : String → ℕ
  pub label : String → ℕ → String
  pub sort_vnodes : List VNode → List VNode
  pub sort-perm : (l : List VNode) → Perm (sort_vnodes l) l
  pub sort-IsSorted : (l : List VNode) → IsSorted (sort_vnodes l)

abbrev pub default_vnodes : ℕ
default_vnodes = 128

-- A count that is not positive is 0 here.
unfoldable pub new_ring : ℕ → Ring
new_ring vnodes_per_node = record {
  vnodes = [];
  vnode_count = if leb vnodes_per_node 0 then default_vnodes else vnodes_per_node;
  physical_nodes = [];
}

abbrev pub has_node : Ring → String → Bool
has_node r node_id = read false node_id r.physical_nodes

-- `r.vnodes[i].Hash >= hash`
unfoldable pub at_least : List VNode → ℕ → ℕ → Bool
at_least l h i = elim (get_elem? l i) [ none ↦ false | some v ↦ leb h v.hash ]

-- The index at which the walk round the ring starts.
unfoldable pub start_index : List VNode → ℕ → ℕ
start_index l h =
    let idx = first_true (length l) (at_least l h) in if idx == length l then 0 else idx

-- The loop that drops the virtual nodes of a node.
-- `Size` and `VNodes`.
abbrev pub size : Ring → ℕ
size r = length r.physical_nodes

abbrev pub all_vnodes : Ring → List VNode
all_vnodes r = r.vnodes

unfoldable pub without_node : String → List VNode → List VNode
without_node node_id [] = []
without_node node_id (v ∷ l) =
    let rest = without_node node_id l in if not (v.node_id == node_id) then v ∷ rest else rest

unfoldable pub remove_node : String → Ring → Ring
unfolding without_node
remove_node node_id r = if not (has_node r node_id) then r else record r {
  physical_nodes = delete node_id r.physical_nodes;
  vnodes = without_node node_id r.vnodes;
}

-- The loop of `GetNodes`, with the rounds that are left of `len(r.vnodes)`.
unfoldable pub get_nodes_loop :
    ℕ → List VNode → ℕ → ℕ → ℕ → GoMap String Bool → List String → Option (List String)
get_nodes_loop zero l idx i n seen result = some result
get_nodes_loop (suc rounds) l idx i n seen result =
    let next : Option (List String) = elim (get_elem? l ((idx + i) % length l)) [
      | none ↦ none
      | some v ↦
          get_nodes_loop rounds l idx (i + 1) n
            (if not (read false v.node_id seen) then insert v.node_id true seen else seen)
            (if not (read false v.node_id seen) then result ++ (v.node_id ∷ []) else result)
    ] in
    if ltb (length result) n then next else some result

-- The body of `GetNode` once the key is hashed.
unfoldable pub node_at : List VNode → ℕ → Option String
unfolding start_index
node_at l h =
    if length l == 0
    then some ""
    else elim (get_elem? l (start_index l h)) [ none ↦ none | some v ↦ some v.node_id ]

-- The body of `GetNodes` once the key is hashed. A nil slice is the empty list.
unfoldable pub nodes_at : List VNode → ℕ → ℕ → Option (List String)
unfolding start_index get_nodes_loop
nodes_at l h n =
    if length l == 0 then some [] else get_nodes_loop (length l) l (start_index l h) 0 n [] []

module _ (lib : Library) where
  -- The virtual nodes `i`, `i + 1`, … of a node.
  unfoldable pub vnodes_from : String → ℕ → ℕ → List VNode
  vnodes_from node_id i zero = []
  vnodes_from node_id i (suc n) =
      record { hash = lib.hash_key (lib.label node_id i); node_id = node_id; vnode_idx = i }
      ∷ vnodes_from node_id (i + 1) n

  unfoldable pub add_node : String → Ring → Ring
  unfolding vnodes_from
  add_node node_id r = if has_node r node_id then r else record r {
    physical_nodes = insert node_id true r.physical_nodes;
    vnodes = lib.sort_vnodes (r.vnodes ++ vnodes_from node_id 0 r.vnode_count);
  }

  unfoldable pub get_node : String → Ring → Option String
  unfolding node_at
  get_node key r = node_at r.vnodes (lib.hash_key key)

  unfoldable pub get_nodes : String → ℕ → Ring → Option (List String)
  unfolding nodes_at
  get_nodes key n r = nodes_at r.vnodes (lib.hash_key key) n
