-- ===== src/Cluster/AntiEntropy.antt =====
-- internal/cluster/antientropy.go: the Merkle tree over the items of a table, and the one-way sync of
-- a table with another node. SHA-256 with its hexadecimal form is `digest`, and the bytes of a string
-- are `bytes_of`; what net/url reads back of a key from a URL is `read_back`. An item is a key with the bytes of its document. The walk over a Go map is in
-- the order of the list; the theorems hold for every list.
pub mod Merkle
pub mod Divergence
use hedgehog_db_opus.Base.{
  ℕ, zero, suc, ◌+◌, ◌-◌, ◌/◌, Bool, true, false, not, ◌||◌, Option, none, some,
}
use hedgehog_db_opus.Base.{
  String, List, [], ◌∷◌, ◌++◌, map, length, get_elem?, take, drop, ltb, ◌==◌, string_keys,
}
use hedgehog_db_opus.Base.{if◌then◌else◌, nat_keys}
use hedgehog_db_opus.Base.GoMap.{GoMap, lookup, insert, value_or}

pub record Digest : Type 0 where
  pub digest : List ℕ → String
  pub bytes_of : String → List ℕ

-- `merkleKV`
pub record MerkleKv : Type 0 where
  pub key : String
  pub value : List ℕ

-- `MerkleNode`: the hash, the range of the keys, and the keys of a leaf or the two subtrees.
pub data MerkleNode : Type 0 where
  leaf : String → String × String → List String → MerkleNode
  node : String → String × String → MerkleNode → MerkleNode → MerkleNode

abbrev pub node_hash : MerkleNode → String
node_hash (leaf h r keys) = h
node_hash (node h r left right) = h

-- `items[i].key`, a panic in Go out of range.
abbrev pub key_at : List MerkleKv → ℕ → String
key_at items i = elim (get_elem? items i) [ none ↦ "" | some e ↦ e.key ]

-- `items[lo]` to `items[hi]`.
abbrev pub segment : List MerkleKv → ℕ → ℕ → List MerkleKv
segment items lo hi = take (hi + 1 - lo) (drop lo items)

module _ (d : Digest) where
  -- The bytes that the loop of a leaf writes.
  abbrev pub leaf_bytes : List MerkleKv → List ℕ
  leaf_bytes [] = []
  leaf_bytes (e ∷ items) = d.bytes_of e.key ++ (e.value ++ leaf_bytes items)

  -- `buildMerkleRecursive`, with fuel.
  unfoldable pub build_merkle : ℕ → List MerkleKv → ℕ → ℕ → Option MerkleNode
  build_merkle zero items lo hi = none
  build_merkle (suc fuel) items lo hi = elim (ltb (hi - lo) 16) [
    | true ↦ some (
        leaf (d.digest (leaf_bytes (segment items lo hi))) (key_at items lo, key_at items hi)
          (map (λ (e : MerkleKv). e.key) (segment items lo hi)))
    | false ↦ elim (build_merkle fuel items lo ((lo + hi) / 2)) [
      | none ↦ none
      | some left ↦ elim (build_merkle fuel items ((lo + hi) / 2 + 1) hi) [
        | none ↦ none
        | some right ↦ some (
            node (d.digest (d.bytes_of (node_hash left) ++ d.bytes_of (node_hash right)))
              (key_at items lo, key_at items hi) left right)
      ]
    ]
  ]

  -- `BuildMerkleTree`, on the items of the scan.
  unfoldable pub build_merkle_tree : List MerkleKv → Option MerkleNode
  build_merkle_tree [] = some (leaf (d.digest []) ("", "") [])
  build_merkle_tree (e ∷ items) =
      build_merkle (length (e ∷ items)) (e ∷ items) 0 (length (e ∷ items) - 1)

  -- What the other node answers: the hash of each of its keys.
  abbrev pub remote_hashes : GoMap String (List ℕ) → GoMap String String
  remote_hashes [] = []
  remote_hashes ((k, v) ∷ m) = (k, d.digest v) ∷ remote_hashes m

  -- The test of the loop over the local keys.
  abbrev pub is_divergent : String → List ℕ → GoMap String String → Bool
  is_divergent key value remote_keys = elim (lookup key remote_keys) [
    | none ↦ true
    | some remote_hash ↦ not (remote_hash == d.digest value)
  ]

  unfoldable pub keys_to_send : GoMap String (List ℕ) → GoMap String String → List String
  keys_to_send [] remote_keys = []
  keys_to_send ((k, v) ∷ local) remote_keys =
      let rest = keys_to_send local remote_keys in
      if is_divergent k v remote_keys then k ∷ rest else rest

  -- The loop that sends the keys: a put that is delivered changes the other node, and one that fails
  -- is passed over. The key stands unescaped in the URL, and `read_back` is what the handler of the
  -- other node finds there, the value of `key` in the query: the document is put under it.
  unfoldable pub send_keys :
      (String → String)
      → (String → Bool)
      → GoMap String (List ℕ)
      → List String
      → GoMap String (List ℕ)
      → GoMap String (List ℕ)
  send_keys read_back delivered local [] remote = remote
  send_keys read_back delivered local (k ∷ keys) remote =
      send_keys read_back delivered local keys
        (if delivered k then insert (read_back k) (value_or [] (lookup k local)) remote else remote)

  -- `syncTableWithNode`: the items of the other node afterwards. `sort` is `sort.Strings`.
  unfoldable pub sync_table_with_node :
      (List String → List String)
      → (String → String)
      → (String → Bool)
      → GoMap String (List ℕ)
      → GoMap String (List ℕ)
      → GoMap String (List ℕ)
  sync_table_with_node sort read_back delivered local remote =
      send_keys read_back delivered local (sort (keys_to_send local (remote_hashes remote))) remote
