-- ===== src/Tests/AntiEntropyTests.antt =====
-- internal/cluster/antientropy.go with the length in place of SHA-256, on tables of one item.
use hedgehog_db_opus.Base.{ℕ, ◌≡◌, refl, true, some, String, List, [], ◌∷◌, length}
use hedgehog_db_opus.Base.{nat_keys, string_keys, ◌==◌, if◌then◌else◌}
use hedgehog_db_opus.Base.GoMap.{GoMap, lookup, insert}
use hedgehog_db_opus.Cluster.AntiEntropy.{Digest, MerkleKv, MerkleNode, build_merkle_tree}
use hedgehog_db_opus.Cluster.AntiEntropy.{sync_table_with_node, send_keys, keys_to_send}
use hedgehog_db_opus.Cluster.AntiEntropy.Merkle.{leaf_keys, IsSmall, build_merkle_tree-leaf_keys}
use hedgehog_db_opus.Cluster.AntiEntropy.Divergence.{lookup-sync_table_with_node}

abbrev length_digest : Digest
length_digest = record {
  digest = λ bytes. if length bytes == 1 then "one" else "more";
  bytes_of = λ s. [];
}

abbrev two_items : List MerkleKv
two_items = record { key = "a"; value = 1 ∷ [] } ∷ record { key = "b"; value = 2 ∷ [] } ∷ []

build_merkle_tree-leaf_keys_example :
    (t : MerkleNode) × (build_merkle_tree length_digest two_items ≡ some t)
    × (leaf_keys t ≡ "a" ∷ "b" ∷ [])
    × IsSmall t
build_merkle_tree-leaf_keys_example = build_merkle_tree-leaf_keys length_digest two_items

abbrev local_items : GoMap String (List ℕ)
local_items = ("a", 1 ∷ []) ∷ []

abbrev remote_items : GoMap String (List ℕ)
remote_items = ("a", 5 ∷ 6 ∷ []) ∷ []

-- As net/url reads a key from an unescaped URL: "+" is a space there.
abbrev as_query : String → String
as_query k = if k == "+" then " " else k

lookup-sync_table_with_node_example :
    lookup "a" (
      sync_table_with_node length_digest
        (λ keys. keys)
        as_query
        (λ k. true)
        local_items
        remote_items)
    ≡ some (1 ∷ [])
unfolding lookup keys_to_send
lookup-sync_table_with_node_example =
    lookup-sync_table_with_node length_digest (λ keys. keys) as_query (λ k. true) local_items
      remote_items "a" (tt, tt) (λ i keys. refl) (refl, tt)

-- A key that is not read back as it is: the document is put under another key.
escaped_key :
    lookup " " (
      sync_table_with_node length_digest
        (λ keys. keys)
        as_query
        (λ k. true)
        (("+", 1 ∷ []) ∷ [])
        [])
    ≡ some (1 ∷ [])
unfolding lookup sync_table_with_node send_keys keys_to_send insert
escaped_key = refl
