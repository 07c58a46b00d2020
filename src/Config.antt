-- ===== src/Config.antt =====
-- internal/config/config.go: the checks of a configuration and its defaults. The numbers are Go ints;
-- one below 0 is 0 here, which every check refuses alike. Reading the JSON file is not modelled.
use hedgehog_db_opus.Base.{ℕ, ◌||◌, Option, none, some, List, [], String}
use hedgehog_db_opus.Base.{
  string_keys, nat_keys, ltb, ◌==◌, if◌then◌else◌, ◌≡◌, ◌≢◌, ◌↔◌, arith, ==_iff,
}
use hedgehog_db_opus.Consistency.Quorum.{ok, new_quorum_config}

pub record Config : Type 0 where
  pub node_id : String
  pub bind_addr : String
  pub data_dir : String
  pub seed_nodes : List String
  pub virtual_nodes : ℕ
  pub replication_n : ℕ
  pub read_quorum : ℕ
  pub write_quorum : ℕ
  pub buffer_pool_size : ℕ
  pub partition_count : ℕ
  pub heartbeat_interval_ms : ℕ
  pub failure_timeout_ms : ℕ
  pub anti_entropy_interval_sec : ℕ

pub data ConfigError : Type 0 where
  node_id_required bind_addr_required data_dir_required : ConfigError
  bad_replication_n bad_read_quorum bad_write_quorum : ConfigError

unfoldable pub default_config : Config
default_config = record {
  node_id = "node-1";
  bind_addr = "0.0.0.0:8080";
  data_dir = "./data";
  seed_nodes = [];
  virtual_nodes = 128;
  replication_n = 3;
  read_quorum = 2;
  write_quorum = 2;
  buffer_pool_size = 1024;
  partition_count = 8;
  heartbeat_interval_ms = 1000;
  failure_timeout_ms = 5000;
  anti_entropy_interval_sec = 1800;
}

-- `Validate`; `none` is a nil error.
unfoldable pub validate : Config → Option ConfigError
validate c =
    if c.node_id == ""
    then some node_id_required
    else if c.bind_addr == ""
    then some bind_addr_required
    else if c.data_dir == ""
    then some data_dir_required
    else if ltb c.replication_n 1
    then some bad_replication_n
    else if ltb c.read_quorum 1 || ltb c.replication_n c.read_quorum
    then some bad_read_quorum
    else if ltb c.write_quorum 1 || ltb c.replication_n c.write_quorum
    then some bad_write_quorum
    else none

-- `Validate` accepts exactly the configurations whose three names are not empty and whose replication
-- factor and quorums `NewQuorumConfig` accepts, unchanged.
pub validate-new_quorum_config :
    (c : Config)
    → (validate c ≡ none) ↔ (
        (c.node_id ≢ "")
        × (c.bind_addr ≢ "")
        × (c.data_dir ≢ "")
        × (new_quorum_config c.replication_n c.read_quorum c.write_quorum
            ≡ ok (record { n = c.replication_n; r = c.read_quorum; w = c.write_quorum })))
unfolding validate new_quorum_config
validate-new_quorum_config c =
    ground (arith, ==_iff c.node_id "", ==_iff c.bind_addr "", ==_iff c.data_dir "")
