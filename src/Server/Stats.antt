-- ===== src/Server/Stats.antt =====
-- dbstats.go: the statistics of databases and of partitions. The members of driver.DBStats are
-- unmarshalled by kivik: that is the parameter `base_stats`, which makes the zero value of no JSON.
use couchdb.Common.{zero, suc, Bytes, str, trim, List, [], ◌∷◌, ◌++◌, Option, none, some}
use couchdb.Common.Int.{ℤ, pos, negsuc}
use couchdb.Errors.{Result, ok, err}
use couchdb.Json.{Raw}
use couchdb.Json.Into.{member, raw_text}
use couchdb.Chttp.Options.{texts}
use couchdb.Wire.{
  object, Net, M, lift, ◌>>=◌, idempotent_options, string_field, int_field, raw_field, ◌>>?◌,
  as_struct, struct_field, slice, do_json, db_path,
}
use couchdb.Server.{bare}

-- driver.DBStats; `others` are the members that the driver does not touch
pub record DbStats : Type 0 where
  pub disk_size : ℤ
  pub external_size : ℤ
  pub active_size : ℤ
  pub update_seq : Bytes
  pub raw_response : Raw
  pub others : Raw

-- Sizes of dbStats
pub record Sizes : Type 0 where
  pub file : ℤ
  pub external : ℤ
  pub active : ℤ

-- a size that the server reports replaces the older member
abbrev pub or_positive : ℤ → ℤ → ℤ
or_positive (pos zero) old = old
or_positive (pos (suc n)) old = pos (suc n)
or_positive (negsuc n) old = old

-- driverStats
unfoldable pub driver_stats : DbStats → Sizes → Raw → Raw → DbStats
unfolding trim raw_text
driver_stats stats sizes update_seq raw = record stats {
  disk_size = or_positive sizes.file stats.disk_size;
  external_size = or_positive sizes.external stats.external_size;
  active_size = or_positive sizes.active stats.active_size;
  update_seq = trim b'"' (raw_text update_seq);
  raw_response = raw;
}

unfoldable pub sizes_of : Raw → Result Sizes
unfolding int_field
sizes_of raw = int_field (str "file") raw >>? (λ file.
    int_field (str "external") raw >>? (λ external.
      int_field (str "active") raw
      >>? (λ active. ok (record { file = file; external = external; active = active }))))

-- partitionStats
pub record PartitionStats : Type 0 where
  pub db_name : Bytes
  pub doc_count : ℤ
  pub deleted_doc_count : ℤ
  pub partition : Bytes
  pub active_size : ℤ
  pub external_size : ℤ
  pub raw_response : Raw

-- partitionStats.UnmarshalJSON, and the copy into driver.PartitionStats
unfoldable pub partition_stats_of : Raw → Result PartitionStats
unfolding string_field int_field as_struct struct_field
partition_stats_of raw = as_struct raw >>? (λ raw. struct_field (str "sizes") raw >>? (λ sizes.
    string_field (str "db_name") raw >>? (λ name. int_field (str "doc_count") raw >>? (λ count.
      int_field (str "doc_del_count") raw >>? (λ deleted.
        string_field (str "partition") raw >>? (λ partition.
          int_field (str "active") sizes >>? (λ active.
            int_field (str "external") sizes >>? (λ external. ok (record {
              db_name = name;
              doc_count = count;
              deleted_doc_count = deleted;
              partition = partition;
              active_size = active;
              external_size = external;
              raw_response = raw;
            })))))))))

module _ {World : Type 0} (n : Net World) (base_stats : Raw → Result DbStats) where
  -- dbStats.UnmarshalJSON and driverStats
  unfoldable pub stats_of : Raw → Result DbStats
  unfolding raw_field as_struct struct_field sizes_of driver_stats
  stats_of raw = as_struct raw >>? (λ raw. base_stats raw >>? (λ base.
      struct_field (str "sizes") raw >>? (λ object.
        sizes_of object
        >>? (λ sizes. ok (driver_stats base sizes (raw_field (str "update_seq") raw) raw)))))

  -- Stats
  unfoldable pub stats : Bytes → M World DbStats
  unfolding do_json stats_of
  stats db_name = do_json n (bare (str "GET") db_name) stats_of

  -- one entry of the answer to DBsStats: no statistics where it has an error
  abbrev pub entry_stats : Bytes → Result DbStats → Result (Option DbStats)
  entry_stats [] (ok s) = ok (some s)
  entry_stats (c ∷ e) (ok s) = ok none
  entry_stats e (err x) = err x

  abbrev pub info_of : Option Raw → Result DbStats
  info_of none = stats_of []
  info_of (some raw) = stats_of raw

  unfoldable pub entry_of : Raw → Result (Option DbStats)
  unfolding as_struct string_field member stats_of
  entry_of raw = as_struct raw >>? (λ raw.
      string_field (str "error") raw >>? (λ e. entry_stats e (info_of (member (str "info") raw))))

  -- DBsStats: the answers keep the order of the response
  unfoldable pub dbs_stats : List Bytes → M World (List (Option DbStats))
  unfolding do_json slice entry_of
  dbs_stats db_names =
      do_json n
        (record {
          method = str "POST";
          path = str "/_dbs_info";
          opts = some idempotent_options;
          payload = object ((str "keys", texts db_names) ∷ []);
        })
        (slice entry_of)

  -- PartitionStats
  unfoldable pub partition_stats : Bytes → Bytes → M World PartitionStats
  unfolding db_path do_json partition_stats_of
  partition_stats db_name name = do
    path ← lift (db_path n db_name (str "_partition/" ++ name))
    do_json n (bare (str "GET") path) partition_stats_of
