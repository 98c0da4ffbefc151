-- ===== src/Methods.antt =====
-- The methods of the driver that make one call, as one type of operations.
pub mod Once
pub mod Refused
use couchdb.Common.{Bytes, List, Option}
use couchdb.Json.{Raw}
use couchdb.Errors.{Result}
use couchdb.Chttp.Options.{Any, OptionMap}
use couchdb.Wire.{Net, M, pure, ◌>>=◌}
use couchdb.Database
use couchdb.Documents
use couchdb.Documents.Get
use couchdb.Documents.Get.{Multipart}
use couchdb.Documents.Put
use couchdb.Documents.Put.{Writer, Upload}
use couchdb.Common.Assoc.{Assoc}
use couchdb.Changes.Request
use couchdb.Attachments.Calls
use couchdb.Attachments.Calls.{NewAttachment}
use couchdb.Find
use couchdb.Bulk
use couchdb.Server
use couchdb.Server.Config
use couchdb.Server.Stats
use couchdb.Server.Stats.{DbStats}
use couchdb.Server.Info

-- the methods on a database
pub data DbMethod : Type 0 where
  all_docs design_docs local_docs : OptionMap → DbMethod
  query : (ddoc view : Bytes) → OptionMap → DbMethod
  rev_of : Bytes → OptionMap → DbMethod
  get : Multipart → Bytes → OptionMap → DbMethod
  changes : OptionMap → DbMethod
  put : Writer → Bytes → Any → Option (Assoc Upload) → OptionMap → DbMethod
  create_doc : Any → OptionMap → DbMethod
  delete_doc : Bytes → OptionMap → DbMethod
  copy : (target source : Bytes) → OptionMap → DbMethod
  flush compact view_cleanup security : DbMethod
  compact_view : Bytes → DbMethod
  set_security purge revs_diff : Any → DbMethod
  put_attachment : Bytes → Option NewAttachment → OptionMap → DbMethod
  get_attachment_meta get_attachment delete_attachment :
      (doc_id filename : Bytes) → OptionMap → DbMethod
  create_index : (ddoc name : Bytes) → Any → OptionMap → DbMethod
  get_indexes : OptionMap → DbMethod
  delete_index : (ddoc name : Bytes) → OptionMap → DbMethod
  find explain : Any → OptionMap → DbMethod
  bulk_docs bulk_get : Any → OptionMap → DbMethod
  partition_stats : Bytes → DbMethod
  stats : DbMethod

-- the methods on the server
pub data ServerMethod : Type 0 where
  all_dbs cluster_status : OptionMap → ServerMethod
  db_exists destroy_db : Bytes → ServerMethod
  create_db : Bytes → OptionMap → ServerMethod
  db_updates ping membership session version : ServerMethod
  cluster_setup : Any → ServerMethod
  config : Bytes → ServerMethod
  config_section : (node section : Bytes) → ServerMethod
  config_value delete_config_key : (node section key : Bytes) → ServerMethod
  set_config_value : (node section key value : Bytes) → ServerMethod
  dbs_stats : List Bytes → ServerMethod

-- the outcome without the value
abbrev pub void : {World A : Type 0} → M World A → M World (Unit {0})
void m = m >>= (λ a. pure tt)

module _ {World : Type 0} (n : Net World) (base_stats : Raw → Result DbStats) where
  -- a call of a method; those that read rows end where the rows begin
  unfoldable pub call_db : Bytes → DbMethod → M World (Unit {0})
  call_db db (all_docs opts) =
      void (Documents.rows_query n db (Database.all_docs n.marshal n.join_path opts))
  call_db db (design_docs opts) =
      void (Documents.rows_query n db (Database.design_docs n.marshal n.join_path opts))
  call_db db (local_docs opts) =
      void (Documents.rows_query n db (Database.local_docs n.marshal n.join_path opts))
  call_db db (query ddoc view opts) =
      void (Documents.rows_query n db (Database.query n.marshal n.join_path ddoc view opts))
  call_db db (rev_of doc_id opts) = void (Documents.rev_of n db doc_id opts)
  call_db db (get mp doc_id opts) = void (Get.get n mp db doc_id opts)
  call_db db (put wr doc_id doc atts opts) = void (Put.put wr n db doc_id doc atts opts)
  call_db db (changes opts) = void (Request.changes n db opts)
  call_db db (create_doc doc opts) = void (Documents.create_doc n db doc opts)
  call_db db (delete_doc doc_id opts) = void (Documents.delete_doc n db doc_id opts)
  call_db db (copy target source opts) = void (Documents.copy n db target source opts)
  call_db db flush = Documents.flush n db
  call_db db compact = Documents.compact n db
  call_db db view_cleanup = Documents.view_cleanup n db
  call_db db (compact_view ddoc) = Documents.compact_view n db ddoc
  call_db db security = void (Documents.security n db)
  call_db db (set_security value) = Documents.set_security n db value
  call_db db (purge docs) = void (Documents.purge n db docs)
  call_db db (revs_diff revs) = void (Documents.revs_diff n db revs)
  call_db db (put_attachment doc_id att opts) = void (Calls.put_attachment n db doc_id att opts)
  call_db db (get_attachment_meta doc_id name opts) =
      void (Calls.get_attachment_meta n db doc_id name opts)
  call_db db (get_attachment doc_id name opts) = void (Calls.get_attachment n db doc_id name opts)
  call_db db (delete_attachment doc_id name opts) =
      void (Calls.delete_attachment n db doc_id name opts)
  call_db db (create_index ddoc name index opts) = Find.create_index n db ddoc name index opts
  call_db db (get_indexes opts) = void (Find.get_indexes n db opts)
  call_db db (delete_index ddoc name opts) = Find.delete_index n db ddoc name opts
  call_db db (find q opts) = void (Find.find n db q opts)
  call_db db (explain q opts) = void (Find.explain n db q opts)
  call_db db (bulk_docs docs opts) = void (Bulk.bulk_docs n db docs opts)
  call_db db (bulk_get docs opts) = void (Bulk.bulk_get_docs n db docs opts)
  call_db db (partition_stats name) = void (Stats.partition_stats n base_stats db name)
  call_db db stats = void (Stats.stats n base_stats db)

  unfoldable pub call_server : ServerMethod → M World (Unit {0})
  call_server (all_dbs opts) = void (Server.all_dbs n opts)
  call_server (cluster_status opts) = void (Server.cluster_status n opts)
  call_server (db_exists name) = void (Server.db_exists n name)
  call_server (destroy_db name) = Server.destroy_db n name
  call_server (create_db name opts) = Server.create_db n name opts
  call_server db_updates = void (Server.db_updates n)
  call_server ping = void (Server.ping n)
  call_server membership = void (Server.membership n)
  call_server session = void (Info.session n)
  call_server version = void (Info.version n)
  call_server (cluster_setup action) = Server.cluster_setup n action
  call_server (config node) = void (Config.config n node)
  call_server (config_section node section) = void (Config.config_section n node section)
  call_server (config_value node section key) = void (Config.config_value n node section key)
  call_server (delete_config_key node section key) =
      void (Config.delete_config_key n node section key)
  call_server (set_config_value node section key value) =
      void (Config.set_config_value n node section key value)
  call_server (dbs_stats names) = void (Stats.dbs_stats n base_stats names)
