-- ===== src/Methods/Once.antt =====
-- Every method of one call sends one request at most: none of them sends again after an answer.
use couchdb.Common.{Bytes}
use couchdb.Errors.{Result}
use couchdb.Json.{Raw}
use couchdb.Wire.{Net, decode_json}
use couchdb.Wire.Sends.{SendsOnce, one_call}
use couchdb.Documents
use couchdb.Documents.Get
use couchdb.Documents.Put
use couchdb.Changes.Request
use couchdb.Attachments.Calls
use couchdb.Find
use couchdb.Bulk
use couchdb.Server
use couchdb.Server.Config
use couchdb.Server.Stats
use couchdb.Server.Stats.{DbStats}
use couchdb.Server.Info
use couchdb.Methods.{DbMethod, ServerMethod, call_db, call_server}

-- Whatever the arguments, the options and the answer: a call of a method on a database changes the
-- world outside either not at all or exactly as one request does.
pub call_db-SendsOnce :
    {World : Type 0} (n : Net World) (base_stats : Raw → Result DbStats) (db : Bytes) (m : DbMethod)
    → SendsOnce n (call_db n base_stats db m)
unfolding call_db Documents.rows_query Get.get Put.put Request.changes Documents.rev_of
    Documents.fetch Documents.create_doc Documents.delete_doc Documents.copy Documents.flush
    Documents.compact Documents.view_cleanup Documents.compact_view Documents.security
    Documents.set_security Documents.purge Documents.revs_diff Calls.put_attachment
    Calls.get_attachment_meta Calls.get_attachment Calls.fetch_attachment Calls.delete_attachment
    Find.create_index Find.get_indexes Find.delete_index Find.find Find.explain Bulk.bulk_docs
    Bulk.bulk_get_docs Stats.stats Stats.partition_stats decode_json
call_db-SendsOnce n base_stats db DbMethod.flush w = search one_call depth 12
call_db-SendsOnce n base_stats db m w = search one_call depth 12

-- Whatever the arguments, the options and the answer: a call of a method on the server changes the
-- world outside either not at all or exactly as one request does.
pub call_server-SendsOnce :
    {World : Type 0} (n : Net World) (base_stats : Raw → Result DbStats) (m : ServerMethod)
    → SendsOnce n (call_server n base_stats m)
unfolding call_server Server.all_dbs Server.cluster_status Server.db_exists Server.destroy_db
    Server.create_db Server.db_updates Server.ping Server.membership Server.cluster_setup
    Info.session Info.version Config.config Config.config_section Config.config_value
    Config.delete_config_key Config.set_config_value Stats.dbs_stats decode_json
call_server-SendsOnce n base_stats ServerMethod.membership w = search one_call depth 12
call_server-SendsOnce n base_stats m w = search one_call depth 12
