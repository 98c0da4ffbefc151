-- ===== src/Server/Info.antt =====
-- session.go and version.go: who is logged in, and what the server is.
use couchdb.Common.{Bytes, str, List}
use couchdb.Errors.{Result, ok}
use couchdb.Json.{Raw}
use couchdb.Json.Into.{member}
use couchdb.Wire.{
  Net, M, string_field, ◌>>?◌, as_struct, struct_field, slice_of, text_value, do_json,
}
use couchdb.Server.{bare}

-- driver.Session
pub record Session : Type 0 where
  pub raw_response : Raw
  pub name : Bytes
  pub roles : List Bytes
  pub authentication_method : Bytes
  pub authentication_db : Bytes
  pub authentication_handlers : List Bytes

abbrev pub texts_field : Bytes → Raw → Result (List Bytes)
texts_field name raw = slice_of text_value (member name raw)

-- session.UnmarshalJSON; the member name "authentiation_db" is spelled as in the source
unfoldable pub session_of : Raw → Result Session
unfolding string_field as_struct struct_field member
session_of raw = as_struct raw >>? (λ raw. struct_field (str "info") raw >>? (λ info.
    struct_field (str "userCtx") raw >>? (λ user. string_field (str "name") user >>? (λ name.
      texts_field (str "roles") user >>? (λ roles.
        string_field (str "authenticated") info >>? (λ method.
          string_field (str "authentiation_db") info >>? (λ db.
            texts_field (str "authentication_handlers") info >>? (λ handlers. ok (record {
              raw_response = raw;
              name = name;
              roles = roles;
              authentication_method = method;
              authentication_db = db;
              authentication_handlers = handlers;
            })))))))))

-- driver.Version
pub record Version : Type 0 where
  pub version : Bytes
  pub vendor : Bytes
  pub features : List Bytes
  pub raw_response : Raw

-- info.UnmarshalJSON
unfoldable pub version_of : Raw → Result Version
unfolding string_field as_struct struct_field member
version_of raw = as_struct raw >>? (λ raw. string_field (str "version") raw >>? (λ version.
    texts_field (str "features") raw >>? (λ features. struct_field (str "vendor") raw >>? (λ maker.
      string_field (str "name") maker >>? (λ vendor. ok (record {
        version = version;
        vendor = vendor;
        features = features;
        raw_response = raw;
      }))))))

module _ {World : Type 0} (n : Net World) where
  -- Session
  unfoldable pub session : M World Session
  unfolding do_json session_of
  session = do_json n (bare (str "GET") (str "/_session")) session_of

  -- Version
  unfoldable pub version : M World Version
  unfolding do_json version_of
  version = do_json n (bare (str "GET") (str "/")) version_of
