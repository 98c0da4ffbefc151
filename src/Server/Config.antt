-- ===== src/Server/Config.antt =====
-- config.go: the configuration of a node.
use couchdb.Common.{Bytes, str, equal, List, [], ◌∷◌, ◌++◌, some, if◌then◌else◌}
use couchdb.Errors.{ok}
use couchdb.Json.{Raw}
use couchdb.Chttp.Options.{text, no_options}
use couchdb.Wire.{encoded, Net, M, text_value, do_json}
use couchdb.Server.{bare}

abbrev pub couch1_config_node : Bytes
couch1_config_node = str "<Couch1Config>"

-- strings.Join(components, "/") behind a slash
unfoldable pub joined : List Bytes → Bytes
joined [] = []
joined (s ∷ ss) = str "/" ++ (s ++ joined ss)

-- configURL
unfoldable pub config_url : Bytes → List Bytes → Bytes
unfolding joined equal
config_url node parts = joined (
    if equal node couch1_config_node
    then str "_config" ∷ parts
    else str "_node" ∷ node ∷ str "_config" ∷ parts)

module _ {World : Type 0} (n : Net World) where
  -- Config and ConfigSection, whose maps are kept as their JSON
  unfoldable pub config : Bytes → M World Raw
  unfolding config_url do_json
  config node = do_json n (bare (str "GET") (config_url node [])) (λ raw. ok raw)

  unfoldable pub config_section : Bytes → Bytes → M World Raw
  unfolding config_url do_json
  config_section node section =
      do_json n (bare (str "GET") (config_url node (section ∷ []))) (λ raw. ok raw)

  -- ConfigValue
  unfoldable pub config_value : Bytes → Bytes → Bytes → M World Bytes
  unfolding config_url do_json
  config_value node section key =
      do_json n (bare (str "GET") (config_url node (section ∷ key ∷ []))) text_value

  -- SetConfigValue: the value before
  unfoldable pub set_config_value : Bytes → Bytes → Bytes → Bytes → M World Bytes
  unfolding config_url do_json
  set_config_value node section key value =
      do_json n
        (record {
          method = str "PUT";
          path = config_url node (section ∷ key ∷ []);
          opts = some no_options;
          payload = encoded (text value);
        })
        text_value

  -- DeleteConfigKey
  unfoldable pub delete_config_key : Bytes → Bytes → Bytes → M World Bytes
  unfolding config_url do_json
  delete_config_key node section key =
      do_json n (bare (str "DELETE") (config_url node (section ∷ key ∷ []))) text_value
