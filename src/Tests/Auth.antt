-- ===== src/Tests/Auth.antt =====
-- The other authenticators at concrete inputs.
use couchdb.Common.{str, List, [], ◌∷◌, ◌++◌, map, none, some, ◌≡◌, refl}
use couchdb.Chttp.Auth.{ProxyAuth}
use couchdb.Chttp.Auth.Shared.{default_transport, State, Given, of_chttp, set_cookie}
use couchdb.Chttp.Auth.Proxy.{round_trips, proxied_by, round_trips-proxied}
use couchdb.Chttp.Auth.Base.{EndsAt, authenticate_all-base}

-- authentication
abbrev proxy : ProxyAuth
proxy = record {
  username = str "bob";
  secret = str "abc123";
  roles = str "a" ∷ str "b" ∷ [];
  headers = [];
  token = [];
}

round_trips-proxied_example :
    round_trips (λ s. s) (λ secret name. secret ++ name) proxy ([] ∷ [] ∷ [])
    ≡ map (proxied_by (λ s. s) (λ secret name. secret ++ name) proxy) ([] ∷ [] ∷ [])
round_trips-proxied_example =
    round_trips-proxied (λ s. s) (λ secret name. secret ++ name) proxy ([] ∷ [] ∷ [])

-- one client, with the default transport
abbrev started : State
started = record { next = λ k. none; transport = λ i. some default_transport }

abbrev given : List Given
given = set_cookie 4 ∷ of_chttp 2 ∷ of_chttp 3 ∷ []

authenticate_all-base_example : EndsAt given 0 [] default_transport started
authenticate_all-base_example =
    authenticate_all-base given 0 started [] default_transport default_transport refl (refl, refl)
      (refl, (refl, tt))
