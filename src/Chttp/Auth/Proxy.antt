-- ===== src/Chttp/Auth/Proxy.antt =====
-- The token of proxy authentication, which is computed once.
use couchdb.Common.{
  Bytes, is_empty, Bool-cases, List, [], ◌∷◌, map, ◌≡◌, inl, inr, refl, ap, if◌then◌else◌,
}
use couchdb.Chttp.Headers.{Header}
use couchdb.Chttp.Auth.{ProxyAuth, header, gen_token, proxied, proxy_headers}

module _ (canonical : Bytes → Bytes) (hmac : Bytes → Bytes → Bytes) where
  -- several requests, one behind the other
  abbrev pub round_trips : ProxyAuth → List Header → List Header
  round_trips a [] = []
  round_trips a (h ∷ hs) =
      (proxy_headers canonical hmac a h).0 ∷ round_trips (proxy_headers canonical hmac a h).1 hs

  -- the token that every request is to have
  abbrev pub token_of : ProxyAuth → Bytes
  token_of a = if is_empty a.secret then [] else hmac a.secret a.username

  abbrev pub proxied_by : ProxyAuth → Header → Header
  proxied_by a h = proxied canonical hmac a (token_of a) h

  abbrev holding : ProxyAuth → Bytes → ProxyAuth
  holding a token = record a { token = token }

  step-empty :
      (a : ProxyAuth) (h : Header)
      → proxy_headers canonical hmac (holding a []) h ≡ (proxied_by a h, holding a (token_of a))
  unfolding proxy_headers gen_token header
  step-empty a h = elim (Bool-cases (is_empty a.secret)) [ inl e ↦ rw e refl | inr e ↦ rw e refl ]

  step-made :
      (a : ProxyAuth) (h : Header)
      → proxy_headers canonical hmac (holding a (token_of a)) h
        ≡ (proxied_by a h, holding a (token_of a))
  unfolding proxy_headers gen_token header
  step-made a h = elim (Bool-cases (is_empty a.secret)) [
    | inl e ↦ rw e refl
    | inr e ↦ elim (Bool-cases (is_empty (hmac a.secret a.username))) [
      | inl e2 ↦ rw (e, e2) refl
      | inr e2 ↦ rw (e, e2) refl
    ]
  ]

  round_trips-made :
      (a : ProxyAuth) (hs : List Header)
      → round_trips (holding a (token_of a)) hs ≡ map (proxied_by a) hs
  round_trips-made a [] = refl
  round_trips-made a (h ∷ hs) =
      rw (step-made a h) (ap (λ rest. proxied_by a h ∷ rest) (round_trips-made a hs))

  -- Any number of requests with proxy authentication: though the token is computed once and kept,
  -- every request gets the headers that it would get if the token were computed for it, which is
  -- the HMAC of the user's name under the secret, and none where there is no secret.
  pub round_trips-proxied :
      (a : ProxyAuth) (hs : List Header)
      → round_trips (record a { token = [] }) hs ≡ map (proxied_by a) hs
  round_trips-proxied a [] = refl
  round_trips-proxied a (h ∷ hs) =
      rw (step-empty a h) (ap (λ rest. proxied_by a h ∷ rest) (round_trips-made a hs))
