-- ===== src/Chttp/Auth/Base.antt =====
-- The transport below the authenticators.
use couchdb.Common.{
  ℕ, ◌==◌, Bool, true, false, ◌||◌, List, [], ◌∷◌, Option, some, ◌≡◌, refl, sym, subst, arith,
}
use couchdb.Errors.{Result, ok, err}
use couchdb.Chttp.Auth.Shared.{
  RoundTripper, object, State, set, authenticate, unless_set, Given, of_chttp, set_transport,
  set_cookie, other_value, authenticate_client,
}

abbrev pub is_object : RoundTripper → Bool
is_object (object k) = true
is_object t = false

-- A request that is given to `t` passes these objects, in this order, and ends at `b`.
abbrev pub Leads : (ℕ → Option RoundTripper) → List ℕ → RoundTripper → RoundTripper → Type 0
Leads next [] t b = (t ≡ b) × (is_object b ≡ false)
Leads next (k ∷ ks) t b =
    (t ≡ object k) × (u : RoundTripper) × (next k ≡ some u) × Leads next ks u b

abbrev pub is_in : ℕ → List ℕ → Bool
is_in k [] = false
is_in k (j ∷ js) = (j == k) || is_in k js

-- no object is given that is given before, or that the requests pass already
abbrev pub IsFresh : List Given → List ℕ → Type 0
IsFresh [] path = Unit
IsFresh (of_chttp k ∷ gs) path = (is_in k path ≡ false) × IsFresh gs (k ∷ path)
IsFresh (g ∷ gs) path = IsFresh gs path

-- the objects that the requests pass after the calls
abbrev pub passed : List Given → List ℕ → List ℕ
passed [] path = path
passed (of_chttp k ∷ gs) path = passed gs (k ∷ path)
passed (g ∷ gs) path = passed gs path

-- a call that fails leaves everything as it is
abbrev pub or_same : State → Result State → State
or_same s (ok s') = s'
or_same s (err e) = s

abbrev pub authenticate_all : List Given → ℕ → State → State
authenticate_all [] i s = s
authenticate_all (g ∷ gs) i s = authenticate_all gs i (or_same s (authenticate_client g i s))

-- after the calls, the client's requests pass those objects and end at `b`
abbrev pub EndsAt : List Given → ℕ → List ℕ → RoundTripper → State → Type 0
EndsAt gs i path b s =
    (t : RoundTripper) × ((authenticate_all gs i s).transport i ≡ some t)
    × Leads (authenticate_all gs i s).next (passed gs path) t b

Leads-set :
    (k : ℕ) (v : RoundTripper) (next : ℕ → Option RoundTripper) (path : List ℕ) (t b : RoundTripper)
    → is_in k path ≡ false
    → Leads next path t b
    → Leads (set k v next) path t b
Leads-set k v next [] t b h leads = leads
Leads-set k v next (j ∷ js) t b h (eq, u, holds, leads) =
    (eq, u, ground arith, Leads-set k v next js u b (ground arith) leads)

-- a client that has a transport refuses SetTransport and SetCookie
refused-set_transport :
    (u : RoundTripper) (i : ℕ) (s : State) (t : RoundTripper)
    → s.transport i ≡ some t
    → or_same s (authenticate_client (set_transport u) i s) ≡ s
unfolding authenticate_client
refused-set_transport u i s t h = rw (h, unless_set) refl

refused-set_cookie :
    (k i : ℕ) (s : State) (t : RoundTripper)
    → s.transport i ≡ some t
    → or_same s (authenticate_client (set_cookie k) i s) ≡ s
unfolding authenticate_client
refused-set_cookie k i s t h = rw (h, unless_set) refl

holds_itself :
    (k : ℕ) (next : ℕ → Option RoundTripper) (path : List ℕ) (t b : RoundTripper)
    → next k ≡ some (object k)
    → t ≡ object k
    → Leads next path t b
    → ⊥
holds_itself k next [] t b h eq (same, base) = ground arith
holds_itself k next (j ∷ js) t b h eq (at_j, u, holds, leads) =
    holds_itself k next js u b h (ground arith) leads

-- An authenticator that is given again to the client that has it comes to hold itself: no transport is
-- at the end of the requests.
pub authenticate-again :
    (k i : ℕ) (s : State) (path : List ℕ) (b : RoundTripper)
    → s.transport i ≡ some (object k)
    → Leads (authenticate k i s).next path (object k) b
    → ⊥
unfolding authenticate
authenticate-again k i s path b h leads =
    holds_itself k (authenticate k i s).next path (object k) b (rw h (ground arith)) refl leads

-- Whatever authenticators a client is given, and whichever of them it refuses: its requests pass those
-- that it takes, the last one first, and then what they passed before, and end at the transport that
-- they ended at, if the client has a transport, and no authenticator is given to it that it has or is
-- given twice.
pub authenticate_all-base :
    (gs : List Given) (i : ℕ) (s : State) (path : List ℕ) (t b : RoundTripper)
    → s.transport i ≡ some t
    → Leads s.next path t b
    → IsFresh gs path
    → EndsAt gs i path b s
unfolding authenticate_client
authenticate_all-base [] i s path t b h leads fresh = (t, h, leads)
authenticate_all-base (of_chttp k ∷ gs) i s path t b h leads (new, fresh) =
    authenticate_all-base gs i (authenticate k i s) (k ∷ path) (object k) b
      (unfold authenticate in ground arith)
      (
        refl,
        t,
        unfold authenticate in rw h (ground arith),
        unfold authenticate in Leads-set k _ s.next path t b new leads,
      )
      fresh
authenticate_all-base (set_transport u ∷ gs) i s path t b h leads fresh =
    subst (EndsAt gs i path b) (sym (refused-set_transport u i s t h))
      (authenticate_all-base gs i s path t b h leads fresh)
authenticate_all-base (set_cookie k ∷ gs) i s path t b h leads fresh =
    subst (EndsAt gs i path b) (sym (refused-set_cookie k i s t h))
      (authenticate_all-base gs i s path t b h leads fresh)
authenticate_all-base (other_value ∷ gs) i s path t b h leads fresh =
    authenticate_all-base gs i s path t b h leads fresh
