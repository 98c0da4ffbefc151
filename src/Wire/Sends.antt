-- ===== src/Wire/Sends.antt =====
-- How many requests a method sends: rules that follow the steps of its `do` block.
use couchdb.Common.{◌≡◌, ◌⊎◌, inl, inr, refl, sym, subst}
use couchdb.Errors.{Result, ok, err}
use couchdb.Json.{Raw}
use couchdb.Wire.{Call, Net, M, and_go, ask, do_error, decode_json, do_json}

module _ {World : Type 0} (n : Net World) where
  -- the world is as before, or as one request leaves it
  abbrev pub Sent : World → World → Type 0
  Sent w w' = (w' ≡ w) ⊎ ((c : Call) × (w' ≡ (n.request c w).1))

  -- the method sends one request at most
  abbrev pub SendsOnce : {A : Type 0} → M World A → Type 0
  SendsOnce m = (w : World) → Sent w (m w).1

  module _ {A B : Type 0} (w : World) where
    -- a step that sends nothing, before steps that send nothing
    pub silent_step :
        (r : Result A) (f : A → M World B) → ((a : A) → (f a w).1 ≡ w) → (and_go (r, w) f).1 ≡ w
    silent_step (ok a) f h = h a
    silent_step (err e) f h = refl

    -- and before steps that send a request at most
    pub step_first :
        (r : Result A) (f : A → M World B)
        → ((a : A) → Sent w (f a w).1)
        → Sent w (and_go (r, w) f).1
    step_first (ok a) f h = h a
    step_first (err e) f h = inl refl

    -- steps that send nothing behind a step that sends a request at most
    pub steps_after :
        (q : Result A × World) (f : A → M World B)
        → Sent w q.1
        → ((a : A) → (f a q.1).1 ≡ q.1)
        → Sent w (and_go q f).1
    steps_after (ok a, w') f sent h = subst (Sent w) (sym (h a)) sent
    steps_after (err e, w') f sent h = sent

  pub request-Sent : (c : Call) (w : World) → Sent w (n.request c w).1
  request-Sent c w = inr (c, refl)

  pub ask-Sent : (c : Call) (w : World) → Sent w (ask n c w).1
  unfolding ask
  ask-Sent c w = steps_after w (n.request c w) _ (request-Sent c w) (λ r. refl)

  pub do_error-Sent : (c : Call) (w : World) → Sent w (do_error n c w).1
  unfolding do_error
  do_error-Sent c w = steps_after w (ask n c w) _ (ask-Sent c w) (λ r. refl)

  pub do_json-Sent :
      {A : Type 0} (c : Call) (f : Raw → Result A) (w : World) → Sent w (do_json n c f w).1
  unfolding do_json decode_json
  do_json-Sent c f w = steps_after w (ask n c w) _ (ask-Sent c w) (λ r. refl)

pub ruleset one_call =
    (step_first, steps_after, silent_step, request-Sent, ask-Sent, do_error-Sent, do_json-Sent)
