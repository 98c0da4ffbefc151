-- ===== src/Chttp/Streams/Whole.antt =====
-- What io.ReadAll gives of a body, however its reads are sized.
use couchdb.Common.{
  ℕ, zero, suc, ◌+◌, ◌<◌, ◌≤◌, Bytes, List, [], ◌∷◌, ◌++◌, none, some, length, take, drop,
  take-append-drop, length-drop, ◌≡◌, refl, ap, ◌∙◌, sym, subst, append_assoc, arith,
}
use couchdb.Errors.{Error, eof, Err}
use couchdb.Chttp.Streams.{
  Body, source, buffer, replay, put_back, read, unless_eof, and_more, after_read, read_loop,
  pieces_weight, weight, read_all, new_replay, close,
}

abbrev pub joined : List Bytes → Bytes
joined [] = []
joined (p ∷ ps) = p ++ joined ps

-- all the bytes that a body gives
abbrev pub content : Body → Bytes
content (source ps e c) = joined ps
content (buffer s) = s
content (replay s read_err close_err) = s

-- the error other than io.EOF that it ends with
abbrev pub end_error : Body → Err
end_error (source ps e c) = unless_eof e
end_error (buffer s) = none
end_error (replay s none close_err) = none
end_error (replay s (some e) close_err) = unless_eof e

-- what a reader of a body gets of it
abbrev pub Outcome : Type 0
Outcome = Bytes × Err

abbrev pub outcome : Body → Outcome
outcome b = (content b, end_error b)

put_back-joined : (s : Bytes) (ps : List Bytes) → joined (put_back s ps) ≡ s ++ joined ps
put_back-joined [] ps = refl
put_back-joined (c ∷ s) ps = refl

put_back-weight :
    (s : Bytes) (ps : List Bytes)
    → pieces_weight (put_back s ps) ≤ suc (length s + pieces_weight ps)
put_back-weight [] ps = omega arith
put_back-weight (c ∷ s) ps = omega arith

shorter : (n : ℕ) (c : ℕ) (s : Bytes) → length (drop (suc n) (c ∷ s)) < length (c ∷ s)
shorter n c s = omega (arith, length-drop (suc n) (c ∷ s))

-- what one Read gives of a body: the end of it, or a part of it
abbrev Reads : Body → Bytes × Err × Body → Type 0
Reads b (got, some e, b') = (got ≡ content b) × (unless_eof e ≡ end_error b)
Reads b (got, none, b') =
    (got ++ content b' ≡ content b) × (end_error b' ≡ end_error b) × (weight b' < weight b)

read-Reads : (n : ℕ) (b : Body) → Reads b (read (suc n) b)
unfolding read
read-Reads n (source [] e c) = (refl, refl)
read-Reads n (source ([] ∷ ps) e c) = (unfold take drop in refl, refl, unfold drop in omega arith)
read-Reads n (source ((x ∷ p) ∷ ps) e c) = (
  ap (λ q. take (suc n) (x ∷ p) ++ q) (put_back-joined (drop (suc n) (x ∷ p)) ps)
      ∙ sym (append_assoc (take (suc n) (x ∷ p)) (drop (suc n) (x ∷ p)) (joined ps))
      ∙ ap (λ q. q ++ joined ps) (take-append-drop (suc n) (x ∷ p)),
  refl,
  omega (arith, put_back-weight (drop (suc n) (x ∷ p)) ps, shorter n x p),
)
read-Reads n (buffer []) = (refl, refl)
read-Reads n (buffer (x ∷ s)) = (take-append-drop (suc n) (x ∷ s), refl, shorter n x s)
read-Reads n (replay [] none c) = (refl, refl)
read-Reads n (replay [] (some e) c) = (refl, refl)
read-Reads n (replay (x ∷ s) none c) = (take-append-drop (suc n) (x ∷ s), refl, shorter n x s)
read-Reads n (replay (x ∷ s) (some e) c) = (take-append-drop (suc n) (x ∷ s), refl, shorter n x s)

loop_round :
    (b : Body) (k : Body → Outcome) (r : Bytes × Err × Body)
    → Reads b r
    → ((b' : Body) → weight b' < weight b → k b' ≡ outcome b')
    → after_read k r ≡ outcome b
loop_round b k (got, some e, b') (hg, he) ih =
    ap (λ g. (g, unless_eof e)) hg ∙ ap (λ x. (content b, x)) he
loop_round b k (got, none, b') (hg, he, lt) ih =
    ap (and_more got) (ih b' lt) ∙ ap (λ g. (g, end_error b')) hg ∙ ap (λ x. (content b, x)) he

-- the sizes of the reads: there is room in every round
abbrev pub HasRoom : (ℕ → ℕ) → Type 0
HasRoom room = (i : ℕ) → 0 < room i

read-HasRoom : (n : ℕ) (b : Body) → 0 < n → Reads b (read n b)
read-HasRoom zero b lt = elim lt [ ]
read-HasRoom (suc n) b lt = read-Reads n b

read_loop-outcome :
    (room : ℕ → ℕ) (f i : ℕ) (b : Body)
    → HasRoom room
    → weight b < f
    → read_loop room f i b ≡ outcome b
unfolding read_loop
read_loop-outcome room zero i b h lt = elim lt [ ]
read_loop-outcome room (suc f) i b h lt =
    loop_round b (read_loop room f (suc i)) (read (room i) b) (read-HasRoom (room i) b (h i))
      (λ b' lt'. read_loop-outcome room f (suc i) b' h (omega arith))

pub read_all-outcome : (room : ℕ → ℕ) (b : Body) → HasRoom room → read_all room b ≡ outcome b
unfolding read_all
read_all-outcome room b h = read_loop-outcome room (suc (weight b)) 0 b h (omega arith)

-- Two bodies of which every reader gets the same: the bytes, the error at their end, and the error of
-- Close.
pub record SameBody (a b : Body) : Type 0 where
  pub reads : (room : ℕ → ℕ) → HasRoom room → read_all room a ≡ read_all room b
  pub closes : close a ≡ close b

replay-outcome : (s : Bytes) (e c : Err) → content (new_replay s e c) ≡ s
unfolding new_replay
replay-outcome s none none = refl
replay-outcome s none (some c) = refl
replay-outcome s (some e) c = refl

replay-error :
    (s : Bytes) (e : Error) (c : Err) → end_error (new_replay s (unless_eof e) c) ≡ unless_eof e
unfolding new_replay
replay-error s eof none = refl
replay-error s eof (some c) = refl
replay-error s e c = ground arith

replay-none : (s : Bytes) (c : Err) → end_error (new_replay s none c) ≡ none
unfolding new_replay
replay-none s none = refl
replay-none s (some c) = refl

replay-end :
    (s : Bytes) (b : Body) (c : Err) → end_error (new_replay s (end_error b) c) ≡ end_error b
replay-end s (source ps e c') c = replay-error s e c
replay-end s (buffer t) c = replay-none s c
replay-end s (replay t none c') c = replay-none s c
replay-end s (replay t (some e) c') c = replay-error s e c

replay-close : (s : Bytes) (e c : Err) → close (new_replay s e c) ≡ c
unfolding new_replay
replay-close s none none = refl
replay-close s none (some c) = refl
replay-close s (some e) c = refl

-- The body that takes the place of one that was read and closed.
abbrev pub replay_of : Outcome → Err → Body
replay_of (s, e) c = new_replay s e c

pub replay_of-SameBody :
    (room : ℕ → ℕ) (b : Body) → HasRoom room → SameBody (replay_of (read_all room b) (close b)) b
replay_of-SameBody room b h =
    subst (λ o. SameBody (replay_of o (close b)) b) (sym (read_all-outcome room b h))
      (record {
        reads = λ room' h'.
            read_all-outcome room' (new_replay (content b) (end_error b) (close b)) h'
            ∙ ap (λ s. (s, end_error (new_replay (content b) (end_error b) (close b))))
                (replay-outcome (content b) (end_error b) (close b))
            ∙ ap (λ e. (content b, e)) (replay-end (content b) b (close b))
            ∙ sym (read_all-outcome room' b h');
        closes = replay-close (content b) (end_error b) (close b);
      })
