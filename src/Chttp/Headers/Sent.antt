-- ===== src/Chttp/Headers/Sent.antt =====
-- The headers, the path and the query that a request is sent with.
use couchdb.Common.{
  Bytes, str, equal, equal_iff, Bool, true, false, List, [], ◌∷◌, ◌++◌, Option, none, some,
  if◌then◌else◌, is_some, ◌≡◌, refl, ◌∙◌, arith,
}
use couchdb.Common.Assoc.{lookup, insert, lookup-insert}
use couchdb.Chttp.Options.{Options}
use couchdb.Chttp.Headers.{
  Header, Request, add_defaults, set_headers, values, if_none_match_value, add_header, match_header,
  commit_header, content_headers, type_json, or_default,
}

-- opts.Header gives defaults only: what the request has keeps its value, and the first entry of
-- the defaults for any other key is taken.
pub lookup-add_defaults :
    (ds h : Header) (k : Bytes)
    → lookup k (add_defaults ds h) ≡ (if is_some (lookup k h) then lookup k h else lookup k ds)
unfolding add_defaults lookup
lookup-add_defaults [] h k = ground arith
lookup-add_defaults ((j, v) ∷ ds) h k = ground (
  arith,
  lookup-add_defaults ds h k,
  lookup-add_defaults ds (insert j v h) k,
  lookup-insert j k v h,
  equal_iff j k,
)

-- a header that setHeaders itself does not write
abbrev pub Untouched : Bytes → Type 0
Untouched k =
    (equal (str "Accept") k ≡ false)
    × (equal (str "Content-Type") k ≡ false)
    × (equal (str "If-None-Match") k ≡ false)
    × (equal (str "X-Couch-Full-Commit") k ≡ false)

pub lookup-add_header :
    (k j : Bytes) (v : Bytes) (h : Header)
    → equal k j ≡ false
    → lookup j (add_header k v h) ≡ lookup j h
lookup-add_header k j v h ne = rw (lookup-insert k j (values (lookup k h) ++ v ∷ []) h, ne) refl

lookup-match_header :
    (s k : Bytes) (h : Header)
    → equal (str "If-None-Match") k ≡ false
    → lookup k (match_header s h) ≡ lookup k h
lookup-match_header [] k h ne = refl
lookup-match_header (c ∷ s) k h ne =
    rw (lookup-insert (str "If-None-Match") k (if_none_match_value (c ∷ s) ∷ []) h, ne) refl

lookup-commit_header :
    (b : Bool) (k : Bytes) (h : Header)
    → equal (str "X-Couch-Full-Commit") k ≡ false
    → lookup k (commit_header b h) ≡ lookup k h
lookup-commit_header false k h ne = refl
lookup-commit_header true k h ne = lookup-add_header (str "X-Couch-Full-Commit") k (str "true") h ne

abbrev pub default_headers : Option Options → Header
default_headers none = []
default_headers (some o) = o.header

abbrev pub or_first : Option (List Bytes) → Option (List Bytes) → Option (List Bytes)
or_first (some vs) d = some vs
or_first none d = d

or_first-none : (q : Option (List Bytes)) → q ≡ or_first q none
or_first-none none = refl
or_first-none (some vs) = refl

or_first-if : (q d : Option (List Bytes)) → (if is_some q then q else d) ≡ or_first q d
or_first-if none d = refl
or_first-if (some vs) d = refl

lookup-content :
    (accept content_type k : Bytes) (h : Header)
    → equal (str "Accept") k ≡ false
    → equal (str "Content-Type") k ≡ false
    → lookup k (content_headers accept content_type h) ≡ lookup k h
lookup-content accept content_type k h a t =
    lookup-add_header (str "Content-Type") k content_type (add_header (str "Accept") accept h) t
    ∙ lookup-add_header (str "Accept") k accept h a

-- Any header but the four that setHeaders writes is sent as the request had it, and with its value
-- among the default headers where the request did not have it.
pub lookup-set_headers :
    (req : Request) (opts : Option Options) (k : Bytes)
    → Untouched k
    → lookup k (set_headers req opts).header
      ≡ or_first (lookup k req.header) (lookup k (default_headers opts))
lookup-set_headers req none k (a, t, i, c) =
    unfold set_headers lookup in
    lookup-content type_json type_json k req.header a t ∙ or_first-none (lookup k req.header)
lookup-set_headers req (some o) k (a, t, i, c) =
    let h1 = commit_header o.full_commit req.header in
    let h2 = match_header o.if_none_match h1 in
    let kept : lookup k h2 ≡ lookup k req.header =
      lookup-match_header o.if_none_match k h1 i
      ∙ lookup-commit_header o.full_commit k req.header c in
    unfold set_headers in
    (lookup-content (or_default o.accept type_json) (or_default o.content_type type_json) k
        (add_defaults o.header h2) a t
      ∙ (lookup-add_defaults o.header h2 k
          ∙ rw kept (or_first-if (lookup k req.header) (lookup k o.header))))
