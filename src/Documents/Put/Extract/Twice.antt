-- ===== src/Documents/Put/Extract/Twice.antt =====
-- The attachments are moved out of a document: none is left for a second time.
use couchdb.Common.{[], none, some, ◌≡◌}
use couchdb.Errors.{Result, ok, err}
use couchdb.Documents.Put.Extract.{Found}

-- found nothing, or left nothing behind, or no return
abbrev pub IsMoved : {A : Type 0} → (A → Result (Found A)) → A → Result (Found A) → Type 0
IsMoved f a (ok (none, a')) = a' ≡ a
IsMoved f a (ok (some atts, a')) = f a' ≡ ok (some [], a')
IsMoved f a (err e) = Unit
