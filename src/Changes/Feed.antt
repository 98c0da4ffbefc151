-- ===== src/Changes/Feed.antt =====
-- A continuous changes feed, read through `changesRows`.
use couchdb.Common.{ℕ, ◌<◌, ◌≡◌, List, [], ◌∷◌, none, some, length, ap, refl, ◌∙◌}
use couchdb.Errors.{Error, Err, panic, err}
use couchdb.Json.{Raw, new_decoder}
use couchdb.Json.Print.{Value, obj, Fields, print}
use couchdb.Iter.Body.{Reader, close_reader}
use couchdb.Iter.Drain.{drain}
use couchdb.Iter.Stream.{feed, feed_error, AllRead, given, stopped, drain-feed}
use couchdb.Rows.Whole.{decode_into-ok}
use couchdb.Changes.{Change, with_seq, as_gateway, changes_parser, new_changes_rows, last_seq}

module _ (unmarshal_change : Raw → Change → Err × Change) where
  -- what one object of the feed makes of a change
  abbrev pub fill_change : Raw → Change → Err × Change
  fill_change raw c = with_seq unmarshal_change raw (unmarshal_change raw c)

  abbrev pub changed : Change → Value → Change
  changed c v = (fill_change (print v) c).1

  abbrev pub IsChange : Fields → Type 0
  IsChange fs = (c : Change) → (fill_change (print (obj fs)) c).0 ≡ none

  abbrev pub AllChanges : List Fields → Type 0
  AllChanges [] = Unit
  AllChanges (fs ∷ rows) = IsChange fs × AllChanges rows

  reads_changes :
      (rows : List Fields)
      → AllChanges rows
      → AllRead (changes_parser unmarshal_change) changed rows
  unfolding changes_parser
  reads_changes [] h = tt
  reads_changes (fs ∷ rows) (hc, h) = (
    (λ r d d' eq. ap as_gateway (decode_into-ok fill_change r (print (obj fs)) d d' eq (hc r))),
    reads_changes rows h,
  )

-- A continuous feed of change objects that ends with the read error `e`: more calls of `next` than
-- there are objects give a change for each one, in order, then io.EOF if the feed ended with io.EOF
-- and a bad gateway error around `e` otherwise. The iterator it leaves is closed and has no
-- metadata, so that LastSeq panics on it.
pub drain-changes_feed :
    (unmarshal_change : Raw → Change → Err × Change) (b : Reader) (e : Error) (rows : List Fields)
    (c : Change) (n : ℕ)
    → (close_reader b).0 ≡ none
    → AllChanges unmarshal_change rows
    → length rows < n
    → (drain
          (changes_parser unmarshal_change)
          n
          c
          (new_changes_rows [] b (new_decoder (feed rows) e))
        ≡ (
          given (changes_parser unmarshal_change) (changed unmarshal_change) c rows,
          some (feed_error e),
          stopped
              (changes_parser unmarshal_change)
              (changed unmarshal_change)
              none
              b
              (new_decoder (feed rows) e)
              e,
        ))
      × (last_seq
            (drain
              (changes_parser unmarshal_change)
              n
              c
              (new_changes_rows [] b (new_decoder (feed rows) e))).2
          ≡ err panic)
drain-changes_feed u b e rows c n clean h lt =
    let whole =
      drain-feed (changes_parser u) (changed u) none b e rows c n clean (reads_changes u rows h)
        lt in
    (whole, ap (λ q. last_seq q.2) whole ∙ (unfold last_seq in refl))
