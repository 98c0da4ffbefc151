-- ===== src/Tests/Ends.antt =====
-- Broken responses: the loops over their rows end.
use couchdb.Common.{str, List, [], ◌∷◌, none, refl, arith}
use couchdb.Errors.{open_obj, open_arr, failure}
use couchdb.Json.{Lexeme, delim, colon, comma, string, literal, new_decoder}
use couchdb.Iter.Body.{new_reader, close_reader}
use couchdb.Iter.Drain.{drain}
use couchdb.Iter.Ends.Next.{Stops, drain-Stops}
use couchdb.Iter.Ends.Parsers.{find_parser-IsSteady}
use couchdb.Rows.{Row, find_parser, new_find_rows}

abbrev no_row : Row
no_row = record { id = []; key = []; value = none; doc = none; error = none }

-- `{"docs":[1,` and then the network fails
abbrev cut_off : List Lexeme
cut_off =
    delim open_obj
    ∷ string (str "docs") (str "docs")
    ∷ colon
    ∷ delim open_arr
    ∷ literal (str "1")
    ∷ comma
    ∷ []

drain-Stops_example : Stops (
    drain find_parser 10 no_row (new_find_rows (new_reader none) (new_decoder cut_off (failure 1))))
unfolding close_reader
drain-Stops_example =
    drain-Stops find_parser 10 no_row
      (new_find_rows (new_reader none) (new_decoder cut_off (failure 1))) find_parser-IsSteady
      ((refl, refl), refl) (omega arith)

-- `{1:2`
abbrev number_key : List Lexeme
number_key = delim open_obj ∷ literal (str "1") ∷ colon ∷ literal (str "2") ∷ []
