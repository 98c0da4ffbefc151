-- ===== src/Tests/Polls.antt =====
-- The polls of replications at concrete answers.
use couchdb.Common.{Bytes, str, List, [], ◌∷◌, some, ◌≡◌, refl, arith, true}
use couchdb.Common.Int.{ℤ, pos}
use couchdb.Errors.{Error, eof, http, failure, Result, ok, err}
use couchdb.Json.{new_decoder}
use couchdb.Json.Print.{Value, text, obj, end, field, print}
use couchdb.Chttp.Response.{Response}
use couchdb.Wire.{Net}
use couchdb.Scheduler.{SchedulerReplication, SchedulerDoc, blank, set_from_doc, is_bug1000, no_info}
use couchdb.Replication.Requests.{replicator, scheduled_doc, fetch_scheduled}
use couchdb.Replication.Requests.Reported.{reported, hit_bug, got_doc, fetch_scheduled-Reports}
use couchdb.Tests.Methods.{answer}

-- a server that gives its answers one by one
abbrev one_by_one : Net (List (Result Response))
one_by_one = record {
  request = λ c w. elim w [ [] ↦ (err (failure 9), []) | a ∷ rest ↦ (a, rest) ];
  normal_path = λ p. ok p;
  join_path = λ ps. str "joined";
  path_escape = λ p. p;
  encode_values = λ vs. str "values";
  media_type = λ t. t;
  marshal = λ v. ok (str "null");
  parse_json = λ s. err (failure 9);
  http_status = λ e. 500;
}

abbrev no_time : Bytes → Result ℤ
no_time s = ok (pos 0)

abbrev bug : Error
bug = http 500 (str "function_clause")

abbrev with_source : Value
with_source = obj (
    field (str "doc_id") (str "doc_id") (text (str "r") (str "r"))
      (field (str "source") (str "source") (text (str "a") (str "a")) end))

abbrev document : Response
document = answer 200 [] (some (new_decoder (print with_source) eof)) (str "GET")

abbrev answers : List (Result Response)
answers = err bug ∷ ok document ∷ []

abbrev source_doc : SchedulerDoc
source_doc = record {
  database = [];
  doc_id = str "r";
  replication_id = [];
  source = str "a";
  target = [];
  start_time = pos 0;
  last_updated = pos 0;
  state = [];
  info = no_info;
}

abbrev first : SchedulerReplication
first = blank (str "r") replicator

initial_answer : scheduled_doc one_by_one no_time first answers ≡ (err bug, ok document ∷ [])
unfolding scheduled_doc
initial_answer = refl

then_source : scheduled_doc one_by_one no_time first (ok document ∷ []) ≡ (ok source_doc, [])
unfolding scheduled_doc print
then_source = refl

bug_known : is_bug1000 (some bug) ≡ true
unfolding is_bug1000
bug_known = refl

has_source : (set_from_doc source_doc first).source ≡ b'a' ∷ []
unfolding set_from_doc
has_source = refl

fetch_scheduled-Reports_example :
    fetch_scheduled one_by_one no_time 3 (str "r") answers
    ≡ (ok (set_from_doc source_doc first), [])
fetch_scheduled-Reports_example =
    fetch_scheduled-Reports one_by_one no_time (str "r") (set_from_doc source_doc first) answers []
      2 3 (hit_bug refl initial_answer bug_known (got_doc refl then_source (reported has_source)))
      (omega arith)
