-- ===== src/Lib.antt =====
-- The CouchDB driver for kivik (package couchdb) and its HTTP client (package chttp), modelled.
--
-- A call of the driver takes its options from a map, makes a request of them, sends it through the
-- HTTP client and its authenticator, and reads the response: one JSON object of metadata and rows,
-- or a feed of objects, handed out one row at a time. Replications are objects that are polled.
--
-- Parts of the program and the files that model them:
--   Common, Errors    shared names, strings, numbers, maps; error values (errors.go, and the types
--                     of chttp/errors.go), `panic` for a call that does not return
--   Json              encoding/json's Decoder on lexemes: Scan finds the end of a value, Print gives
--                     the lexemes of a tree, Read is Token, More and Decode (in Read/Progress
--                     a token takes a lexeme), Into the unmarshalling into numbers, strings and
--                     structs, with sequenceID of seqid.go, Elements what it finds in a tree
--   Iter              iter.go: newIter, begin, next, nextRow, parseMeta, finish, Close.
--                     Iter/Body is cancelableReadCloser; Iter/Body/Latch its runs; Iter/Response,
--                     Frame, Drain, Complete and Stream say what an iterator makes of a response,
--                     Iter/Ends that its loops end on any input
--   Rows              rows.go and bulkget.go: metadata, row parsers, constructors; Rows/Multi is
--                     multiQueriesRows, Rows/Multi/Closing its Close, Rows/Multi/Spec, Sets and
--                     Responses a whole response of several queries; Rows/Told and Rows/Whole read whole results
--   Changes           changes.go; Changes/Request is the call, Changes/Feed a whole continuous feed
--   Params            json.go and optionsToParams of db.go; Params/Encoded is about encodeKeys
--   Database          rowsQuery, AllDocs, DesignDocs, LocalDocs, Query and get of db.go up to the
--                     request that they send; Database/Calls says what a query of rows sends
--   Wire              DoError, DoJSON and DecodeJSON of chttp/chttp.go as the methods use them, and
--                     db.path: a method is a computation on the world outside, which its requests
--                     change. Wire/Sends counts requests, Wire/Structs is about unmarshalling
--   Documents         the methods of db.go on documents and on the database; Documents/Get is Get,
--                     Documents/RevsDiff the rows of RevsDiff with the type of their keys,
--                     Documents/Put is Put with its multipart body, Documents/Put/Extract finds the
--                     attachments of a document, Documents/Stubs is copyWithAttachmentStubs
--   Find, Bulk        find.go and deJSONify of util.go; bulk.go and BulkGet of bulkget.go
--   Server            client.go and cluster.go; Server/Config config.go, Server/Stats dbstats.go,
--                     Server/Info session.go and version.go; Server/Answers the probes' statuses
--   Methods           all methods of one call as one type, Methods/Once and Methods/Refused say
--                     what they send
--   Attachments       multipartAttachments.Next of db.go; Attachments/Manifest its promise;
--                     Attachments/Calls is attachments.go
--   Chttp/DocId       chttp/encode.go; Chttp/Options chttp/options.go and internal/constants.go;
--                     Chttp/Headers setHeaders, setQuery, fixPath, path of chttp/chttp.go;
--                     Chttp/Client New, Auth, parseDSN; Chttp/Send NewRequest, DoReq, DoError;
--                     Chttp/Cookie chttp/cookieauth.go; Chttp/Auth chttp/basicauth.go,
--                     chttp/proxyauth.go and auth.go, Chttp/Auth/Shared authenticators
--                     as objects that clients share, Chttp/Auth/Overrides the header names of
--                     proxy authentication, rawCookie and chttp/auth.go; Chttp/Response ResponseError, GetRev, ETag,
--                     readRev, netError
--   Chttp/Streams     readers, io.ReadAll and the replays of chttp/trace.go; Chttp/Trace its hooks
--                     and the part of DoReq that runs them; Chttp/Encoder EncodeBody and ebReader
--                     with their pipe, Chttp/Encoder/Compressed compressBody
--   Driver            couchdb.go; Driver/Composed joins the methods and the HTTP client
--   Replication       replication.go: the document, Update, the active tasks; Replication/Calls has
--                     Replicate, Delete and the lists, those of scheduler.go too;
--                     Replication/Requests the polls of both kinds of replication
--   Scheduler         scheduler.go: detection, the document, update with its retry
--
-- How the code is modelled. A struct is a record and a method a function that returns the changed
-- record beside its results; an error is a value of Error, and nil is none. Atomic flags and locks
-- make their sections single steps; Iter/Body/Latch runs the steps of several goroutines in any
-- order. A Go map is an association list. Bytes are numbers, and strings lists of bytes.
--
-- Loops over a decoder run on fuel: one more than the lexemes that are left, of which each round
-- takes one at least. Polling loops take the answers of the server as a list, or run on fuel that
-- is more than the answers before the one that ends them. A pipe between two goroutines is a
-- relation whose steps interleave in any order. Numbers of the metadata are int64: a value out of
-- range is the error of encoding/json.
--
-- Parameters stand for code of other repositories: how kivik unmarshals the members of a row or a
-- change, kivik.HTTPStatus, json.Marshal, path.Join, mime.ParseMediaType, net/url's parser,
-- http.NewRequest, the transport, the cookie jar, gzip. Not modelled: white space and the lexing
-- of JSON text, invalid UTF-8, options whose value is nil, the reading of bytes into the decoder's
-- buffer, hooks of a trace that change the header that they share, the error of Close after a read
-- of the decoder that failed (what closing a body returns is given with the body), the text of
-- formatted messages, the bytes of multipart bodies, and the closing of response bodies. What
-- kivik's own types are unmarshalled to (security, purge results, indexes, configuration,
-- membership, database updates) is kept as JSON, so that a member of a wrong type is not refused
-- there. The suites in test/ are data.
pub mod Common
pub mod Errors
pub mod Json
pub mod Iter
pub mod Rows
pub mod Chttp
pub mod Params
pub mod Changes
pub mod Replication
pub mod Scheduler
pub mod Wire
pub mod Documents
pub mod Find
pub mod Bulk
pub mod Server
pub mod Methods
pub mod Driver
pub mod Database
pub mod Attachments
pub mod Tests
