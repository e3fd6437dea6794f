-- ===== src/Lib.antt =====
-- flickr, a media server over an S3 bucket: internal/ holds the program's own logic and
-- cmd/server the HTTP layer over it.
--
-- How the parts interact. A scan turns an object key into an item; internal/model holds what an
-- item, a client and a policy are; internal/decision decides how an item is played to a client,
-- and its target is what the ffmpeg boundary of internal/pipeline runs; internal/passage reads and
-- writes the address of a place inside a work; internal/works groups items into works, derives a
-- profile's progress and resume list over them, and tells a client what changed since its cursor;
-- internal/auth checks who asks, and internal/bearer is the token with which a worker asks.
--
-- Files:
--   Base/       shared: Boolean tests, lists, Go's strings as bytes (a literal is its UTF-8
--               encoding), decimal notation, signed integers, strings.TrimSpace, sorting and orders
--               by several criteria in turn (Order, Turn), float64 as the interface Float.Floats.
--   Model       internal/model/model.go: the domain types, Normalize, MediumOrVideo;
--               Model/Cfi has SectionFromCFI, Model/Defaults the proofs on Normalize.
--   Decision    internal/decision/decision.go: DecideWith is decide_with. Decision/Tracer is
--               the tracer, a state of recorded steps passed along; Checks the track selection and
--               the pass/fail checks; Target the stages of the transcode target; Ladder buildLadder.
--               The children Verdict, Stages, Streams, Encode, Rungs, Sound and Trail hold the
--               proofs; Tests the inputs of decision_test.go.
--   Passage     internal/passage/passage.go: Split, Parse and Query; Escape has escapeComponent
--               and its inverse in net/url, Values url.ParseQuery and Get, Numbers parseSeconds and
--               parseItemID, Episode the episode codes, FindEpisode and ResolveShow, Place the text
--               locators with Section and Page. Query, Bounds, the children of Episode and those of
--               Place hold the proofs; the Tests files the links of README.md and the members and
--               locators of passage_test.go.
--   Works       internal/works. Items has the item of internal/store/store.go; Work the work and
--               finish of works.go, Build its grouping, dedupeKeys and the indexes by key and item,
--               with the children Gather, Partition and Ordered for the proofs. Place has the
--               playback row and how progress.go reads one (clock, chapter, fraction, Finished),
--               Progress WorkProgress, Label the names of items, Continue ContinueList, Neighbours
--               the order that a work is moved through. Cursor and Feed are feed.go, Artists is
--               artists.go. Samples has test data, Tests the cursors, libraries and standings.
--   Scanner     internal/scanner. Sidecar is sidecar.go, the subtitle files beside a video; its child
--               Attached holds the proofs, Tests the files of a directory.
--   Pipeline    internal/pipeline/pipeline.go and the encoders of hwdetect.go. Job is a job and the
--               encoder it uses; Args BuildArgs, with Args/Ladder for several renditions; Sessions the
--               live transcodes and their reaper. Args/Playlist, Args/Decided and Sessions/Live hold the
--               proofs, Tests a job and two sessions.
--   Auth        internal/auth: Checked has its errors and the chain of checks, Session the signed
--               tokens and the household session of auth.go, Jwt the tokens of jwt.go, Discovery the
--               provider document of discovery.go; Session/Signed and Jwt/Accepts hold the proofs.
--   Bearer      internal/bearer/bearer.go: the token that a worker holds, as a state, and Token as its
--               step; Held has the states that calls reach.
--
-- Choices. Integers that a probe or a client sends are signed and have no width: they are compared,
-- printed and divided, and a proportion adds 1. Digits of a query are read with the bound of an
-- int64 written out. A float64 is a value of the interface Floats, which has the operations that
-- the source uses; where a theorem needs a law of one, it is a hypothesis. A regular expression is
-- the matcher that it stands for, and %q, which only words a refusal, an argument of sentence.
-- strings.ToLower and strings.EqualFold are parameters of what uses them. A Go map that is ranged
-- over is a list of its keys in the order of their first use, and sort.SliceStable an insertion sort.
-- Every loop is a structural recursion over its list; trimming and decimal printing run on fuel,
-- the length of the text and one more than the number, of which each round uses up one.
--
-- A process of Sessions has the name of its session; that it starts, and the id that is drawn, are
-- arguments. Every call is one step, as if the lock were held over it. ReapIdle takes the ids under the
-- lock and stops them one by one behind it, so a session that is asked for in between is stopped all
-- the same. A Go map with text as keys is Base/Assoc. An index that panics is none.
--
-- HMAC, SHA-256, the RSA check and encoding/json are parameters of Auth, and base64 is Base/Base64; the
-- clock and the endpoint's answer are arguments of Bearer's step.
--
-- Not modelled: the rest of internal/scanner and internal/pipeline, internal/hyper; the HTTP handlers, SQLite,
-- the bucket, TMDB, ffmpeg and the web client, which are input and output; JSON encoding.
pub mod Base
pub mod Model
pub mod Decision
pub mod Passage
pub mod Works
pub mod Auth
pub mod Bearer
pub mod Scanner
pub mod Pipeline
