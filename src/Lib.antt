-- ===== src/Lib.antt =====
-- A model of tagents, the Rust program that runs and watches coding agents in tmux panes, and what
-- holds of it. The program is one crate, crates/tagents-core/src; this library follows its
-- notification daemon (notify/) and its reader of command lines (parse_args.rs). It also has
-- the framer and the registry of calls of the MCP server (mcp/rpc.rs, mcp/server.rs), the relay of the
-- knowledge server (knowledge/join.rs), the JSON values (json.rs) with the reader of an agent's stream and the
-- outcome of a turn (session/) that stand on them, and the dates (date.rs). The
-- daemon reads
-- what a hook appends to `events.tsv`, decides which desktop notices to put up and take down, and
-- warns before the prompt cache of an idle session expires.
--
-- How the parts work together. The follower (notify/events.rs) hands the engine a `Delivery` of parsed
-- lines. The engine (notify/engine.rs) puts each into its queue with the deadlines that are due behind it,
-- and runs the queue: an event is classified (notify/kinds.rs), which may cancel or arm a deadline
-- (notify/deadlines.rs), take a notice down or put one up, whose texts are composed (notify/compose.rs,
-- notify/phrases.rs) from the event, the labels and the rows of the state directory (notify/state.rs) and
-- the answer of a tmux probe (notify/screen.rs); the switches are those of the options
-- (notify/options.rs). The service's loop calls `start`, `wake`, `tick`, `next_due`, `reload` and `stop`.
--
-- The files.
--   Prelude, Text, Dict, Exec: names of the libraries, texts (js.rs, node.rs), hash maps and sets, and code
--     that changes a state.
--   Notify/Event: notify/events.rs, the hook events and the lines. Event/RoundTrip has the theorems.
--   Utf8: `String::from_utf8_lossy`, which the follower and the command line use, and Utf8/Lines on the lines
--     of bytes.
--   Utf16: the code units of a text, and of what is none (js.rs); Utf16/Laws.
--   Json: json.rs, the values. Json/Order is the order of an object's members, Json/Scan and Json/Reader the
--     parser, which takes the text that is left from one part to the next, and Json/Writer the printer.
--     Order/Keys, Reader/Ends, Writer/Shown, Writer/Loop, Writer/Rounds and Json/RoundTrip have the theorems,
--     the modules beside them the lemmas. Json/Number is `number_text` of js.rs, with Number/Layout for the
--     place of the point and Number/Scientific and Number/Spelling for the whole text. serde_json's text of a string and Rust's
--     formatter and parser of floats are parameters, whose documented laws are Writer/Quoted.IsQuoting and
--     Number/Scientific.IsFloats. The loops run on fuel: one round for each character in the parser, and for
--     each value in the printer.
--   Int: integers over the native numbers.
--   Date: date.rs, the dates of days and back, in integers without bounds; Date/Round and Date/Valid have the
--     theorems.
--   ParseArgs: parse_args.rs. The loop over the words is a state machine; ParseArgs/Reading,
--     ParseArgs/Faults, ParseArgs/Given, ParseArgs/Values and ParseArgs/Sound hold the theorems.
--   Notify/Follower: notify/events.rs, the follower over a `Disk` of effects: `pump` in Notify/Follower,
--     `drain`, `rotate` and the grace in Follower/Drain, the calls of the feed and the count of the followers
--     of a directory in Follower/Calls. Follower/Chunks, Follower/Pumped, Follower/Whole, Follower/Ending and
--     Follower/Count hold the theorems.
--   Notify/Kinds: notify/kinds.rs; Kinds/Sound.
--   Notify/Deadlines: notify/deadlines.rs; Deadlines/Keyed on the keys, Deadlines/Timing on the times.
--   Notify/Options, Notify/Rows, Notify/Phrases, Notify/Compose, Notify/Screen, Notify/Notifier:
--     notify/options.rs, notify/state.rs, notify/phrases.rs, notify/compose.rs, notify/screen.rs and
--     notify/notifier.rs; Rows/Labels has the theorems on labels, Screen/Visible those on the probe.
--   Notify/Engine: the state of `Engine` and its dependencies. Its methods are in Engine/Post (`post` and
--     what it calls), Engine/Jobs (`step`, `due` and `run`), Engine/Follow (`follow`, `ingest`, the death of
--     the follower, `arm_from_states`) and Engine/Calls (the calls of the loop). Engine/Stable,
--     Engine/Running, Engine/Blind
--     and Engine/Reach carry an invariant through every method to any sequence of calls; Engine/Trace
--     and Engine/Notices, Engine/Live, Engine/Due, Engine/Alive, Engine/Backoff, Engine/Drained, Engine/Stopped and
--     Engine/Sleep hold the theorems. Engine/Fake is a scripted world.
--   Node: node.rs, what it says of an error of a system call.
--   Notify/Lock: notify/lock.rs. Lock/Disk is the directory with its system calls: before each one other
--     processes may change the directory, and the system may refuse it. Lock/Take has the code on it. Lock/Kept,
--     Lock/Written, Lock/Alone/Fate and Lock/Alone/Exclusion hold the theorems, those of Lock/Alone for the
--     case that nobody else is about.
--   Session/Stream: session/stream.rs, the reader of the lines that an agent prints; Stream/Cut and Stream/Quiet.
--     Its listener is the list of the lines it was called with.
--   Session/Outcome: session/outcome.rs, what a turn ended as; Outcome/Plain. The conversions of integers to
--     f64 are parameters.
--   Mcp/Framer: mcp/rpc.rs, `Framer`; Framer/Lines.
--   Mcp/Registry: mcp/server.rs, the registry of the calls in flight as steps in any order, one for each time that the
--     lock is taken and one for each stop that is set; Registry/Settled and Registry/Closing.
--   Knowledge/Join: knowledge/join.rs, `Sent` and `relay`; Join/Replay. The two threads of a connection are
--     a sequence of steps on `Sent`, one for each time that they take its lock, in any order.
--   Tests: runs on fixed inputs and each theorem at one.
--
-- How the code is written here. A text is the list of its code points. A time is a whole number of
-- milliseconds since 1970 (the f64 of the source holds those exactly below 2^53), a time of a row or a
-- line one of seconds; `number` stands for `js::number` and is none where the source finds no finite
-- number. A method of the engine is a function from its state to a result and the state; what it does to
-- the outside is a field of `Deps`, a function of a world of any type, so that the theorems on the
-- engine assume nothing of the backend, the feed and the clock but what they name. The engine records what it
-- logs, posts and withdraws in `trace`, which no method reads. A `HashMap` is an association list with one
-- entry at most for a key; a lookup and an update have the laws of a map.
--
-- Bounds. The loop of `drain` has no bound, since another process may replace the file in every round: it
-- has fuel, and a call that runs out of it has not ended (`unfinished`). The loop of `pump` has the size of the file as its fuel, since every round but the last reads a
-- byte: at the end of the fuel the condition of the loop is false. The loop of `run` has the length of the queue as its fuel, as no job puts
-- one into it. The digits of a number n have n + 1 as theirs.
--
-- What is not modelled: a panic inside a job (`caught` is the identity), the bytes of the log, the threads,
-- sockets and processes of the service around the engine, the reading of the options file, and the other
-- parts of the crate (the tools of the MCP server, the starting of sessions, the knowledge base apart from `join`, the
-- plugins).
pub mod Prelude
pub mod Text
pub mod Int
pub mod Date
pub mod Dict
pub mod Exec
pub mod Utf8
pub mod Utf16
pub mod Json
pub mod ParseArgs
pub mod Node
pub mod Session
pub mod Notify
pub mod Mcp
pub mod Knowledge
pub mod Tests
