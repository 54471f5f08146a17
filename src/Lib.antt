-- ===== src/Lib.antt =====
-- orbit-graph: the code index behind its commands.
--
-- The program extracts symbols, refs and imports from the files of a worktree (crates/
-- orbit-graph-extract), stores them in a SQLite database (crates/orbit-graph/src/store), resolves
-- the refs (crates/orbit-graph/src/sync) and answers queries over the rows
-- (crates/orbit-graph/src/query). A query takes a selector, which names a directory, a file, a
-- symbol, a module or a command.
--
-- Selector.antt, with Selector/: `Selector` of crates/orbit-graph-extract/src/selector.rs. A Rust
-- string is the list of its code points. Path.antt holds `normalize_path_text`, Parse.antt the
-- `FromStr` of a selector; their error reasons are constructors in place of sentences.
--
-- Index.antt, with Index/: the rows of the database as lists (crates/orbit-graph/src/store/
-- schema.rs), each table in the order of its primary key, and the values that a column holds as
-- text (crates/orbit-graph/src/query/refs.rs and types.rs).
--
-- Impact.antt, with Impact/: crates/orbit-graph/src/query/impact.rs. Types.antt has its structs,
-- Neighbors.antt the SQL queries for the neighbours of a symbol, Resolve.antt those that find a
-- symbol, Bfs.antt the traversal, Run.antt the command. A SQL query is a filter of a table's list,
-- a stable sort by its ORDER BY and, for LIMIT 1, the first row; a call that can fail on a stored
-- value returns a `Result`. The loop of the traversal runs on fuel, one more than the cap of 200
-- nodes: each round but the first takes a symbol off the queue that a listed node put there, and
-- no more than 200 are listed, so that fuel is enough. The line of a node is read from its source
-- file, so the reader is a parameter, `line_for`, which returns no line where the file cannot be
-- read. An error of SQLite itself is not modelled.
--
-- Resolution.antt, with Resolution/: crates/orbit-graph/src/sync/pass2.rs and pass2/type_member.rs.
-- Names.antt has the functions on module paths, Members.antt those that read a name as a member of
-- a type, Candidates.antt the queries for candidates and module prefixes, Rungs.antt, Reexports.antt
-- and TypeMembers.antt the rungs of the ladder, Ladder.antt `resolve_ref` and `resolve_file`,
-- Refresh.antt `re_resolve_stored` and `refresh_all_refs`. A set or a map of the source is a list of
-- which only membership, emptiness or the order of its keys is asked. The memo of `resolve_file` is
-- modelled; the other caches of `Resolver` are the functions whose values they hold. The walk over
-- re-exports recurs on the visits left of its 64 and needs no fuel. Two parameters stand for code
-- that is not here: `is_alphanumeric` for the Unicode tables behind `char::is_alphanumeric`, and
-- `package_of` for `PackageIdentity::read`, which parses the Cargo.toml files of the worktree.
--
-- Queries.antt, with Queries/: four more queries of crates/orbit-graph/src/query. Trace.antt, with
-- Trace/Arena.antt and Trace/Search.antt, is trace.rs: the arena of nodes whose children are indexes
-- into it, the loop and `build_tree`. The loop runs on fuel, the cap of 200: the items of the queue and
-- the room that the arena has left add up to at most 200 and fall in each round. `build_tree` runs on
-- the same fuel: a child stands behind its parent in the arena. Callees.antt is callees.rs, whose reader
-- of source files is the parameter `read_source`; its memo is an association list, its count of hidden
-- edges is that of the loop's return. Deps.antt is deps.rs and Implementors.antt is implementors.rs.
--
-- Changes.antt, with Changes/: crates/orbit-graph-changes. Filters.antt is filters.rs, the filters
-- of a response and the log of what they removed. changes.rs is in Types.antt (its structs and
-- errors), Files.antt (the files of the Git diff), with Files/Git.antt (the calls of Git),
-- Inventory.antt (the symbols of a snapshot), Bodies.antt (what is compared of a source),
-- Pairer.antt (the ladder that pairs the symbols of the two sides, with what it emits in Emit.antt
-- and its rungs in Rungs.antt) and Compute.antt (`ChangedSymbols`). Selection.antt is selection.rs.
-- The calls of the git2 library are the parameter `Git2`, a record of functions whose repositories,
-- commits, trees and diffs are handles; each call can fail with a reason, and the diff is read as
-- the list of its deltas. A snapshot is what its overview query gives, a list of files or a reason
-- why it failed; the query that reads the source of a symbol, up to its bound of bytes, is the
-- parameter `show`, the query for the metadata of a node is `locate`, and `String::from_utf8_lossy`
-- is `from_utf8_lossy`. The errors of these calls are in Pairer/Failed.antt and
-- Compute/Errors.antt. A `BTreeMap` is a list in which a key stands once, sorted by its key where
-- the code iterates. The three loops over groups in changes.rs are one, `pair_groups`, over what
-- they emit.
--
-- Common.antt, with Common/: tests and decisions, list and option lemmas, results, texts, sorting.
-- Tests.antt, with Tests/: the definitions run on small inputs.
--
-- Not modelled: the tree-sitter extractors, reading files, what Git does in a call, locks, the
-- server and the command line, output formats.
pub mod Common
pub mod Selector
pub mod Index
pub mod Impact
pub mod Queries
pub mod Resolution
pub mod Changes
mod Tests
