-- ===== src/Lib.antt =====
-- Verification of Benji: the scripts of its website, and the core of the program.
--
-- Benji is a backup program. This development is about the repository's own code in JavaScript, the
-- functions of website/src/assets/js/util.js and the script website/src/assets/js/main.js, which
-- runs them on the pages of the website, and about the parts of the program in Python that back up
-- and restore versions of a volume, that clean up and lock, that decide which versions are dismissed
-- and which blocks have been seen, and that sign metadata.
--
-- The parts, and the files that model them:
--
-- - NavList: `$.fn.navList`, which prints the links of a navigation as markup. The anchors are what
--   jQuery reports of them. NavList/Decimal has the digits of a number, NavList/Decode a reader of
--   the markup, which is not code of the repository but the specification that the printer is
--   checked against.
-- - Panel: `$.fn.panel`. `configure` is the `$.extend` of the options, `bindings_of` lists the calls
--   of `on`, `install` is the part below the guards and `panel` the whole. Panel/Touch has the
--   decision whether a movement is a swipe. Panel/Handlers has `_hide` (`hide`), one function for
--   each handler, and the functions that are handed to `window.setTimeout` (`run_task`). What the
--   closures share is the record `World`: the page, the two touch positions, the timers that are set
--   and the pages visited. Panel/Install has the events that a panel is there for, and which handlers
--   its bindings call on each. Panel/Handlers/Reach has the step relation: any event may reach any
--   function that is bound, and any timer may fire, in any order.
-- - Placeholder: `$.fn.placeholder`. Placeholder/TextFields has the handlers of text fields,
--   Placeholder/Twins the text field that stands in for a password field, Placeholder/Forms the
--   handlers of `submit` and `reset`, Placeholder/Setup the function itself, Placeholder/Names the
--   names of twins. A handler that throws a TypeError is the value `thrown`, with the page as it is
--   by then.
-- - Prioritize: `$.prioritize`, over the siblings of Tree.
-- - Site: main.js. `ready` is the function given to `$`, and it calls `placeholder`; `on_change` is
--   the function given to `skel.on`, and it calls `prioritize`.
-- - Retention: src/benji/retentionfilter.py. `parse_rules` is `_parse_rules`, `timedelta` the
--   constructor of `_Timedelta`, and `filter_versions` is `_filter`, with `consider` as the body of
--   its loop. Retention/Counts, Total, Falling, Covers and Latest have the proofs.
-- - Storage: `to_path` and `from_path` of src/benji/storage/key.py in Storage/Key, the class of
--   src/benji/blockuidhistory.py in Storage/History, and that of src/benji/storage/dicthmac.py in
--   Storage/Hmac.
-- - Database: the tables `versions`, `blocks` and `deleted_blocks` of src/benji/database.py as lists of
--   rows, and the operations of `Version` on them. A query is a filter; an operation that commits is a
--   function. Database/Windows has the windows of rows in which `Version.blocks` looks them up.
--   Storage/Uid has `BlockUid`, and a sparse block's uid is `none`.
-- - Clone: `create_version` of src/benji/benji.py, from the loop over the blocks on, with its work
--   packages. Clone/Result says what a new version has, Clone/Stored that its data is there, and
--   Clone/Grown what becomes of a block that grows.
-- - Backup: the loops of `backup`. A `State` has the tables, the objects of the storage, and the blocks
--   that wait to be read and to be written; `Step` lets any read and any write complete next, and
--   `handle_read` and `handle_write` are what the loops do then. Backup/Hints is
--   `_blocks_from_hints`. Backup/Content has the invariant, Backup/Queue, Steps and Writes the proofs
--   that it is kept, Backup/Result and Backup/Hinted what follows, Backup/Finish the end of the loops,
--   and Backup/Frame that a block that is not queued stays as it is.
-- - Restore: the loops of `restore`, in the same way, onto a file, whose `open_w` and `_write` of
--   src/benji/io/file.py are there too. Restore/Files has files byte by byte, Restore/Whole the round
--   trip with the backup, Restore/Missing a storage without an object, Restore/Opening the target at
--   the start.
-- - Cleanup: `get_unused_block_uids` of src/benji/database.py with the loop of `cleanup` that takes its
--   rounds. Cleanup/Removed has the removal of a version before it.
-- - Locking: the class `_Locking` of src/benji/database.py, as a table of locks and the steps of the
--   processes that share it.
-- - Prelude: names of the library passed on, Boolean tests, texts as lists of character codes,
--   integers over the native numbers, and lemmas on lists.
-- - Tests: a page of which everything is computed (Tests/Memory), a forest of siblings
--   (Tests/Forest), and runs on them.
--
-- jQuery and the browser are libraries to this code. JQuery.antt and Tree.antt have what the code uses
-- of them, as records of operations, and their documented behaviour as the records `IsLawful` and
-- `IsTree`; the theorems take both as parameters, and Tests shows that each can be had. A page is
-- seen through `look`: the value, the attributes, the classes and the hidden mark of each element.
-- `.show()` and `.hide()` act on the hidden mark, and what `.focus()` sets off in other handlers is
-- not part of it: the handlers are the units.
--
-- The digest of a block is a parameter, of which backups ask that different data have different
-- digests, as a cryptographic hash has them in practice. New data gets a uid made of the version's id
-- and the block's place; that no row has a uid with that id is a hypothesis of theirs, `AreForeign`. It
-- holds for a fresh id in a database into which nothing was imported, and create_version keeps it;
-- the import of metadata, which is not modelled, can break it. A storage gives back what was written to it
-- last; the transforms of its data are not modelled, and so neither is a read that fails in one. The
-- database orders rows as the list does, where the code does not say how. What the operating system
-- does with a file is documented: a write behind the end fills the gap with zeros.
--
-- Of the libraries of Python, the conversion to local time, the MD5 digest, the keyed digest and the
-- set of numbers `SparseBitfield` are parameters. Exceptions are values of a result type.
--
-- Numbers: pixels are integers without a bound, a touch position may also be undefined or null, and a
-- difference may be NaN; fractions of pixels are not modelled. Delays are natural numbers. `show_nat`
-- takes one more than the number as its fuel, which is enough for its digits, and `read_links` one
-- more than the number of links; that this is enough is part of the theorem on it. `cleanup`
-- takes more fuel than there are candidates, and `windows` more than there are blocks: a round takes
-- a candidate at least, and a window a block. Sizes and offsets in Python have no bound.
--
-- Not modelled: the vendored scripts (jQuery, skel, scrolly, respond, html5shiv) and the bundled
-- player docs/source/_static/asciinema/asciinema-player.js; of the program in Python under src/benji,
-- scrubbing, the check of hints against a sample of blocks, statistics, metadata backups, the rest of
-- the storages and IO modules, the NBD server, the command line and the REST interface; the charts,
-- images and packaging.
pub mod Prelude
pub mod NavList
pub mod JQuery
pub mod Panel
pub mod Tree
pub mod Prioritize
pub mod Placeholder
pub mod Storage
pub mod Database
pub mod Clone
pub mod Backup
pub mod Restore
pub mod Locking
pub mod Cleanup
pub mod Retention
pub mod Site
pub mod Tests
