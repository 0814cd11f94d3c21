-- ===== src/Lib.antt =====
-- A verification library for dtu, a toolkit for the analysis of Android devices. It models the crate
-- dtu/ where that crate computes: names and paths, shell words, manifests and their resources, the
-- setup of the device database, the comparison of a device with another one that the database stores,
-- the pull that fetches a device's files and decompiles them, the analysis of smali files, and what is
-- sent to the app server.
--
-- The parts and their files:
--
--   Escape       dtu/src/utils/mod.rs: replace_char and unreplace_char, which put a path into a file
--                name. DevicePath and ProjectPath are made of them.
--   DevicePath   dtu/src/utils/device_path.rs: a path on the device beside its squashed form.
--   ProjectPath  dtu/src/utils/fs.rs: squash_path, unsquash_path, proj_home_relative and
--                try_proj_home_relative.
--   ClassName    dtu/src/utils/class_name.rs: a class under its Java name or its smali name. The
--                comparison finds the counterpart of a component by it.
--   Shell        dtu/src/command.rs: quote and split. Shell/Quoting has the reader of a POSIX shell,
--                for one word, that quote is held against.
--   LineStream   dtu/src/command.rs: the closure of run_cmd_split_streamed, which makes lines of the
--                chunks that a child's two pipes give, in any interleaving, and read2 on Unix.
--   Hex          dtu/src/utils/hex.rs: bytes_to_hex and bytes_from_hex.
--   UnknownBool  dtu/src/unknownbool.rs: a Boolean that may be unknown.
--   Diff         dtu/src/db/device/diff.rs, with the rows of dtu/src/db/device/models.rs and the
--                traits of dtu/src/db/common.rs.
--   Manifest     dtu/src/manifest.rs: Manifest/Xml searches the events of a file, Manifest/References
--                resolves a value, Manifest/Arrays an array, Manifest/Resolvers has the interface and
--                its three implementations, Manifest/Items the items of a manifest.
--   Setup        dtu/src/db/device/setup.rs: Setup/Manifests adds the rows of one manifest, Setup/Apks
--                the APKs of a device, Setup/Progress runs the setup once, and
--                Setup/Props reads the printed properties of a device. It resolves the items by
--                Manifest and names their classes by ClassName.
--   Pull         dtu/src/tasks/pull.rs: Pull/Finding finds directories, files and APKs, Pull/Files groups
--                the files by name, Pull/Decompile handles one file and its row (Pull/Status),
--                Pull/Filesets the files of one name, and Pull/Run the whole.
--   Smalisa      dtu/src/smalisa_wrapper/gen_csvs.rs: what is sent for the lines of a smali file.
--   Graph        dtu/src/db/graph/setup_task.rs and setup.rs: the import of the CSV files of that analysis
--                into the graph database.
--   AppServer    dtu/src/app_server/server.rs: the framing of commands and responses.
--   ParcelString dtu/src/app_server/parcel_string.rs: the text of a parcel's elements.
--   Prelude      what the parts share: lists, texts and tests on the native numbers.
--
-- A text is the list of its code points. A number of a database row is only compared, and is a natural
-- number. A definition with the name of a Rust method models that method; a closure or a block of one
-- has a name of its own beside it.
--
-- The comparison is a chain of actions on a world: the state of the device's database, the events that
-- the monitor has seen, and how often the cancel flag was read. An action gives a result or an error
-- beside the world that it leaves, so that what was written before an error stays written.
-- SystemServiceDiffTask is Diff/SystemServices; DiffTask is Diff/Components and Diff/Task. SQLite and
-- the query builder are parameters: a query gives a list or an error from the database's state, an
-- insertion a new state or an error (Diff/Database). The theorems on whole runs ask of them, per table,
-- that an insertion leaves the compared table alone and adds its item to those that have a diff for
-- the row's source, as a table of diffs joined with its items does; Diff/Memory keeps these laws. The
-- cancel flag is what each of its reads gives, whoever sets it.
--
-- Diff/Results/Runs has the run as the list of its phases. Diff/Kind is the shape that six of the
-- comparisons have (APKs, receivers, services, activities,
-- providers, permissions), and Diff/Kinds shows that the code has it.
--
-- LineStream/Polling is the loop of read2, on a list of what each poll and each read gives. A run of
-- the closure is a list of its calls, each with what was read for one pipe.
-- The callbacks are a function that says, from all the calls so far, whether the last one gives an
-- error. Bytes are the elements of a text, and the lossy decoding of a line is left out.
--
-- The setup is a chain of such actions too (Setup/Exec), on the rows written so far: which rows the
-- database refuses, whether a transaction commits and what number a new row gets are functions of the
-- rows there. Setup/Written has one rule for each form of action, which says what it writes, and
-- Setup/Success one which says that it cannot fail. The task that adds one system service is an
-- argument of the loop over services; of that task, Setup/Signatures has what it does with the methods:
-- it reads their names in the service's stub and their signatures in an interface, each file being the
-- list of the lines that the parser of smali gives, and adds one row for each.
--
-- The pull is a chain of actions on the rows of decompile_status, the files on the host and the events
-- (Pull/Exec). The device, the database, the tools and the cancel flag answer by parameters that are
-- functions of the number of calls before, so that any sequence of answers is covered. Its workers are
-- one worker that takes what was sent in its order, and a map's entries are taken in the order of their
-- first insertion. The directory of apktool's frameworks is taken to be there: the code panics where it
-- cannot be made.
--
-- The import of a graph keeps, by the name of its source and its kind, which file's rows are committed,
-- for which source, which are staged in the temporary tables and which load status is stored; how the SQL
-- statements join the rows is not modelled. Strings that are there are left out, and where
-- another unique key refuses rows, the loading is one that fails.
--
-- A resource file is the list of the events that the XML reader gives. XmlResolver::resolve recurs
-- through references; its fuel is one more than the number of texts in all the files, which is enough
-- since no reference is followed twice. Every other loop is structural recursion over the text or list
-- that it reads.
--
-- What std does is written out where it is a function of texts (Path::join, is_absolute, rsplit_once,
-- char::is_whitespace); Path::file_name and the test that a path exists are arguments. Windows' path
-- separators are not modelled. Files, processes, SQL, JSON, the parsers of XML and smali, the queries
-- of the graph and the command line are not modelled.
pub mod Prelude
pub mod AppServer
pub mod ClassName
pub mod DevicePath
pub mod Diff
pub mod Escape
pub mod Graph
pub mod Hex
pub mod LineStream
pub mod Manifest
pub mod ParcelString
pub mod ProjectPath
pub mod Pull
pub mod Setup
pub mod Shell
pub mod Smalisa
pub mod UnknownBool
