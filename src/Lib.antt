-- ===== src/Lib.antt =====
-- seekfs: verification library of the file search index, cmd/seekfs.
--
-- seekfs indexes the files of NTFS volumes and answers queries over them. A query is planned as a
-- tree of iterators over record ids, ordered by volume and record; the leaves read posting lists and
-- scans, the inner nodes merge, intersect, exclude and filter, and a loop collects the ids up to a
-- limit. The records that the ids name stand in a store by columns. The service keeps an index true to
-- its volume: it appends batches of journal changes to a write-ahead log, applies them to an overlay over
-- the persisted records, and carries what is new over when it has built the next index.
--
-- Files and what they model:
--   Common             numbers, tests, lists and columns that the other files share
--   Global/Id          cmd/seekfs/global_iterators.go: globalRecordID and its order
--   Global/Iterator    the interface globalIDIterator as a record of operations, `Iterator`, with two
--                      contracts: `Forward`, that Next yields the ids of a list in ascending order,
--                      and `Seeks`, that SeekGE yields the first id not before its target
--   Global/Slice       globalIDSliceIterator
--   Global/Filter      the filtering iterators of global_iterators.go and global_planner_entries.go,
--                      over any test of an id
--   Global/Sets        ascending lists of ids as sets: common ids, difference; Union and UnionFrom: union
--   Global/Optional    a child that may be nil; Global/Buffered: an id read ahead
--   Global/Intersection, Global/Exclusion, Global/Merge
--                      globalIntersectionIterator, globalExclusionIterator and globalMergeIterator:
--                      Defs has the state and the operations, Laws the contracts they keep
--   Global/Collect     cmd/seekfs/global_rank.go: collectGlobalIterator, and the two-iterator loops
--                      intersectGlobalIterators and unionGlobalIterators
--   Global/Operators   the theorems on whole plans; Global/Runs evaluates them
--   Packed/Search      sort.Search, the binary search of the side tables
--   Packed/SideTable   cmd/seekfs/packed_records.go: upsertModeExtra, removeModeExtra, upsertSize64
--                      and the reads of the same slices, as maps from ids to values
--   Packed/Bits        the bit columns DirBits and DeletedBits
--   Packed/Record      cmd/seekfs/types.go: PackedRecords
--   Packed/Modes, Packed/Sizes, Packed/Times, Packed/Parents, Packed/Names
--                      modeAt, sizeAt, modUnixAt, parentFRNAt, nameAt, lowerNameAt and their setters
--   Packed/Runs        the same at concrete stores
--   Spool              cmd/seekfs/direct_spool.go: writeDirectSpoolRecord and readDirectSpoolRecord over
--                      lists of bytes, for a writer and a reader that do not fail of themselves,
--                      and directRecordLess; Cut has records that are cut
--   Sorted             cmd/seekfs/postings.go: intersectSortedInts and uniqueSortedInts, which write over
--                      the slice they read: the state is the one array
--   Delta              cmd/seekfs/trigram_index.go: encodeDeltaUvarint32 and decodeDeltaUvarint32
--   Coverage           cmd/seekfs/postings.go: mergeComponentCoverageIntervals and
--                      subtractComponentCoverageIntervals, read as the sets of records they cover
--   Regex              cmd/seekfs/regex_required_literals.go: Scan and Parse have rxParser, Tree rxDNF and
--                      rxLiteralRuns, Required regexRequiredLiteralAlternatives; Language says which
--                      texts a tree stands for, Sound relates the expansion to them, and Fuel has the
--                      parser's progress
--   Wal                cmd/seekfs/service_state.go: Batch has encodeBinaryWALBatch and
--                      decodeBinaryWALBatch, Frames appendBinaryWALFrame, rewriteWAL and
--                      readWALFramesAfter over the bytes of the log, with the checksum a parameter
--   Replay             cmd/seekfs/service_replay.go: Volume has the state of serviceVolumeIndex, BaseIds
--                      overlayBaseIDSet, Owned filterOwnedReplayChanges, Sizes the accounting of sizes
--                      and tombstoneBaseSubtree, Cascade cascadeOverlayDelete, Change
--                      recordOverlayChange with refreshOverlayFileInfo, applyUSNChanges, and the
--                      replay of decoded batches, Binary replayBinaryWAL of service_state.go, Path
--                      overlayRecordPath of search_overlay.go and reconstructCompactPathCached of
--                      query_parse.go; Doom, Resolve, Latest, Deleted, Victims, Descendants, Dead and Lost
--                      lead to the theorem on the cascade, Marks and Subtree to the one on marked records,
--                      Entries, Ranked, Ordered, Keeps and Apply to the one on a batch of changes, Log and
--                      Filter to those on the log and the filter. Fold has snapshotOverlayForFold and
--                      carryOverlayDelta of service_runtime.go, Carry their theorem
--   Fuzzy              cmd/seekfs/fuzzy.go: Distance has damerauLevenshteinBounded, Window
--                      fuzzyNameDistance; Alignment has the distance as a recursion over the texts, to which
--                      Rows and Bounded relate the rows; Better is about one window, Best about all
--   Trigram            cmd/seekfs/trigram_index.go: Keys has the grams of a text, Index
--                      buildCompactTrigramIndex and candidateIDs; KeyLaws and KeyForms are about the keys,
--                      Inside about texts in texts, Raw, Segment and Collected about what is built, Candidates
--                      and Complete about what is found; Kept has lists that are kept by a test
--   Tree               Ranges has cmd/seekfs/index_format.go: buildSubtreeRanges, Children has
--                      cmd/seekfs/service_state.go: buildCompactChildren. Walked, Walks and Visits are about the
--                      walk, Forest about its ranges, Marked about a marking with them; Counts, Filled,
--                      Built and Parents about the counting sort, Under and Whole about both together
--
-- State is passed explicitly: an operation that changes an iterator or a store returns the new one.
-- A nil child or slice is `none` where the code tells it from an empty one. A write past the end of a
-- slice, which panics in Go, leaves the slice; the theorems assume the lengths that exclude it. Words
-- of 32 and 16 bits wrap as `uint32` and `uint16` write out; a name is its list of bytes, and
-- `strings.ToLower` is a parameter on which nothing is assumed.
--
-- Fuel: the loops of the iterators run on the `budget` of their children, a bound on the ids that are
-- left. A `Forward` child has at most that many, and each round consumes one of them. The binary search
-- runs on the length, the sorted slices on the sum of the lengths, and the decoder of differences on the bytes, of
-- which each round reads at least one. The parser of patterns has five units of fuel for each byte, the
-- most calls that stand between two of them, and its loops over bytes the length. The walk up the parents
-- of the overlay has one unit for each reference that a walk can go on from, and the marking of a subtree one
-- for each child that can still be pushed. The recursion of overlayRecordPath ends only where the
-- directories of the overlay form no circle: its fuel is a parameter, and a rank of the references that falls
-- to the parent and is less than the fuel is enough. A chunk of the trigram index has a record at least, so there
-- are no more chunks than records; the windows of a name are counted before the loops start. The walk of a
-- tree enters a new record in each call inside another, so its fuel is one more than the records.
--
-- Not modelled: the records' rows (At, Set, Append), the sources of the iterators over postings and scans,
-- the planners, the gram indexes that leave frequent grams out or are read from files, the index files,
-- the query language, the states of a volume and its rebuilding, the snapshots that the service
-- publishes to readers, the volume readers, the user interface and the command line. Reading volumes,
-- files and sockets is input and output; what os.Stat says of a changed file and the functions of
-- filepath are parameters of the replay, and logs of JSON lines are left out;
-- `sort.Slice` and `strings.ToLower` are parameters of the search in the trigram index. Go
-- leaves the order open in which it takes the entries of a map; here it is that of a list.
pub mod Common
pub mod Coverage
pub mod Delta
pub mod Fuzzy
pub mod Global
pub mod Packed
pub mod Regex
pub mod Replay
pub mod Sorted
pub mod Spool
pub mod Tree
pub mod Trigram
pub mod Wal
