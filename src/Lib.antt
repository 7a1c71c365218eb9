-- ===== src/Lib.antt =====
-- short-editor, a desktop application that finds clips in long recordings, edits them into Shorts,
-- renders them and plans their publication. This development models the rules that the core keeps in
-- its database and the pure functions that the editor computes with, and proves them.
--
-- The parts and how they interact. All state is in one SQLite database (src/core/database.ts).
-- `Repository` (src/core/repository.ts) reads and writes it, one transaction per call: it keeps the
-- Shorts with their revisions, the attempts to render them, the schedule, the authorizations for cloud
-- models and the jobs. `JobQueue` and `JobRunner` (src/core/jobs.ts) hand jobs to handlers, one at a
-- time; `recoverJobs` settles at a start what the last run left behind. `draftSchedule`
-- (src/core/scheduler.ts) places Shorts on the slots that the rules allow. `CaptionEngine`
-- (src/core/captions.ts) and the editor (src/ui/editor-state.ts) map times between a recording and the
-- Short cut from it. `validateOwnedRelativePath` (src/core/artifact-path.ts) guards the paths of files
-- that the application owns. `generateCandidates` (src/core/candidates.ts) makes candidates for clips from
-- the segments of a transcript, and `Repository` keeps those that do not conflict with what it has.
-- `ShortWorkflowService` (src/core/short-workflows.ts) takes a recording from
-- its import to a rendered and exported Short: it keeps a row for each workflow and calls the other
-- services, step by step, as far as they have got.
--
-- Which file models which part:
--   Prelude, Prelude/*    tests on numbers, lists, tables of rows and sorting that all parts share
--   Content, Store        the types of src/shared/contracts.ts; the tables; errors as values
--   Jobs, Jobs/Runner     src/core/jobs.ts: `JobQueue` and `JobRunner`
--   Jobs/Recovery         `recoverJobs`
--   Jobs/*                what the queue keeps: Invariant, Trace, Terminal, Settling, Cloud,
--                         Restart, Surviving
--   Shorts, Shorts/*      `updateShort`, `updateShortTimeline`, `updateShortCaptions`,
--                         `updateShortAudio`, `approveShort` and their checks
--   Renders, Renders/*    `startRenderAttempt`, `retryRenderAttempt`, `transitionRender` and
--                         `completeRenderAttempt`
--   Schedule              `draftSchedule` and `legalSlots`; Schedule/Entries: `updateScheduleEntry`
--   Timeline, Timeline/*  `sourceRangesSchema`, `outputDuration`, `mapOutputToSource`,
--                         `containingRange`, `normalizeLines` and the cue mapping of
--                         `generateCaptionSidecars`
--   Editor, Editor/*      `dirtySections`, `mergeCanonicalSave`, `cropControlsPastDuration`
--   Captions, Captions/*  the warnings of `CaptionEngine.analyze`
--   Crops, Crops/*        `remapSamplesToShort`
--   Episodes, Episodes/*  `assertEpisodeTransition`, `updateEpisodeStatus`, `updateEpisodeMedia`,
--                         `markEpisodeSourceMissing`, `restoreEpisodeAtCurrentPath`,
--                         `commitEpisodeRelink`
--   Candidates            the candidates of src/core/candidates.ts and what they are made from
--   Candidates/Comparing, Texts, Scores
--                         its comparators, its functions on texts, `compareCandidates`,
--                         `passesQuality`, `candidatesConflict`
--   Candidates/Windows    `alignHighlight`; Candidates/Slices, Widening, Aligning: what it
--                         returns
--   Candidates/Clusters   `clusterProposals`; Candidates/Separate: what its clusters keep
--   Candidates/Generation `generateCandidates` with an analysis; Candidates/Tried: the windows
--                         without one; Candidates/Listed, Greedy, Accounts: what is listed and counted
--   Candidates/Library    `saveCandidateGeneration`
--   Candidates/Reviews    `listCandidates`, `reviewCandidate`, `acceptCandidateContentPackage`, and
--                         `generateCandidates` of src/core/service.ts with an analysis
--   Candidates/Standing, Reviewed, Decided
--                         what these calls keep
--   Service               `startAnalysis` of src/core/service.ts
--   Workflows             the rows of the Short workflows, and what their coordinator uses of others
--   Workflows/Rows, Steps, Finishing, Choices
--                         reading and updating a row; `advance` state by state
--   Workflows/Calls, Resuming
--                         the loop of `advance`; `create`, `get`, `resume`, `cancel`, `reconcileAll`
--   Workflows/*           what their rows keep: Trail, Rules, Updates, Moving, Drafting, Ending,
--                         Keeping, Retrying, Histories; that `advance` ends: Rounds,
--                         Dropping, Ends; what is picked: Picking
--   History, History/*    `createHistory`, `pushHistory`, `undoHistory`, `redoHistory`
--   Paths, Paths/*        `validateOwnedRelativePath`
--   Tests, Tests/*        runs on concrete rows
--
-- How state and operations correspond to the code. A database is a record of tables, a table the list of
-- its rows in insertion order, and a method a function from the database to a result: the database and
-- the value returned, or the code of the `AppError` thrown. A call that throws inside its transaction
-- leaves the database as it was, so an error carries none. An UPDATE is `update_where` with the
-- condition of its WHERE. A job handler is known by what it does to the database and by how it ends, and
-- any other call may come between its start and its end. Ids and digests are numbers, compared for
-- equality; times are milliseconds; text that no condition reads is left out, and JSON that none reads
-- is a number that stands for it. `randomUUID()`, the clock, the store of credentials and the resolver of
-- time zones are arguments, and so are the caption warnings that rest on the metrics of a font.
--
-- The tables of candidates, of their copy and of the runs that made them are a record of their own, with
-- texts as lists of code units. Scores of candidates are numbers of millionths where the code has
-- fractions, so their sums are exact, and a quotient is compared with a bound by a product. Lower case is
-- that of ASCII.
--
-- The coordinator of the workflows leaves what it has written where a later step throws, so its calls are
-- functions from a world, the database with the rows of the workflows, to a world and an outcome. A call
-- that it awaits is a function on the whole world, since other calls run meanwhile.
--
-- Bounds and fuel. Every loop is a recursion over a list, and the horizon of a draft a recursion over
-- its 730 days, so no fuel is needed; the loop of `advance` has the eight rounds of the code, which
-- end it only after an import. The loop of `alignHighlight` that widens a window runs on fuel, one
-- more than there are segments: a round takes a segment that was outside. Progress is counted in
-- millionths.
--
-- Not modelled: files, processes and the network (media, rendering, workers, providers, servers, the
-- desktop shell), the screens, the web service under apps/ and packages/, and, of the core,
-- transcripts, the scores of windows by their words, the generation of crops, templates, assets,
-- watched folders and the search for the file of a missing source.
pub mod Prelude
pub mod Content
pub mod Store
pub mod Jobs
pub mod History
pub mod Timeline
pub mod Shorts
pub mod Paths
pub mod Renders
pub mod Schedule
pub mod Episodes
pub mod Captions
pub mod Editor
pub mod Crops
pub mod Service
pub mod Workflows
pub mod Candidates
pub mod Tests
