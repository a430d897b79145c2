-- ===== src/Lib.antt =====
-- A verification library of precept, two analyzers of Go code and the driver that runs them.
--
-- paircheck (paircheck/) reports a call that opens an obligation on a value when a path returns from the
-- function before a call that discharges it. For one binding of a protocol to a package, and one call of
-- its trigger, `search.explore` (paircheck/flow.go) follows every path of the function; at each
-- instruction, branch and return it asks paircheck/success.go what the path knows of the errors the
-- function can return. defcheck (defcheck/) reports a declaration whose name a rule forbids for its kind.
-- The driver (internal/driver/) places the findings of either and drops those that golangci-lint drops.
--
-- Base: numbers, lists, bytes, texts, errors, finite collections and the loop over a work list (Worklist),
-- shared by the rest.
-- Paircheck: paircheck/.
--   Proven: `proven` of paircheck/success.go, a set of indices as a string of bytes. Laws, Spelling and
--     Size are about its members, its one spelling and its size.
--   Name, Slot, Protocol, Config: name.go, the slots of slot.go, protocol.go and config.go: what a
--     configuration compiles to. Bytes stand for the texts. Name/RoundTrip and Valid, Protocol/Within,
--     Config/Compile and Valid are their theorems. token.IsIdentifier, strconv.Atoi and
--     strings.TrimSpace are parameters.
--   Types, Correspondence, Candidates, Bind: correspondence.go and the part of bind.go that resolves a protocol
--     against the packages a pass sees. A type is a type parameter, a composite of a shape and parts, an
--     alias or any other, known by a number. Correspondence/Renaming and Unify, Bind/Link and Resolve are
--     their theorems.
--   Dispatch: `satisfierOf` of bind.go and what it calls; Dispatch/Bounds and Found
--     are which satisfier it finds, and its slot.
--   Implementation, Validate: implementation.go and validate.go; what go/types says of interfaces is a
--     parameter. Validate/Binds is what a configuration accepted means for a pass.
--   Summary: the sorted lists of a summary (summary.go); Summary/Learned is what adding to one changes.
--   Identity, Closure: the comparison of values of identity.go, and closure.go. Closure/Paths and Decides are
--     what `coversEveryPath` and `decides` say of the paths of a closure.
--   Ssa: what golang.org/x/tools/go/ssa gives the analyzer; its tables are parameters.
--   Flow/Types, Success, Events, Step, Explore: paircheck/flow.go and the functions of
--     paircheck/success.go it calls, and `follow` of paircheck/summary.go. A `state` is a `State`, whose
--     `Point` is the key of the map `searched`; `pending` holds its last element first. The record `Rule`
--     holds what bind.go, identity.go, summary.go, transfer.go, closure.go, failures.go and failure.go
--     answer for the one binding and obligation of a search; it is a parameter.
--   Flow/Paths: the paths that the search stands for, with no merging of states.
--   Flow/Simulation, Points, Cover, Complete: no path is missed. Flow/Plain, Sound: no leak is made
--     up. Flow/Range, Universe, Terminates: the search ends. Flow/Correct, Follow: what it promises.
-- Defcheck: defcheck/. Kinds and Rules are config.go and prohibition.go, Objects is classify.go and
--   imposed.go, Check is defcheck.go. Normalize, Compile and Report are their theorems. Package regexp, go/types and unicode are parameters.
-- Driver: internal/driver/. Findings is report.go but for its filter, Exclusions is the part of
--   exclusions.go that drops findings, Filter is the rest of report.go with nolint.go and generated.go as
--   they drop findings, Vet is `run` and `printedAt` of vet.go. Values and Settings are the reading of
--   linters.exclusions and of the run section: config.go, exclusions.go, generated.go and vet.go. Once,
--   Kept, Placed, Read and Rules are what these keep, find and accept; Reported, Selected, Printed and Run
--   are what go vet prints. What is on disk and go/token are parameters.
--
-- The loop of `explore` runs on fuel, one for each state taken from `pending`; `enough` is a number of
-- rounds that is enough for a search, computed from the blocks of the function and the indices tracked;
-- `covers_rounds` and `decides_rounds` are enough for the loops of closure.go. An
-- identity of a value, an instruction, a block or a function is a number. A Go int that counts or indexes
-- is a natural number: none of those modelled is negative, and `open--` is taken from at least one.
--
-- Not modelled: the texts of messages; what is behind `Rule` but for closures and the comparison of values;
-- what a program's packages import; decoding configuration files and flags, loading packages and
-- printing; the commands and the plugin.
pub mod Base
pub mod Paircheck
pub mod Defcheck
pub mod Driver
