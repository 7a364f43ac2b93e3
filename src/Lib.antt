-- ===== src/Lib.antt =====
-- agmem, a memory server for agents: how a pool of candidates becomes a page of results or a block of
-- context, and how claims are written, gated and forgotten.
--
-- crates/agmem-server/src/tools/recall.rs asks the store for candidates, lets the hop add votes to
-- them (tools/hop.rs), scores and orders them (crates/agmem-core/src/scoring.rs), keeps the last
-- seat of the page for a row of the hop (`reserve_tail`), caps what one document may fill
-- (tools/occupancy.rs) and cuts the page, or clears it, where nothing on it is strong enough
-- (tools/abstain.rs). The other reading tool, crates/agmem-server/src/tools/context.rs, lays the
-- strongest memories out as one block of text within a budget. A write
-- (crates/agmem-server/src/tools/remember.rs) is validated, embedded in one pass and gated against
-- the nearest live claims, and what is left goes to the store as one batch
-- (crates/agmem-store/src/repo/write.rs); crates/agmem-server/src/tools/forget.rs takes claims
-- away, crates/agmem-server/src/tools/reflect.rs stores an insight with the claims and texts that
-- it cites, and crates/agmem-server/src/tools/consolidate.rs proposes what to merge. Verbatim text
-- is cut into chunks before it is stored (crates/agmem-core/src/chunk.rs). The types that these
-- share are those of crates/agmem-core/src/model.rs.
--
--   Model, Model/Enums, Model/Names   crates/agmem-core/src/model.rs and error.rs; `Hit` and `Candidate`
--                                     of crates/agmem-store/src/repo/read.rs
--   Model/Citation                    proofs on `Derivation`'s text
--   Scoring                           crates/agmem-core/src/scoring.rs: `rank`, `retention`,
--                                     `temporal_fit`, `Signals`
--   Scoring/Laws                      what the ranking relies on of `f64`
--   Scoring/{Ranking,Decay,Temporal}  proofs on each of the three
--   Scoring/Dominance                 proofs: candidates compared signal by signal
--   Hop                               crates/agmem-server/src/tools/hop.rs: `hubs`, `seeds`, `merge`,
--                                     `reserve_tail`, `run`
--   Hop/{Moves,Tail,Hubs,Seeds,Votes}  proofs: list moves, the reserved seat, hubs, seeds, the votes
--   Occupancy, Occupancy/Gather       crates/agmem-server/src/tools/occupancy.rs: `cap`, `apply`
--   Occupancy/Spec                    the page that the cap means to make, without indices
--   Occupancy/{Loop,Page,Quota}       proofs: the loop, the refinement, the quota
--   Abstain                           crates/agmem-server/src/tools/abstain.rs: `apply`
--   Abstain/{Knee,Floor,Trim,Outcomes,Verdicts}  proofs: the knee, the floor, the trim, the ways it ends
--   Service                           the requests of crates/agmem-store/src/repo/read.rs; `spaces` and
--                                     `embed_query` of crates/agmem-server/src/tools/mod.rs
--   Context, Context/Session          crates/agmem-server/src/tools/context.rs: `render`, `assemble`,
--                                     `cap_by_tag`; `run` and its sections
--   Context/{Written,Round,Fill,Budget,Once,Tags,Request}  proofs: one entry, all sections, the
--                                     budget, what is shown, the cap by tag, the call
--   Recall, Recall/Request            crates/agmem-server/src/tools/recall.rs: the page, and `run`
--   Recall/{Page,Seat,Bounds}         proofs: the page, the hop's seat, the request
--   Forget, Forget/Resolve            crates/agmem-server/src/tools/forget.rs: the rows and requests, `by_ids`
--                                     and `by_query`
--   Forget/Chains, Forget/Request     the same: `cascade_documents`, `expand_chains`; `Pending` and `run`
--   Forget/{Shape,Snapshot,Session}   proofs: what a call can do, the rows shown, a session of calls
--   Forget/{Pulled,Cascade}           proofs: the citers pulled in, what a purge takes
--   Dedup                             crates/agmem-core/src/dedup.rs: the bands and `Unit`
--   Remember, Remember/Validate       crates/agmem-server/src/tools/remember.rs: the requests, the two
--                                     `validated`; `memory_id` and `resolve_space` of tools/mod.rs
--   Remember/Gate, Remember/Request   the same: `embed` and the gate; the batch, the diff and `run`
--   Remember/{Accounts,Settled,Places,Answer}  proofs: the marks, the diff, the places, the answer
--   Remember/{Held,Embedded}          proofs: what is held back, which vector goes where
--   Reflect                           crates/agmem-server/src/tools/reflect.rs: `resolve`, `uncited`, `run`
--   Reflect/{Cited,Evidence}          proofs: the citations, what an answer says of its evidence
--   Store, Store/Insert               crates/agmem-store/src/repo/write.rs: `insert_batch`
--   Store/{Retry,Closures}            proofs: the attempts, what a batch closes
--   Chunk                             crates/agmem-core/src/chunk.rs: `chunk`, `units`, `wrap_words`
--   Chunk/{Ink,Lossless,Bounds}       proofs: what the cuts keep, what the chunks hold, their size
--   Consolidate, Consolidate/Tags     crates/agmem-server/src/tools/consolidate.rs: `compare`;
--                                     `over_full_tags`
--   Consolidate/Request               the same: `run`, `overdue` and `note`
--   Consolidate/{Links,Table,Groups,Crowded}  proofs: chains of close pairs, the table of groups, the
--                                     groups, the tags listed
--   Reindex, Reindex/Ends             crates/agmem-server/src/reindex.rs: `execute`, `drain`; a proof that
--                                     both end
--   Union                             crates/agmem-server/src/tools/consolidate.rs: `Union`
--   Union/{Roots,Classes}             proofs: the root above an index, what `root` and `join` do
--   Words                             what the code uses of Rust's `str`
--   Float, HashMap, Sort, Prelude     what the code uses of `f64`, of `HashMap`, of stable sorting and of
--                                     slices
--   Tests                             runs at concrete inputs, and two arithmetics to run them in
--
-- Choices of the model:
--
--   An `f64` is an element of the interface `Float`: a total order without NaN, in which the two zeros
--   are not told apart, so that `total_cmp`, `partial_cmp`, `<`, `min` and `max` agree. Theorems that
--   need facts of arithmetic take `FloatLaws`.
--   Labels, names and ids are native strings; verbatim content is a list of code points.
--   A `HashMap` of counts is an association list; a sort by a key is stable insertion.
--   A `usize` is a natural number: every index here is bounded by the length of a vector in memory, so
--   that none wraps.
--   What panics in the code (`expect`, an index out of range) is `none` in the model.
--   A stamp of the `jiff` crate is an element of the parameter `Clock`, and the store's lookup is a
--   function that may fail.
--   The `eval-knobs` build feature, which lets an experiment move the floor, is off.
--
-- Three loops need fuel. `Union::root` takes one more round than its index, which goes down in every
-- round; `execute` and `drain` of reindex.rs ask the store anew in each round, for one round more than
-- the rows pending, and for five rounds for each row and five more. `insert_batch` counts its attempts
-- down. Every other loop is recursion on the list that the code iterates over.
--
-- Not modelled: the notes that an answer carries in words, the text of the store's queries, the
-- embedding models, the transport, the daemon, the command line and the hooks, which are input and
-- output; the texts of errors, of which the places and values they name are kept; `normalize` and the
-- content hash of dedup.rs, which are Unicode lowercasing and the blake3 crate; and, so far, inspecting
-- and the sweep of the model directory (crates/agmem-server/src/gc.rs).
pub mod Prelude
pub mod Reindex
pub mod Reflect
pub mod Consolidate
pub mod Dedup
pub mod Store
pub mod Remember
pub mod Forget
pub mod Union
pub mod HashMap
pub mod Words
pub mod Chunk
pub mod Service
pub mod Context
pub mod Recall
pub mod Occupancy
pub mod Sort
pub mod Float
pub mod Model
pub mod Hop
pub mod Abstain
pub mod Scoring
pub mod Tests
