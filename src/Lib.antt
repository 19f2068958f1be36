-- ===== src/Lib.antt =====
-- The bootstrap of forza-motorsport-linux (forza_bootstrap/), modelled and proved.
--
-- The program prepares a Proton prefix for one game. A transaction record says how far it is
-- (state.py); snapshots of the managed files, taken before and after, say whether the run changed
-- what it meant to and nothing else (snapshot.py); the archives that it unpacks are checked before
-- a file of theirs is written (artifacts.py). The records meet in the command line program: the
-- transaction's identifier and the digest of the manifest are in the state and in each snapshot.
--
-- The files and the code that they model:
--   * Base: numbers, lists, texts, equality, the result type of the code that raises, and the
--     predicates Ensures and Raises on results. A text is the list of its code points.
--   * Json: the values that `json.loads` gives, a dict being a list of fields in order.
--   * Model: ArtifactSpec of forza_bootstrap/model.py.
--   * State: BootstrapPhase, BootstrapState and the string checks of forza_bootstrap/state.py;
--     State.Value: _state_from_value and _state_value; State.Phases: what _ALLOWED_TRANSITIONS
--     means; State.Transition: _validate_transition_request, _updated_state, transition_locked. The
--     file state.json is an argument and a result of transition_locked; histories are sequences of
--     its successful calls, each on the file that the last one wrote.
--   * Recovery: RecoveryOperations and the steps of forza_bootstrap/coordinator.py, with
--     _durable_recovery_state, _rollback_checkpoint and _recovery_required; Recovery.Plans:
--     _validate_awaiting_plan_handoff; Recovery.Rollback: rollback and _rollback_under_lease;
--     Recovery.Resume: resume. A world holds the files of the transaction's directory, the
--     output and the host; code that raises keeps what it did before (Base.Actions). The owners, the
--     launcher's lease and the callback are parameters, which may change the host and write any file:
--     nothing is known of them but what a theorem asks. An inspection reads the host, which is all but
--     the files of the world. Each transition is transition_locked of State on the world's file.
--   * Files: the private files and directories of forza_bootstrap/safeio.py, as nodes with an
--     owner, a mode and a content; State.Root: the state root as a list of named nodes, with
--     _recover_prepublication_transaction and rename_noreplace; State.Root.Loading:
--     _load_unfinished_transaction_locked; State.Root.Creation: create_transaction.
--   * Snapshot: the records, their validation and index of forza_bootstrap/snapshot.py;
--     Snapshot.Scope: build_snapshot_scope; Snapshot.Compare: change rules and compare_snapshots.
--   * Paths: posixpath.normpath, dirname and join, as Python documents them.
--   * Archive: roots, policies, member names and kinds of forza_bootstrap/artifacts.py;
--     Archive.Header: _tar_number, _valid_tar_checksum and _validate_raw_tar_name; Archive.Guard: the
--     class _TarGuard, which sees each byte before `tarfile` does; Archive.Graph: _resolved_link,
--     _validate_graph, _archive_relative and _ultimate_hardlink_target; Archive.Scan: _scan_archive
--     as inspect_tar calls it, which composes member names, kinds, limits and the graph.
--   * Vdf: compatibilitytool.vdf of forza_bootstrap/proton.py. Vdf.Tokens: _tokenize_vdf;
--     Vdf.Entries: _parse_vdf; Vdf.Identity: _object, _vdf_identity and _rewritten_vdf. Vdf.Pieces and
--     Vdf.Grammar describe the texts and the tokens that they accept; Vdf.Modes, Vdf.Lexing and
--     Vdf.Reading are about tokens, Vdf.Running, Vdf.Parsing, Vdf.Positions and Vdf.Moved about the
--     parser, Vdf.Places, Vdf.Spots, Vdf.Cutting, Vdf.Naming and Vdf.Rewriting about the renaming.
--   * Licensed: the files of the transaction of forza_bootstrap/licensed.py, with _open_record,
--     _same_named_file and _quarantine_destination; Licensed.Install: install_threading_copy;
--     Licensed.Rollback: rollback_threading_copy. The world is the directory of the destination, what
--     the source gives and the journal, which only the transaction changes during a call. A rename
--     replaces a file of the new name, unless the code asks that there be none (Licensed.Renaming).
--   * The modules named Tests run the definitions on concrete data.
--
-- Bounds. Python's integers are unbounded, as ℕ is. `parents` runs on fuel, the length of the path:
-- each round takes a component off a relative path, so the loop ends before the fuel does. `visit`
-- counts the nested calls that the interpreter still allows, and raises RecursionError when there are
-- none. `follow_hardlinks` runs on fuel and gives `none` when it runs out; a theorem gives fuel that is
-- enough for a validated graph. `consume_rounds` runs on fuel, the number of bytes, and gives `none`
-- when it runs out: each round takes a byte at least, so it does not.
-- `scan` and `parse_entries` of Vdf recurse on the text and on the tokens; the nested calls of
-- `parse_entries` are a stack, and RecursionError comes when `limit` of them wait. `copy_stage` has two
-- rounds of its loop, since the first leaves the name free; `free_recovery` tries the tokens given.
-- `reserve` tries 100 tokens, as the code does.
--
-- Not modelled: descriptors, locks and the other directories on disk, the network, the extraction of
-- archives, the capture and the report of snapshots, the manifest, the
-- coordinator's Prepare and Finish, its default owners and the callback `event`, which
-- the rollback and the resumption do not call, the container build, the PE
-- header, the plan and the journal's parser of the licensed file, changes that other processes make
-- during its transaction, the acquisition and staging of the Proton tool, the release tool and the scripts. What `tarfile` makes of the
-- bytes is not read from its code: the entries of a scan are arbitrary. The checks `isinstance` and `type(…) is …` on arguments that have the annotated type are the types of
-- the model.
pub mod Base
pub mod Json
pub mod Files
pub mod Model
pub mod State
pub mod Snapshot
pub mod Paths
pub mod Archive
pub mod Recovery
pub mod Vdf
pub mod Licensed
