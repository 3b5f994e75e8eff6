-- ===== src/FileList/Totality.antt =====
-- `GetFile` reads on until it has the file asked for, or to the end of the last manifest.
use mathlib.Core.Path.{subst}
use mathlib.Core.List.{append_assoc, append-nil, Sublist}
use mathlib.Core.List.Sublist
use duckdb_iceberg.Common.{
  ℕ, zero, suc, ◌+◌, ◌≤◌, ◌<◌, ◌≡◌, refl, sym, ap, ◌∙◌, ◌⊎◌, inl, inr, true, false, String, List,
  [], ◌∷◌, ◌++◌, Result, ok, ◌>>=◌, filter_map, ltb, length, length-append, All, Bool-cases, arith,
}
use duckdb_iceberg.Types.{IcebergManifest, IcebergManifestEntry}
use duckdb_iceberg.Duckdb.{ClientContext}
use duckdb_iceberg.Reader.{AvroScan, ManifestReader, is_finished}
use duckdb_iceberg.Reader.Rows.{pending}
use duckdb_iceberg.Snapshot.{IcebergOptions}
use duckdb_iceberg.FileList.Initial.{Files}
use duckdb_iceberg.FileList.Listing.{
  SameDeletes, SameDeletes-refl, SameDeletes-trans, Listing, Between, listed,
}
use duckdb_iceberg.FileList.Round.{Keeps, Opened, IsReady, left, Round, round_lem}
use duckdb_iceberg.FileList.{read_round, next_manifest, get_file_loop, expand_files}

module _ (l : Listing) (context : ClientContext) (open_avro : String → Result AvroScan)
    (path : String) (options : IcebergOptions) where
  open l use {decode}

  abbrev Ready : Files → Type 0
  Ready = IsReady l context open_avro path options

  abbrev remaining : Files → List IcebergManifestEntry
  remaining = left l context open_avro path options

  -- The file asked for is there, or all manifests are at their end.
  abbrev pub Answers : ℕ → Files → Type 0
  Answers file_id files =
      (file_id < length files.data_files)
      ⊎ ((files.current_data ≡ []) × (is_finished files.data_reader ≡ true))

  -- The files after some rounds, with those found in them at the end.
  pub record Expands (file_id : ℕ) (files : Files) (outcome : Result Files) : Type 0 where
    pub after : Files
    pub es : List IcebergManifestEntry
    pub returns : outcome ≡ ok after
    pub grows : after.data_files ≡ files.data_files ++ es
    pub ready : Ready after
    pub apart : SameDeletes files after
    pub keeps : Keeps file_id files (es ++ remaining after) (remaining files)
    pub answers : Answers file_id after

  -- No round.
  stays :
      (file_id : ℕ) (files : Files)
      → Ready files
      → Answers file_id files
      → Expands file_id files (ok files)
  stays file_id files h answers = record {
    after = files;
    es = [];
    returns = refl;
    grows = rw append-nil;
    ready = h;
    apart = SameDeletes-refl files;
    keeps = (Sublist.refl _, λ next. refl);
    answers = answers;
  }

  -- Rounds enough: one to see that the file is there, or one for each manifest and two more.
  abbrev Fueled : ℕ → ℕ → Files → Type 0
  Fueled fuel file_id files =
      ((file_id < length files.data_files) × (1 ≤ fuel)) ⊎ (length files.current_data + 2 ≤ fuel)

  abbrev loop : ℕ → ℕ → Files → Result Files
  loop = get_file_loop context open_avro path options

  module _ (fuel file_id : ℕ)
      (again : (files : Files)
        → Ready files
        → Fueled fuel file_id files
        → Expands file_id files (loop fuel file_id files)) where
    -- The rest of the loop after a round, which read `r` in the manifest `m`.
    after-Round :
        {files : Files} {r : ManifestReader} {m : IcebergManifest} {ms : List IcebergManifest}
        {outcome : Result Files}
        → length ms + 2 ≤ fuel
        → filter_map (decode m) (pending r) ++ listed l ms ≡ remaining files
        → Round l context open_avro path options file_id files r m ms outcome
        → Expands file_id files (outcome >>= loop fuel file_id)
    after-Round {files} {ms = ms} bound of_files round =
        let fueled : Fueled fuel file_id round.after = elim round.ends [
          | inl e ↦ inr (let n = ap (λ (k : List IcebergManifest). length k) e in omega (arith, n))
          | inr more ↦ inl (more, omega arith)
        ] in
        let rest = again round.after round.ready fueled in
        let (some_now, all_now) = round.keeps in
        let (some_later, all_later) = rest.keeps in
        let more : length files.data_files ≤ length round.after.data_files =
          (let n = ap (λ k. length k) round.grows in
            omega (arith, n, length-append files.data_files round.es)) in
        record {
          after = rest.after;
          es = round.es ++ rest.es;
          returns = ap (λ o. o >>= loop fuel file_id) round.returns ∙ rest.returns;
          grows = rest.grows ∙ ap (λ k. k ++ rest.es) round.grows ∙ rw append_assoc;
          ready = rest.ready;
          apart = SameDeletes-trans round.apart rest.apart;
          keeps =
              rw (← of_files, append_assoc)
                (
                  Sublist.trans (Sublist.append (Sublist.refl round.es) some_later) some_now,
                  λ next. ap (λ k. round.es ++ k) (all_later (omega arith)) ∙ all_now next,
                );
          answers = rest.answers;
        }

    from_next :
        (files : Files) (ms : List IcebergManifest)
        → Ready files
        → length files.data_files ≤ file_id
        → is_finished files.data_reader ≡ true
        → files.current_data ≡ ms
        → All (Opened l context open_avro path options) ms
        → length ms + 2 ≤ suc fuel
        → Expands file_id files
            (next_manifest context open_avro path options (loop fuel file_id) file_id files ms)
    from_next files [] h few over e opens bound = stays file_id files h (inr (e, over))
    from_next files (m ∷ ms) h few over e (opened, opens) bound =
        let (r, is_open, reading, unfinished, same, holds) =
          opened files.data_reader h.same_config in
        subst
          (λ o. Expands file_id files (
            o >>= λ reader.
            read_round context open_avro path options file_id files reader >>= loop fuel file_id))
          (sym is_open)
          (after-Round (omega arith) (rw (e, over, holds)) (
            round_lem l context open_avro path options file_id files r m ms few h.producer e same
              reading unfinished opens opened))

    from_middle :
        (files : Files) (ms : List IcebergManifest)
        → Ready files
        → length files.data_files ≤ file_id
        → is_finished files.data_reader ≡ false
        → files.current_data ≡ ms
        → Between l files.data_reader ms
        → All (Opened l context open_avro path options) ms
        → length ms + 2 ≤ suc fuel
        → Expands file_id files (
            read_round context open_avro path options file_id files files.data_reader
            >>= loop fuel file_id)
    from_middle files [] h few more e over opens bound = cc
    from_middle files (m ∷ ms) h few more e (inl over) opens bound = cc
    from_middle files (m ∷ ms) h few more e (inr (reading, unfinished)) (opened, opens) bound =
        after-Round (omega arith) (rw (e, more)) (
          round_lem l context open_avro path options file_id files files.data_reader m ms few
            h.producer e h.same_config reading unfinished opens opened)

  pub get_file_loop-Expands :
      (fuel file_id : ℕ) (files : Files)
      → Ready files
      → Fueled fuel file_id files
      → Expands file_id files (get_file_loop context open_avro path options fuel file_id files)
  unfolding get_file_loop
  get_file_loop-Expands zero file_id files h fueled = absurd (omega arith)
  get_file_loop-Expands (suc fuel) file_id files h fueled =
      let again = get_file_loop-Expands fuel file_id in
      elim (Bool-cases (ltb file_id (length files.data_files))) [
        | inl there ↦ rw (there, get_file_loop) (stays file_id files h (inl (ground arith)))
        | inr missing ↦
            let few : length files.data_files ≤ file_id = ground arith in
            let bound : length files.current_data + 2 ≤ suc fuel = omega arith in
            elim (Bool-cases (is_finished files.data_reader)) [
              | inl over ↦
                  rw (missing, over, get_file_loop)
                    (from_next fuel file_id again files files.current_data h few over refl h.opens
                      bound)
              | inr more ↦
                  rw (missing, more, get_file_loop)
                    (from_middle fuel file_id again files files.current_data h few more refl
                      h.between h.opens bound)
            ]
      ]

  pub expand_files-Expands :
      (file_id : ℕ) (files : Files)
      → Ready files
      → Expands file_id files (expand_files context open_avro path options file_id files)
  unfolding expand_files
  expand_files-Expands file_id files h =
      get_file_loop-Expands (3 + length files.current_data) file_id files h (inr (omega arith))

  -- If every manifest from the current one on can be opened and its rows can be read, by a producer
  -- that appends the entries of the rows it is given, the loop of `GetFile` ends. The files found
  -- before keep their places. Those found by it, with the entries that are left, are some of the
  -- entries that were left, in order and once; and all of them, if the file asked for is at most
  -- the next one. It has the file asked for, or it has read the last manifest to its end.
  pub expand_files-returns :
      (file_id : ℕ) (files : Files)
      → Ready files
      → (files' : Files) × (es : List IcebergManifestEntry) × (expand_files context open_avro path
            options file_id files
          ≡ ok files')
        × (files'.data_files ≡ files.data_files ++ es)
        × Sublist (es ++ remaining files') (remaining files)
        × (file_id ≤ length files.data_files → es ++ remaining files' ≡ remaining files)
        × Answers file_id files'
  expand_files-returns file_id files h =
      let x = expand_files-Expands file_id files h in
      (x.after, x.es, x.returns, x.grows, x.keeps.0, x.keeps.1, x.answers)
