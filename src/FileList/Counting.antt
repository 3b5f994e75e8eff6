-- ===== src/FileList/Counting.antt =====
-- `GetTotalFileCount` finds every data file.
use mathlib.Core.List.{append_assoc, append-nil}
use duckdb_iceberg.Common.{
  ℕ, zero, suc, ◌+◌, ◌≤◌, ◌<◌, ◌≡◌, sym, ap, ◌∙◌, inl, inr, false, String, none, some, List, ◌++◌,
  Result, ok, ◌>>=◌, ltb, empty, length, length-append, All, All-prefix, get_elem?, get_elem?-All,
  get_elem?_of_length-le, Bool-cases, arith,
}
use duckdb_iceberg.Types.{IcebergManifestEntry}
use duckdb_iceberg.Duckdb.{ClientContext}
use duckdb_iceberg.Reader.{AvroScan}
use duckdb_iceberg.Snapshot.{IcebergOptions}
use duckdb_iceberg.Snapshot.Read.{resolve_path}
use duckdb_iceberg.FileList.Initial.{Files}
use duckdb_iceberg.FileList.Listing.{SameDeletes, SameDeletes-trans, Listing}
use duckdb_iceberg.FileList.Round.{IsReady, left}
use duckdb_iceberg.FileList.Totality.{expand_files-Expands}
use duckdb_iceberg.FileList.{path_of, expand_files, get_file, count_files, get_total_file_count}

module _ (l : Listing) (context : ClientContext) (open_avro : String → Result AvroScan)
    (path : String) (options : IcebergOptions) where
  -- The path of the data file can be resolved, and is not empty.
  abbrev pub Resolves : IcebergManifestEntry → Type 0
  Resolves e =
      (p : String) × (resolve_path context open_avro options path e.file_path ≡ ok p)
      × (empty p ≡ false)

  -- The data files that were found and those that are to be found.
  abbrev pub all_files : Files → List IcebergManifestEntry
  all_files files = files.data_files ++ left l context open_avro path options files

  abbrev Counts : Files → Result (Files × ℕ) → Type 0
  Counts files outcome =
      (files' : Files) × (outcome ≡ ok (files', length (all_files files)))
      × (files'.data_files ≡ all_files files)
      × SameDeletes files files'

  get_file-found :
      (i : ℕ) (files after : Files) (e : IcebergManifestEntry) (p : String)
      → expand_files context open_avro path options i files ≡ ok after
      → get_elem? after.data_files i ≡ some e
      → resolve_path context open_avro options path e.file_path ≡ ok p
      → get_file context open_avro path options i files ≡ ok (after, p)
  unfolding get_file path_of
  get_file-found i files after e p returns found resolved = rw (returns, found, resolved)

  get_file-missing :
      (i : ℕ) (files after : Files)
      → expand_files context open_avro path options i files ≡ ok after
      → get_elem? after.data_files i ≡ none
      → get_file context open_avro path options i files ≡ ok (after, "")
  unfolding get_file path_of
  get_file-missing i files after returns missing = rw (returns, missing)

  count_files-found :
      (fuel i : ℕ) (files after : Files) (e : IcebergManifestEntry) (p : String)
      → expand_files context open_avro path options i files ≡ ok after
      → get_elem? after.data_files i ≡ some e
      → resolve_path context open_avro options path e.file_path ≡ ok p
      → empty p ≡ false
      → count_files context open_avro path options (suc fuel) i files
        ≡ count_files context open_avro path options fuel (suc i) after
  unfolding count_files
  count_files-found fuel i files after e p returns found resolved named =
      rw (get_file-found i files after e p returns found resolved, ◌>>=◌, named)

  count_files-missing :
      (fuel i : ℕ) (files after : Files)
      → expand_files context open_avro path options i files ≡ ok after
      → get_elem? after.data_files i ≡ none
      → count_files context open_avro path options (suc fuel) i files
        ≡ ok (after, length after.data_files)
  unfolding count_files
  count_files-missing fuel i files after returns missing =
      rw (get_file-missing i files after returns missing)

  count_files-Counts :
      (fuel i : ℕ) (files : Files)
      → IsReady l context open_avro path options files
      → i ≤ length files.data_files
      → All Resolves (all_files files)
      → length (all_files files) < fuel + i
      → Counts files (count_files context open_avro path options fuel i files)
  count_files-Counts zero i files h behind resolves enough =
      absurd (
        omega (arith, length-append files.data_files (left l context open_avro path options files)))
  count_files-Counts (suc fuel) i files h behind resolves enough =
      let x = expand_files-Expands l context open_avro path options i files h in
      let same : all_files x.after ≡ all_files files =
        ap (λ k. k ++ left l context open_avro path options x.after) x.grows
        ∙ append_assoc files.data_files x.es _
        ∙ ap (λ k. files.data_files ++ k) (x.keeps.1 behind) in
      let rest = left l context open_avro path options in
      elim (Bool-cases (ltb i (length x.after.data_files))) [
        | inl there ↦
            let (e, found, (p, resolved, named)) =
              get_elem?-All Resolves x.after.data_files i
                (All-prefix Resolves x.after.data_files (rest x.after) (rw (← same) at resolves))
                (ground arith) in
            let (files', counted, grown, apart) =
              count_files-Counts fuel (suc i) x.after x.ready (ground arith)
                (rw (← same) at resolves) (let n = ap (λ k. length k) same in omega (arith, n)) in
            (
              files',
              count_files-found fuel i files x.after e p x.returns found resolved named
                  ∙ counted
                  ∙ ap (λ k. ok (files', length k)) same,
              grown ∙ same,
              SameDeletes-trans x.apart apart,
            )
        | inr missing ↦
            let all_found : x.after.data_files ≡ all_files files = elim x.answers [
              | inl there ↦ absurd (ground arith)
              | inr (over, ended) ↦ sym (append-nil x.after.data_files) ∙ rw over at same
            ] in
            (
              x.after,
              count_files-missing fuel i files x.after x.returns
                    (get_elem?_of_length-le x.after.data_files i (ground arith))
                  ∙ ap (λ k. ok (x.after, length k)) all_found,
              all_found,
              x.apart,
            )
      ]

  -- If every manifest that is left can be opened and its rows can be read, and the paths of the
  -- data files can be resolved and are not empty, `GetTotalFileCount` ends, with a round for each
  -- data file that is left and one more. It has found every one of them, in order, and answers how
  -- many data files there are. What is known of the deletes stays as it was.
  pub get_total_file_count-all :
      (fuel : ℕ) (files : Files)
      → IsReady l context open_avro path options files
      → All Resolves (all_files files)
      → length (left l context open_avro path options files) < fuel
      → (files' : Files) × (get_total_file_count context open_avro path options fuel files
          ≡ ok (files', length (all_files files)))
        × (files'.data_files ≡ all_files files)
        × SameDeletes files files'
  unfolding get_total_file_count
  get_total_file_count-all fuel files h resolves enough =
      count_files-Counts fuel (length files.data_files) files h (omega arith) resolves (
        let n = length-append files.data_files (left l context open_avro path options files) in
        omega (arith, n))
