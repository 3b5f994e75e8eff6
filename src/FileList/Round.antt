-- ===== src/FileList/Round.antt =====
-- A round of the loop of `GetFile`, in a manifest: it ends the manifest, or it has the file.
use mathlib.Core.Path.{subst}
use mathlib.Core.List.{append_assoc, Sublist}
use mathlib.Core.List.Sublist
use duckdb_iceberg.Common.{
  ℕ, ◌+◌, ◌-◌, ◌≤◌, ◌<◌, ◌≡◌, refl, sym, ap, ◌∙◌, ◌⊎◌, inl, inr, false, String, List, ◌∷◌, ◌++◌,
  Result, ok, ◌>>=◌, filter_map, length, length-append, drop, All, Bool-cases, if◌then◌else◌,
  if-true, if-false, drop-zero, arith,
}
use duckdb_iceberg.Types.{IcebergManifest, IcebergManifestEntry}
use duckdb_iceberg.Duckdb.{ClientContext}
use duckdb_iceberg.Manifest.Produce.{Producer}
use duckdb_iceberg.Reader.{AvroScan, ManifestReader, is_finished, read_entries}
use duckdb_iceberg.Reader.Rows.{pending, IsReading, SameConfig, SameConfig-trans}
use duckdb_iceberg.Reader.Batches.{Kept, Kept-order, read_entries-Reads}
use duckdb_iceberg.Snapshot.{IcebergOptions}
use duckdb_iceberg.FileList.Initial.{Files}
use duckdb_iceberg.FileList.Listing.{
  SameDeletes, Listing, Opens, Between, Between-end, listed, left_in, left_in-end,
}
use duckdb_iceberg.FileList.{open_manifest, store_round, read_round}

-- The entries that are found after some rounds, with those still to be found, are some of those
-- that were to be found, in order and once; and all of them, if the next file is asked for.
abbrev pub Keeps : ℕ → Files → List IcebergManifestEntry → List IcebergManifestEntry → Type 0
Keeps file_id files xs ys = Sublist xs ys × (file_id ≤ length files.data_files → xs ≡ ys)

pub Kept-Keeps :
    (file_id : ℕ) (files : Files) (xs ys zs : List IcebergManifestEntry)
    → length files.data_files ≤ file_id
    → Kept ((file_id + 1) - length files.data_files) xs ys
    → Keeps file_id files (xs ++ zs) (ys ++ zs)
Kept-Keeps file_id files xs ys zs few (some_kept, all_kept) =
    (Sublist.append some_kept (Sublist.refl zs), λ h. ap (λ l. l ++ zs) (all_kept (omega arith)))

module _ (l : Listing) (context : ClientContext) (open_avro : String → Result AvroScan)
    (path : String) (options : IcebergOptions) where
  open l use {input, decode, Good, produce, delivers, config}

  abbrev pub Opened : IcebergManifest → Type 0
  Opened = Opens l (open_manifest context open_avro path options)

  -- Between two rounds of `GetFile`.
  pub record IsReady (files : Files) : Type 0 where
    pub producer : files.entry_format.produce_entries ≡ produce
    pub same_config : SameConfig config files.data_reader
    pub between : Between l files.data_reader files.current_data
    pub opens : All Opened files.current_data

  -- The entries that are still to be found.
  abbrev pub left : Files → List IcebergManifestEntry
  left files = left_in l files.data_reader files.current_data

  pub record Round (file_id : ℕ) (files : Files) (r : ManifestReader) (m : IcebergManifest)
      (ms : List IcebergManifest) (outcome : Result Files) : Type 0 where
    pub after : Files
    pub es : List IcebergManifestEntry
    pub returns : outcome ≡ ok after
    pub grows : after.data_files ≡ files.data_files ++ es
    pub ready : IsReady after
    pub ends : (after.current_data ≡ ms) ⊎ (file_id < length after.data_files)
    pub apart : SameDeletes files after
    pub keeps :
        Keeps file_id files (es ++ left after) (filter_map (decode m) (pending r) ++ listed l ms)

  -- The files after a round, once it is known which manifests are left.
  stored_Round :
      (file_id : ℕ) (files : Files) (r r' : ManifestReader) (m : IcebergManifest)
      (es : List IcebergManifestEntry) (ms rest : List IcebergManifest)
      → files.entry_format.produce_entries ≡ produce
      → (if is_finished r' then drop 1 files.current_data else files.current_data) ≡ rest
      → SameConfig config r'
      → Between l r' rest
      → All Opened rest
      → (rest ≡ ms) ⊎ (file_id < length (files.data_files ++ es))
      → Keeps file_id files
          (es ++ left_in l r' rest)
          (filter_map (decode m) (pending r) ++ listed l ms)
      → Round file_id files r m ms
          (ok (store_round context open_avro path options files r' (files.data_files ++ es)))
  stored_Round file_id files r r' m es ms rest made c same between opens ends keeps = record {
    after = store_round context open_avro path options files r' (files.data_files ++ es);
    es = es;
    returns = refl;
    grows = refl;
    ready = record {
      producer = made;
      same_config = same;
      between = subst (λ k. Between l r' k) (sym c) between;
      opens = subst (λ k. All Opened k) (sym c) opens;
    };
    apart = record {
      entry_format = refl;
      delete_reader = refl;
      current_delete = refl;
      delete_data = refl;
    };
    ends = elim ends [ inl e ↦ inl (c ∙ e) | inr more ↦ inr more ];
    keeps =
        subst
          (λ k.
            Keeps file_id files (es ++ left_in l r' k)
              (filter_map (decode m) (pending r) ++ listed l ms))
          (sym c) keeps;
  }

  pub round_lem :
      (file_id : ℕ) (files : Files) (r : ManifestReader) (m : IcebergManifest)
      (ms : List IcebergManifest)
      → length files.data_files ≤ file_id
      → files.entry_format.produce_entries ≡ produce
      → files.current_data ≡ m ∷ ms
      → SameConfig config r
      → IsReading (Good m) (input m) r
      → r.finished ≡ false
      → All Opened ms
      → Opened m
      → Round file_id files r m ms (read_round context open_avro path options file_id files r)
  unfolding read_round
  round_lem file_id files r m ms few made now same reading open_ended opens opened =
      let count = (file_id + 1) - length files.data_files in
      let reads =
        read_entries-Reads (decode m) produce (Good m) (input m) (delivers m) count (omega arith)
          (Kept count) (λ n. Unit {0}) r files.data_files (Kept-order (decode m) count) reading
          open_ended tt in
      let r' = reads.after in
      let kept = SameConfig-trans config r r' same reads.kept in
      let at_end = reads.reading.same_end in
      let keeps : (rest : List IcebergManifest)
          → left_in l r' rest ≡ filter_map (decode m) (pending r') ++ listed l ms
          → Keeps file_id files (reads.es ++ left_in l r' rest)
              (filter_map (decode m) (pending r) ++ listed l ms) =
        λ rest e.
          rw (e, ← append_assoc) (Kept-Keeps file_id files _ _ (listed l ms) few reads.order) in
      let called =
        ap (λ (p : Producer IcebergManifestEntry). read_entries p count r files.data_files) made
        ∙ reads.returns in
      let stored : Round file_id files r m ms (
          ok (store_round context open_avro path options files r' (files.data_files ++ reads.es))) =
        elim (Bool-cases r'.finished) [
          | inl over ↦
              stored_Round file_id files r r' m reads.es ms ms made
                (if-true _ _ (at_end ∙ over)
                  ∙ ap (λ (k : List IcebergManifest). drop 1 k) now
                  ∙ drop-zero ms)
                kept (Between-end l r' ms (at_end ∙ over)) opens (inl refl)
                (keeps ms (left_in-end l r' ms (at_end ∙ over) ∙ rw over))
          | inr more ↦
              stored_Round file_id files r r' m reads.es ms (m ∷ ms) made
                (if-false _ _ (at_end ∙ more) ∙ now) kept (inr (reads.reading, more))
                (opened, opens)
                (inr (
                  let n = reads.enough more in
                  omega (arith, n, length-append files.data_files reads.es)))
                (keeps (m ∷ ms) (rw (at_end ∙ more)))
        ] in
      subst
        (λ o.
          Round file_id files r m ms
            (o >>= λ out. ok (store_round context open_avro path options files (out.1) (out.2))))
        (sym called) stored
