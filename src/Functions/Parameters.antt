-- ===== src/Functions/Parameters.antt =====
-- The parameters of `iceberg_scan`, and what `ParseOption` takes up of them.
use duckdb_iceberg.Common.{
  ℕ, ◌≡◌, refl, sym, ◌∙◌, ap, String, Bool, true, false, Option, none, some, List, [], ◌∷◌, Result,
  ok, throw, ◌>>=◌, ◌==◌, eq_refl, eq_iff, Bool-cases, inl, inr, arith, All, if◌then◌else◌,
}
use duckdb_iceberg.Schema.ColumnTypes.{LogicalType, varchar, ubigint}
use duckdb_iceberg.Duckdb.{StringUtil, ci_find, ci_erase}
use duckdb_iceberg.Duckdb.Maps.{last_entry, or_else, ci_find-ci_set_all}
use duckdb_iceberg.Snapshot.{IcebergOptions, SnapshotSource, latest, from_id, from_timestamp}
use duckdb_iceberg.FileList.Options.{ValueAccess, parse_option, set_source, set_option}
use duckdb_iceberg.Functions.Registry.{
  TableFunction, scan_function, scan_parameters, add_named_parameters,
}

-- Whether `ParseOption` takes up an option: an exception does as well.
abbrev pub takes_up : Result (Option IcebergOptions) → Bool
takes_up (ok none) = false
takes_up _ = true

-- Whether it answers with new options.
abbrev pub accepts : Result (Option IcebergOptions) → Bool
accepts (ok (some options)) = true
accepts _ = false

abbrev pub is_registered : Option LogicalType → Bool
is_registered (some type) = true
is_registered none = false

abbrev names : List String
names =
    "skip_schema_inference" ∷ "allow_moved_paths" ∷ "mode" ∷ "metadata_compression_codec"
    ∷ "version" ∷ "version_name_format" ∷ "snapshot_from_timestamp" ∷ "snapshot_from_id" ∷ []

-- To show something of a text, it is enough to show it of each text of a list, and if the text is
-- none of them.
each :
    (P : String → Type 0) (ns : List String) (l : String)
    → All P ns
    → (All (λ n. (l == n) ≡ false) ns → P l)
    → P l
each P [] l each_one other = other tt
each P (n ∷ ns) l (here, there) other = elim (Bool-cases (l == n)) [
  | inl same ↦ let e = (eq_iff l n).0 same in rw e here
  | inr apart ↦ each P ns l there (λ rest. other (apart, rest))
]

other_way : (a b : String) → (a == b) ≡ false → (b == a) ≡ false
other_way a b h = elim (Bool-cases (b == a)) [
  | inl same ↦
      let e = (eq_iff b a).0 same in let f = eq_refl a in let g : (a == a) ≡ false = rw e at h in cc
  | inr other ↦ other
]

takes_up_read :
    {A : Type 0} (m : Result A) (set : A → IcebergOptions)
    → takes_up (m >>= λ a. ok (some (set a))) ≡ true
takes_up_read (ok a) set = refl
takes_up_read (throw e) set = refl

takes_up-set_source :
    (options : IcebergOptions) (source : ℕ → SnapshotSource) (value : Result ℕ)
    → takes_up (set_source options source value) ≡ true
takes_up-set_source options source (ok n) = ground arith
takes_up-set_source options source (throw e) = ground arith

accepts_read :
    {A : Type 0} (m : Result A) (set : A → IcebergOptions)
    → (a : A) × (m ≡ ok a)
    → accepts (m >>= λ a. ok (some (set a))) ≡ true
accepts_read m set (a, e) = rw e

accepts-set_source :
    (options : IcebergOptions) (source : ℕ → SnapshotSource) (value : Result ℕ)
    → options.snapshot_source ≡ latest
    → (n : ℕ) × (value ≡ ok n)
    → accepts (set_source options source value) ≡ true
accepts-set_source options source value h (n, e) = rw (h, e)

-- What is registered, by the name in lower case.
abbrev entry_of : List (String × LogicalType) → String → Option LogicalType
entry_of [] l = none
entry_of ((name, type) ∷ entries) l =
    or_else (entry_of entries l) (if name == l then some type else none)

entry_of_absent :
    (l : String) → All (λ n. (l == n) ≡ false) names → entry_of scan_parameters l ≡ none
entry_of_absent l (skip, (moved, (mode, (codec, (version, (format, (time, (id, _)))))))) = rw (
  other_way l "skip_schema_inference" skip,
  other_way l "allow_moved_paths" moved,
  other_way l "mode" mode,
  other_way l "metadata_compression_codec" codec,
  other_way l "version" version,
  other_way l "version_name_format" format,
  other_way l "snapshot_from_timestamp" time,
  other_way l "snapshot_from_id" id,
)

some-injective : {a b : LogicalType} → some a ≡ some b → b ≡ a
some-injective h = cc

module _ {V : Type 0} (access : ValueAccess V) where
  open access use {boolean_get, string_get, get_uint64, get_timestamp}

  -- The readers of values read each value of their own type, if it is not null.
  pub record ReadsOwnType (type_of : V → LogicalType) (is_null : V → Bool) : Type 0 where
    pub reads_boolean :
        (v : V)
        → type_of v ≡ LogicalType.boolean
        → is_null v ≡ false
        → (b : Bool) × (boolean_get v ≡ ok b)
    pub reads_string :
        (v : V) → type_of v ≡ varchar → is_null v ≡ false → (s : String) × (string_get v ≡ ok s)
    pub reads_uint64 :
        (v : V) → type_of v ≡ ubigint → is_null v ≡ false → (n : ℕ) × (get_uint64 v ≡ ok n)
    pub reads_timestamp :
        (v : V)
        → type_of v ≡ LogicalType.timestamp
        → is_null v ≡ false
        → (t : ℕ) × (get_timestamp v ≡ ok t)

  module _ (options : IcebergOptions) (v : V) where
    abbrev Agrees : String → Type 0
    Agrees l =
        (l == "mode") ≡ false
        → takes_up (set_option access l v options) ≡ is_registered (entry_of scan_parameters l)

    takes_up_other :
        (l : String)
        → All (λ n. (l == n) ≡ false) names
        → takes_up (set_option access l v options) ≡ false
    takes_up_other l (skip, (moved, (_, (codec, (version, (format, (time, (id, _)))))))) =
        rw (moved, codec, skip, version, format, id, time)

    agrees : (l : String) → Agrees l
    agrees l =
        each Agrees names l
          (
            (λ h. takes_up_read (boolean_get v) _),
            (
              (λ h. takes_up_read (boolean_get v) _),
              (
                (λ h. cc),
                (
                  (λ h. takes_up_read (string_get v) _),
                  (
                    (λ h. takes_up_read (string_get v) _),
                    (
                      (λ h. takes_up_read (string_get v) _),
                      (
                        (λ h. takes_up-set_source options from_timestamp (get_timestamp v)),
                        ((λ h. takes_up-set_source options from_id (get_uint64 v)), tt),
                      ),
                    ),
                  ),
                ),
              ),
            ),
          )
          (λ other h. rw (entry_of_absent l other) (takes_up_other l other))

    module _ (type_of : V → LogicalType) (is_null : V → Bool) (reads : ReadsOwnType type_of is_null)
        (not_null : is_null v ≡ false) (first : options.snapshot_source ≡ latest) where
      abbrev Accepted : String → Type 0
      Accepted l =
          (l == "mode") ≡ false
          → entry_of scan_parameters l ≡ some (type_of v)
          → accepts (set_option access l v options) ≡ true

      accepted : (l : String) → Accepted l
      accepted l =
          each Accepted names l
            (
              (λ h e.
                  accepts_read (boolean_get v) _
                    (reads.reads_boolean v (some-injective e) not_null)),
              (
                (λ h e.
                    accepts_read (boolean_get v) _
                      (reads.reads_boolean v (some-injective e) not_null)),
                (
                  (λ h e. cc),
                  (
                    (λ h e.
                        accepts_read (string_get v) _
                          (reads.reads_string v (some-injective e) not_null)),
                    (
                      (λ h e.
                          accepts_read (string_get v) _
                            (reads.reads_string v (some-injective e) not_null)),
                      (
                        (λ h e.
                            accepts_read (string_get v) _
                              (reads.reads_string v (some-injective e) not_null)),
                        (
                          (λ h e.
                              accepts-set_source options from_timestamp (get_timestamp v) first
                                (reads.reads_timestamp v (some-injective e) not_null)),
                          (
                            (λ h e.
                                accepts-set_source options from_id (get_uint64 v) first
                                  (reads.reads_uint64 v (some-injective e) not_null)),
                            tt,
                          ),
                        ),
                      ),
                    ),
                  ),
                ),
              ),
            )
            (λ other h e. let a = entry_of_absent l other in cc)

module _ (u : StringUtil) where
  open u use {lower}

  -- The names of a list are in lower case.
  abbrev pub InLowerCase : List (String × LogicalType) → Type 0
  InLowerCase = All (λ entry. lower (entry.0) ≡ entry.0)

  last_entry-entry_of :
      (entries : List (String × LogicalType)) (key : String)
      → InLowerCase entries
      → last_entry u entries key ≡ entry_of entries (lower key)
  last_entry-entry_of [] key h = refl
  last_entry-entry_of ((name, type) ∷ entries) key (same, rest) =
      rw (last_entry-entry_of entries key rest, same)

  or_else-none : {V : Type 0} (x : Option V) → or_else x none ≡ x
  or_else-none none = refl
  or_else-none (some v) = refl

  module _ {C V : Type 0} (create_instance : C) (function : TableFunction C)
      (access : ValueAccess V) (options : IcebergOptions) (key : String) (value : V)
      (low : InLowerCase scan_parameters) (not_mode : (lower key == "mode") ≡ false)
      (absent : ci_find u (ci_erase u function.named_parameters "schema") key ≡ none) where
    ci_find-scan_function :
        ci_find u (scan_function u create_instance function).named_parameters key
        ≡ entry_of scan_parameters (lower key)
    unfolding scan_function add_named_parameters
    ci_find-scan_function =
        ci_find-ci_set_all u (ci_erase u function.named_parameters "schema") scan_parameters key
        ∙ ap (or_else (last_entry u scan_parameters key)) absent
        ∙ or_else-none (last_entry u scan_parameters key)
        ∙ last_entry-entry_of scan_parameters key low

    -- Of the parameters that `iceberg_scan` has and `parquet_scan` has not, apart from `mode`, whose
    -- names are in lower case: `ParseOption` takes up a name, however it is spelled and whatever
    -- the value, exactly if a parameter of that name is registered. An exception counts as taking
    -- the name up.
    pub scan_function-parse_option :
        takes_up (parse_option u access key value options)
        ≡ is_registered (ci_find u (scan_function u create_instance function).named_parameters key)
    unfolding parse_option
    scan_function-parse_option =
        rw ci_find-scan_function (agrees access options value (lower key) not_mode)

    -- For a name that `parquet_scan` has no parameter of and that is not `mode`, however it is
    -- spelled, where the names that `iceberg_scan` adds are in lower case: a value that is not null
    -- and is of the type that the name is registered with is accepted by `ParseOption`, with new
    -- options and without an exception, if no snapshot was asked for before and each reader of
    -- values reads those of its own type.
    pub parse_option_registered :
        (type_of : V → LogicalType) (is_null : V → Bool)
        → ReadsOwnType access type_of is_null
        → is_null value ≡ false
        → options.snapshot_source ≡ latest
        → ci_find u (scan_function u create_instance function).named_parameters key
          ≡ some (type_of value)
        → accepts (parse_option u access key value options) ≡ true
    unfolding parse_option
    parse_option_registered type_of is_null reads not_null first registered =
        accepted access options value type_of is_null reads not_null first (lower key) not_mode
          (sym ci_find-scan_function ∙ registered)
