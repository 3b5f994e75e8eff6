-- ===== src/Utils/Paths.antt =====
-- `GetFullPath` finds the part of a path below the table's folder, whatever folder that was.
use Prim.Native.Char.{Char}
use Prim.Native.String.{[], ◌∷◌}
use text.Mathlib.Text.{starts_with}
use text.Mathlib.TextPositions.{starts_with-append}
use text.Mathlib.TextLemmas.{nil-append, cons-append}
use duckdb_iceberg.Common.{◌≡◌, String, true, some, none, ok, ◌+++◌, rfind_suffix, first_some}
use duckdb_iceberg.Duckdb.{FileSystem}
use duckdb_iceberg.Utils.{get_full_path}

rfind_suffix_cons :
    (needle : String) (c : Char) (s : String) {u : String}
    → rfind_suffix needle s ≡ some u
    → rfind_suffix needle (c ∷ s) ≡ some u
unfolding rfind_suffix
rfind_suffix_cons needle c s h = rw (h, rfind_suffix)

rfind_suffix_head :
    (needle : String) (c : Char) (t : String)
    → rfind_suffix needle t ≡ none
    → starts_with (c ∷ t) needle ≡ true
    → rfind_suffix needle (c ∷ t) ≡ some (c ∷ t)
unfolding rfind_suffix
rfind_suffix_head needle c t h k = rw (h, k, rfind_suffix)

rfind_suffix-append :
    (needle before t : String) {u : String}
    → rfind_suffix needle t ≡ some u
    → rfind_suffix needle (before +++ t) ≡ some u
rfind_suffix-append needle [] t h = rw nil-append h
rfind_suffix-append needle (c ∷ s) t h =
    rw cons-append (rfind_suffix_cons needle c (s +++ t) (rfind_suffix-append needle s t h))

rfind_suffix_split :
    (c : Char) (ns old rest : String)
    → rfind_suffix (c ∷ ns) (ns +++ rest) ≡ none
    → rfind_suffix (c ∷ ns) (old +++ (c ∷ ns) +++ rest) ≡ some (c ∷ (ns +++ rest))
rfind_suffix_split c ns old rest h =
    let begins = rw cons-append at (starts_with-append (c ∷ ns) rest) in
    rfind_suffix-append (c ∷ ns) old _ (rw cons-append (rfind_suffix_head (c ∷ ns) c _ h begins))

-- A path into the metadata folder of a table is resolved against the folder given, whatever
-- folder `old` the table was in when the path was written, if no "/metadata/" follows in `rest`.
pub get_full_path_metadata :
    (fs : FileSystem) (root old rest : String)
    → rfind_suffix "/metadata/" ("metadata/" +++ rest) ≡ none
    → get_full_path fs root (old +++ "/metadata/" +++ rest)
      ≡ ok (fs.join_path root ("metadata/" +++ rest))
unfolding get_full_path
get_full_path_metadata fs root old rest h =
    rw (rfind_suffix_split "/" "metadata/" old rest h, first_some)

-- So is a path into its data folder, if the whole path holds no "/metadata/" and no "/data/"
-- follows in `rest`.
pub get_full_path_data :
    (fs : FileSystem) (root old rest : String)
    → rfind_suffix "/metadata/" (old +++ "/data/" +++ rest) ≡ none
    → rfind_suffix "/data/" ("data/" +++ rest) ≡ none
    → get_full_path fs root (old +++ "/data/" +++ rest) ≡ ok (fs.join_path root ("data/" +++ rest))
unfolding get_full_path
get_full_path_data fs root old rest n h =
    rw (n, rfind_suffix_split "/" "data/" old rest h, first_some)
