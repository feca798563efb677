-- ===== src/Helm/Archive.antt =====
-- pkg/helm/repository/repository.go: the loop of `ParseReadmeValues` over the archive of a chart.
pub mod Scan
use Prim.Native.String.{◌++◌ as append}
use text.Mathlib.Text.{starts_with}
use cluster_api_provider_vcl.Base.{
  ℕ, String, Bool, true, false, not, ◌&&◌, ◌||◌, Option, none, some, List, [], ◌∷◌, ◌==◌,
}
use cluster_api_provider_vcl.Base.Tests.{if◌then◌else◌, nat_eq}
use cluster_api_provider_vcl.Base.Decimal.{decimal}
use cluster_api_provider_vcl.Base.Slashes.{
  split_slashes, trim_suffix, trim_prefix, trim_right, drop_first,
}
use cluster_api_provider_vcl.Runtime.{
  Error, Result, ok, err, Exec, errorf, pure, lift, ◌>>=◌, ◌>>◌, wrapped, wrap_result, wrap_error,
}
use cluster_api_provider_vcl.Helm.Metadata.{Metadata, Chart}

-- `tar.Header`
pub record Header : Type 0 where
  pub typeflag : ℕ
  pub name : String

-- What a tar reader yields: headers with what a copy of the file gives, up to the end or to an
-- error of `Next`.
pub data Archive : Type 0 where
  end : Archive
  broken : Error → Archive
  member : Header → Result String → Archive → Archive

abbrev pub type_reg : ℕ
type_reg = b'0'

abbrev pub type_dir : ℕ
type_dir = b'5'

-- The file of a name at the top, or in a directory at the top.
unfoldable pub is_named : (file : String) → List String → Bool
is_named file [] = false
is_named file (p ∷ []) = p == file
is_named file (p ∷ q ∷ rest) = (p == file) || (q == file)

unfoldable pub unknown_type : Header → Error
unfolding decimal
unknown_type h =
    errorf (append "extract: uknown type: " (append (decimal h.typeflag) (append " in " h.name)))

-- What is done with the text of the README and of the values: the loop ends where the other one
-- has a text.
unfoldable pub take_readme :
    (again : (readme values : String) → Result (String × String)) (values : String)
    → Result String
    → Result (String × String)
take_readme again values (err e) =
    err (errorf (append "extract: error reading README.md: " e.message))
take_readme again values (ok text) =
    if not (values == "") then ok (text, values) else again text values

unfoldable pub take_values :
    (again : (readme values : String) → Result (String × String)) (readme : String)
    → Result String
    → Result (String × String)
take_values again readme (err e) =
    err (errorf (append "extract: error reading values.yaml: " e.message))
take_values again readme (ok text) =
    if not (readme == "") then ok (readme, text) else again readme text

unfoldable pub discard :
    (again : (readme values : String) → Result (String × String)) (readme values : String)
    → Result String
    → Result (String × String)
discard again readme values (err e) = err (errorf (append "extract: Copy() failed: " e.message))
discard again readme values (ok text) = again readme values

-- The loop over the archive, from the texts so far.
unfoldable pub read_archive : Archive → (readme values : String) → Result (String × String)
unfolding is_named take_readme take_values discard unknown_type
read_archive end readme values = ok (readme, values)
read_archive (broken e) readme values = err (errorf (append "extract: Next() failed: " e.message))
read_archive (member h text rest) readme values =
    let again = read_archive rest in
    if nat_eq h.typeflag type_dir
    then again readme values
    else if nat_eq h.typeflag type_reg
    then (if is_named "README.md" (split_slashes h.name)
        then take_readme again values text
        else if is_named "values.yaml" (split_slashes h.name)
        then take_values again readme text
        else discard again readme values text)
    else err (unknown_type h)
