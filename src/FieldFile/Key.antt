-- ===== src/FieldFile/Key.antt =====
-- fieldfile/key.go, and `NormalizeKey` of fieldfile/name.go: the key of an object, and the value that
-- a record keeps of its signed URL.
pub mod Segments
pub mod Stored
use nuzur_cli.Base.{
  ℕ, Bool, not, List, [], ◌∷◌, ◌++◌, Option, none, some, ◌==◌, select, is_nil, take, if◌then◌else◌,
  ℕ,
}
use nuzur_cli.Text.{Text, codes, split_on, join, index_any}

abbrev pub is_segment : Text → Bool
is_segment p = not (is_nil p)

unfoldable pub normalize_key : Text → Text
unfolding split_on join
normalize_key key = join (select is_segment (split_on b'/' key)) (codes "/")

-- `ObjectKey`, with whether the field uses the object store, and the path that is configured.
unfoldable pub object_key : Bool → Text → Text → Text
unfolding normalize_key
object_key uses_object_store path file_name =
    if uses_object_store then normalize_key (path ++ (codes "/" ++ file_name)) else []

abbrev pub cut_at : Text → Option ℕ → Text
cut_at url none = url
cut_at url (some q) = take q url

unfoldable pub record_value : Text → Text
unfolding index_any
record_value signed_url = cut_at signed_url (index_any (λ c. c == b'?') signed_url)
