-- ===== src/FieldFile/Key/Stored.antt =====
-- What a record keeps of a signed URL (fieldfile/key.go).
use nuzur_cli.Base.{
  ◌≡◌, ◌==◌, false, [], ◌∷◌, ◌++◌, All, arith, refl, length, some, take-length_append,
}
use nuzur_cli.Text.{Text, index_any}
use nuzur_cli.FieldFile.Key.{record_value}

index_any-append :
    (url query : Text)
    → All (λ c. (c == b'?') ≡ false) url
    → index_any (λ c. c == b'?') (url ++ (b'?' ∷ query)) ≡ some (length url)
unfolding index_any
index_any-append [] query h = refl
index_any-append (c ∷ url) query h = ground (arith, index_any-append url query h.1)

-- Of a URL without a question mark, followed by one and a query, the record keeps the URL.
pub record_value-append :
    (url query : Text)
    → All (λ c. (c == b'?') ≡ false) url
    → record_value (url ++ (b'?' ∷ query)) ≡ url
unfolding record_value
record_value-append url query h =
    rw (index_any-append url query h) (take-length_append url (b'?' ∷ query))
