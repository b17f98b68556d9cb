-- ===== src/ExtensionRun/Archive/Slip.antt =====
-- Which names of entries the check of the paths lets through, and where they lead.
use nuzur_cli.Base.{
  ◌≡◌, refl, sym, ap, ◌∙◌, Bool, true, false, not, ◌||◌, List, [], ◌∷◌, ◌++◌, none, some, All,
  select, is_nil, if◌then◌else◌, append_assoc, append-nil, Bool-cases, inl, inr,
}
use nuzur_cli.Text.{Text, codes, equal, has_prefix, split_on}
use nuzur_cli.Text.Prefix.{has_prefix-append}
use nuzur_cli.ExtensionRun.Archive.{
  FilePath, pop_segment, join_path, show_path, abs_path, sanitize_zip_path,
}

show_path-append : (p q : FilePath) → show_path (p ++ q) ≡ show_path p ++ show_path q
unfolding show_path
show_path-append [] q = refl
show_path-append (s ∷ p) q =
    ap (λ t. b'/' ∷ t)
      (ap (λ t. s ++ t) (show_path-append p q) ∙ sym (append_assoc s (show_path p) (show_path q)))

pop_segment-append : (b : FilePath) (d : Text) → pop_segment (b ++ d ∷ []) ≡ b
unfolding pop_segment
pop_segment-append [] d = refl
pop_segment-append (s ∷ []) d = refl
pop_segment-append (s ∷ t ∷ b) d = ap (λ p. s ∷ p) (pop_segment-append (t ∷ b) d)

abs_path-last :
    (b : FilePath) (d : Text) → abs_path (b ++ d ∷ []) ≡ show_path b ++ show_path (d ∷ [])
unfolding abs_path
abs_path-last [] d = refl
abs_path-last (s ∷ b) d = show_path-append (s ∷ b) (d ∷ [])

-- The segments that a path keeps.
abbrev pub is_kept : Text → Bool
is_kept s = not (is_nil s || equal s (codes "."))

join_path-kept :
    (base : FilePath) (ss : List Text)
    → All (λ s. equal s (codes "..") ≡ false) ss
    → join_path base ss ≡ base ++ select is_kept ss
unfolding join_path
join_path-kept base [] h = sym (append-nil base)
join_path-kept base (s ∷ ss) h = elim (Bool-cases (is_nil s || equal s (codes "."))) [
  | inl blank ↦ rw blank (join_path-kept base ss h.1)
  | inr there ↦
      rw (there, h.0)
        (join_path-kept (base ++ s ∷ []) ss h.1 ∙ append_assoc base (s ∷ []) (select is_kept ss))
]

abs_path-prefix :
    (base rest : FilePath) → has_prefix (abs_path (base ++ rest)) (abs_path base) ≡ true
unfolding abs_path show_path has_prefix
abs_path-prefix [] [] = refl
abs_path-prefix [] (s ∷ rest) = refl
abs_path-prefix (s ∷ base) rest =
    ap (λ t. has_prefix t (show_path (s ∷ base))) (show_path-append (s ∷ base) rest)
    ∙ has_prefix-append (show_path (s ∷ base)) (show_path rest)

accepted :
    (base dest p : FilePath)
    → dest ≡ p
    → has_prefix (abs_path p) (abs_path base) ≡ true
    → (if has_prefix (abs_path dest) (abs_path base) then some dest else none) ≡ some p
accepted base dest p e h =
    ap (λ d. if has_prefix (abs_path d) (abs_path base) then some d else none) e
    ∙ ap (λ b. if b then some p else none) h

longer_text :
    (x dir more : Text) → x ++ b'/' ∷ ((dir ++ more) ++ []) ≡ (x ++ b'/' ∷ (dir ++ [])) ++ more
longer_text x dir more =
    rw (append-nil (dir ++ more), append-nil dir) (sym (append_assoc x (b'/' ∷ dir) more))

longer_last :
    (parent : FilePath) (dir more : Text)
    → has_prefix (abs_path (parent ++ (dir ++ more) ∷ [])) (abs_path (parent ++ dir ∷ [])) ≡ true
unfolding show_path
longer_last parent dir more =
    rw (abs_path-last parent (dir ++ more), abs_path-last parent dir)
      (ap (λ t. has_prefix t (show_path parent ++ show_path (dir ∷ [])))
          (longer_text (show_path parent) dir more)
        ∙ has_prefix-append (show_path parent ++ show_path (dir ∷ [])) more)

-- A name without the segment `..` is accepted, and leads to its segments below the directory.
pub sanitize_zip_path-below :
    (base : FilePath) (name : Text)
    → All (λ s. equal s (codes "..") ≡ false) (split_on b'/' name)
    → sanitize_zip_path base name ≡ some (base ++ select is_kept (split_on b'/' name))
unfolding sanitize_zip_path
sanitize_zip_path-below base name h =
    accepted base (join_path base (split_on b'/' name))
      (base ++ select is_kept (split_on b'/' name)) (join_path-kept base (split_on b'/' name) h)
      (abs_path-prefix base (select is_kept (split_on b'/' name)))

-- The name `../` followed by a longer name that begins with the directory's own is accepted too, for every directory but the root, and leads beside the directory: the name must have no slash and be neither empty, `.` nor `..`.
pub sanitize_zip_path-beside :
    (parent : FilePath) (dir more : Text)
    → split_on b'/' (dir ++ more) ≡ (dir ++ more) ∷ []
    → is_kept (dir ++ more) ≡ true
    → equal (dir ++ more) (codes "..") ≡ false
    → sanitize_zip_path (parent ++ dir ∷ []) (codes "../" ++ (dir ++ more))
      ≡ some (parent ++ (dir ++ more) ∷ [])
unfolding sanitize_zip_path join_path split_on equal
sanitize_zip_path-beside parent dir more one kept up =
    let name = dir ++ more in
    accepted (parent ++ dir ∷ [])
      (join_path (pop_segment (parent ++ dir ∷ [])) (split_on b'/' name)) (parent ++ name ∷ [])
      (ap (λ p. join_path p (split_on b'/' name)) (pop_segment-append parent dir)
        ∙ (ap (join_path parent) one
            ∙ (join_path-kept parent (name ∷ []) (up, tt)
                ∙ ap (λ b. parent ++ (if b then name ∷ [] else [])) kept)))
      (longer_last parent dir more)
