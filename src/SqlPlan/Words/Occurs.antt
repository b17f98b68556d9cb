-- ===== src/SqlPlan/Words/Occurs.antt =====
-- The search of `containsWord` (sqlplan/plan.go), and a look at every position.
use mathlib.Core.Option
use nuzur_cli.Base.{
  sym, if◌then◌else◌, ℕ, zero, suc, ◌+◌, ◌<◌, ◌≡◌, Bool, true, false, ◌&&◌, ◌||◌, Option, none,
  some, [], ◌∷◌, arith, refl, ap, ◌∙◌, length, drop, Bool-cases, inl, inr, Option-cases,
}
use nuzur_cli.SqlPlan.Words.{is_edge, first, char_before, contains_from, contains_word}
use nuzur_cli.Text.{Text, has_prefix, index}

-- The phrase stands at the front, between edges.
abbrev pub stands_at : Option ℕ → Text → Text → Bool
stands_at prev phrase rest =
    is_edge prev && (has_prefix rest phrase && is_edge (first (drop (length phrase) rest)))

-- It stands somewhere in a text that `prev` precedes.
unfoldable pub occurs : Option ℕ → Text → Text → Bool
unfolding has_prefix
occurs prev phrase [] = stands_at prev phrase []
occurs prev phrase (c ∷ s) = stands_at prev phrase (c ∷ s) || occurs (some c) phrase s

-- What the loop makes of the position that it is given.
abbrev found : ℕ → Option ℕ → Text → Text → Option ℕ → Bool
found fuel prev rest phrase none = false
found fuel prev rest phrase (some n) =
    if is_edge (char_before prev n rest) && is_edge (first (drop (n + length phrase) rest))
    then true
    else contains_from fuel (first (drop n rest)) (drop (n + 1) rest) phrase

drop_next : (k n c : ℕ) (s : Text) → k ≡ suc n → drop k (c ∷ s) ≡ drop n s
drop_next k n c s e = rw e refl

drop-suc_add : (n m c : ℕ) (s : Text) → drop (suc n + m) (c ∷ s) ≡ drop (n + m) s
drop-suc_add n m c s = drop_next (suc n + m) (n + m) c s (omega arith)

zero_plus : (n : ℕ) → 0 + n ≡ n
zero_plus n = omega arith

char_before_suc : (n c : ℕ) (s : Text) → char_before (some c) n s ≡ first (drop n (c ∷ s))
char_before_suc zero c s = refl
char_before_suc (suc n) c s = refl

contains_from-found :
    (fuel : ℕ) (prev : Option ℕ) (rest phrase : Text)
    → contains_from (suc fuel) prev rest phrase ≡ found fuel prev rest phrase (index rest phrase)
unfolding contains_from
contains_from-found fuel prev rest phrase = elim (Option-cases (index rest phrase)) [
  | inl e ↦ rw (contains_from, e) refl
  | inr (n, e) ↦ rw (contains_from, e) refl
]

index_hit :
    (c : ℕ) (s phrase : Text) → has_prefix (c ∷ s) phrase ≡ true → index (c ∷ s) phrase ≡ some 0
unfolding index
index_hit c s phrase h = rw h refl

index_miss :
    (c : ℕ) (s phrase : Text)
    → has_prefix (c ∷ s) phrase ≡ false
    → index (c ∷ s) phrase ≡ Option.map suc (index s phrase)
unfolding index
index_miss c s phrase h = rw h refl

hit_tests : (b a r : Bool) → (if b && a then true else r) ≡ ((b && (true && a)) || r)
hit_tests b a r = ground arith

module _ (p : ℕ) (ps : Text) where
  shifted :
      (fuel : ℕ) (prev : Option ℕ) (c : ℕ) (s : Text) (o : Option ℕ)
      → found fuel prev (c ∷ s) (p ∷ ps) (Option.map suc o) ≡ found fuel (some c) s (p ∷ ps) o
  shifted fuel prev c s none = refl
  shifted fuel prev c s (some n) =
      rw (char_before_suc n c s, drop-suc_add n (suc (length ps)) c s, drop-suc_add n 1 c s) refl

  contains_from_nil : (fuel : ℕ) (prev : Option ℕ) → contains_from fuel prev [] (p ∷ ps) ≡ false
  unfolding contains_from index has_prefix
  contains_from_nil zero prev = refl
  contains_from_nil (suc fuel) prev = refl

  contains_from_hit :
      (fuel : ℕ) (prev : Option ℕ) (c : ℕ) (s : Text)
      → has_prefix (c ∷ s) (p ∷ ps) ≡ true
      → contains_from (suc fuel) prev (c ∷ s) (p ∷ ps)
        ≡ (stands_at prev (p ∷ ps) (c ∷ s) || contains_from fuel (some c) s (p ∷ ps))
  unfolding contains_from
  contains_from_hit fuel prev c s h =
      contains_from-found fuel prev (c ∷ s) (p ∷ ps)
      ∙ ap (found fuel prev (c ∷ s) (p ∷ ps)) (index_hit c s (p ∷ ps) h)
      ∙ ap
          (λ (n : ℕ).
            if is_edge prev && is_edge (first (drop n (c ∷ s)))
            then true
            else contains_from fuel (some c) s (p ∷ ps))
          (zero_plus (length (p ∷ ps)))
      ∙ hit_tests (is_edge prev) _ _
      ∙ ap
          (λ b.
            (is_edge prev && (b && is_edge (first (drop (length (p ∷ ps)) (c ∷ s)))))
            || contains_from fuel (some c) s (p ∷ ps))
          (sym h)

  contains_from_miss :
      (fuel : ℕ) (prev : Option ℕ) (c : ℕ) (s : Text)
      → has_prefix (c ∷ s) (p ∷ ps) ≡ false
      → contains_from (suc fuel) prev (c ∷ s) (p ∷ ps)
        ≡ contains_from (suc fuel) (some c) s (p ∷ ps)
  unfolding contains_from
  contains_from_miss fuel prev c s h =
      contains_from-found fuel prev (c ∷ s) (p ∷ ps)
      ∙ ap (found fuel prev (c ∷ s) (p ∷ ps)) (index_miss c s (p ∷ ps) h)
      ∙ shifted fuel prev c s (index s (p ∷ ps))
      ∙ sym (contains_from-found fuel (some c) s (p ∷ ps))

  contains_from-occurs :
      (s : Text) (fuel : ℕ) (prev : Option ℕ)
      → length s < fuel
      → contains_from fuel prev s (p ∷ ps) ≡ occurs prev (p ∷ ps) s
  unfolding occurs has_prefix
  contains_from-occurs [] fuel prev h = contains_from_nil fuel prev ∙ ground arith
  contains_from-occurs (c ∷ s) zero prev h = absurd (omega arith)
  contains_from-occurs (c ∷ s) (suc fuel) prev h = elim (Bool-cases (has_prefix (c ∷ s) (p ∷ ps))) [
    | inl hit ↦
        contains_from_hit fuel prev c s hit
        ∙ ap (λ b. stands_at prev (p ∷ ps) (c ∷ s) || b)
            (contains_from-occurs s fuel (some c) (omega arith))
    | inr miss ↦
        contains_from_miss fuel prev c s miss
        ∙ contains_from-occurs s (suc fuel) (some c) (omega arith)
        ∙ ground arith
  ]

-- For a phrase that is not empty, the search is true exactly if the phrase stands at some position of
-- the text between spaces or ends.
pub contains_word-occurs :
    (norm : Text) (p : ℕ) (ps : Text) → contains_word norm (p ∷ ps) ≡ occurs none (p ∷ ps) norm
unfolding contains_word
contains_word-occurs norm p ps = contains_from-occurs p ps norm (length norm + 1) none (omega arith)
