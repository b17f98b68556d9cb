-- ===== src/App/Targeting/LastRun.antt =====
-- When the sentence about the last run is empty.
use nuzur_cli.Base.{
  ℕ, ◌≤◌, ◌≡◌, refl, ◌↔◌, ◌⊎◌, inl, inr, Bool, true, false, [], ◌∷◌, some, is_nil, arith, leb, ◌&&◌,
  if◌then◌else◌,
}
use nuzur_cli.Deploy.{Deployment, step_rank, step_finalized}
use nuzur_cli.Text.{Text, trim_space}
use nuzur_cli.App.Targeting.{died_after, run_fact, last_run_fact, end_sentence, first_line}

is_nil-died_after : (step error : Text) → is_nil (died_after step error) ≡ false
unfolding died_after
is_nil-died_after [] error = refl
is_nil-died_after (c ∷ step) [] = refl
is_nil-died_after (c ∷ step) (e ∷ error) = refl

silent :
    (a b c : Bool) (t : Text)
    → is_nil t ≡ false
    → (is_nil (if a && b then [] else if b && c then [] else t) ≡ true)
      ↔ ((b ≡ true) × ((a ≡ true) ⊎ (c ≡ true)))
silent true true c t h = (λ _. (refl, inl refl), λ _. refl)
silent true false c t h = (λ e. ground (arith, h, e), λ e. ground (arith, e))
silent false true true t h = (λ _. (refl, inr refl), λ _. refl)
silent false true false t h = (λ e. ground (arith, h, e), λ e. ground (arith, e))
silent false false c t h = (λ e. ground (arith, h, e), λ e. ground (arith, e))

leb_iff : (m n : ℕ) → (leb m n ≡ true) ↔ (m ≤ n)
leb_iff m n = ground arith

-- The sentence about the last run of a record is empty exactly if the record has no error, blanks aside, and its step is missing, blanks aside, or ranks as high as `finalized`.
pub last_run_fact_iff :
    (r : Deployment)
    → (is_nil (last_run_fact (some r)) ≡ true) ↔ (
        (is_nil (trim_space r.last_error) ≡ true)
        × ((is_nil (trim_space r.last_completed_step) ≡ true)
            ⊎ (step_rank step_finalized ≤ step_rank (trim_space r.last_completed_step))))
unfolding last_run_fact run_fact
last_run_fact_iff r =
    let step = trim_space r.last_completed_step in
    let error = trim_space r.last_error in
    let said = is_nil-died_after step (end_sentence (first_line error)) in
    let both =
      silent (is_nil step) (is_nil error) (leb (step_rank step_finalized) (step_rank step))
        (died_after step (end_sentence (first_line error))) said in
    let rank = leb_iff (step_rank step_finalized) (step_rank step) in
    (
      λ h. ((both.0 h).0, elim (both.0 h).1 [ inl x ↦ inl x | inr x ↦ inr (rank.0 x) ]),
      λ h. both.1 (h.0, elim h.1 [ inl x ↦ inl x | inr x ↦ inr (rank.1 x) ]),
    )
