-- ===== src/SqlPlan/Words/Leads.antt =====
-- A leading keyword phrase, as a relation (`hasPrefixWord` of sqlplan/plan.go).
use nuzur_cli.Base.{◌≡◌, ◌↔◌, true, ◌++◌, length, drop, drop-length_append, &&-true}
use nuzur_cli.SqlPlan.Words.{ends_phrase, has_prefix_word}
use nuzur_cli.Text.Prefix.{has_prefix-append, eq_of_has_prefix}
use nuzur_cli.Text.{Text, has_prefix}

-- The text begins with the phrase, and the phrase ends there.
pub record Leads (phrase norm : Text) : Type 0 where
  pub behind : Text
  pub splits : norm ≡ phrase ++ behind
  pub ends : ends_phrase behind ≡ true

pub has_prefix_word_append :
    (phrase behind : Text) → has_prefix_word (phrase ++ behind) phrase ≡ ends_phrase behind
unfolding has_prefix_word
has_prefix_word_append phrase behind = rw (has_prefix-append, drop-length_append)

-- `hasPrefixWord` holds exactly if the text begins with the phrase and then ends, or goes on with a
-- space, a parenthesis or a quote.
pub has_prefix_word_iff :
    (norm phrase : Text) → (has_prefix_word norm phrase ≡ true) ↔ Leads phrase norm
unfolding has_prefix_word
has_prefix_word_iff norm phrase = (
  λ h.
      let (p, e) = &&-true (has_prefix norm phrase) _ h in
      record {
        behind = drop (length phrase) norm;
        splits = eq_of_has_prefix norm phrase p;
        ends = e;
      },
  λ l. rw l.splits (rw (has_prefix-append, drop-length_append) l.ends),
)
