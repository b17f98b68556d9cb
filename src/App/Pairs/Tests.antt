-- ===== src/App/Pairs/Tests.antt =====
-- Concrete choices of a member, and instances of the theorems about them.
use nuzur_cli.Base.{◌≡◌, refl, ℕ, true, false, List, [], ◌∷◌, some}
use nuzur_cli.Text.{Text, codes, equal, to_lower, trim_func, trim_left, is_space}
use nuzur_cli.App.Pairs.{
  ExtensionPair, conn_mode_local, LastUsedEntry, conflicting, need_prompt, decide_pair_member,
  decide_read, flag_mode, parse_connection_mode, decide_by_name, decide_by_flag, decide_unflagged,
  disagrees, same_mode, infer_mode_from_config, seed_mode_from_last_used, seed_of, value_of,
  mode_for_member, filter_config_to_fields, pair_for_identifier, pair_among, some,
}
use nuzur_cli.App.Pairs.Chosen.{Sound, decide_pair_member-Sound}

abbrev push : ExtensionPair
push = record { front = codes "sql-push"; local = codes "sql-push-local" }

abbrev entries : List (Text × LastUsedEntry ℕ)
entries =
    (
      codes "sql-push-local",
      record { config_values = (codes "local_agent", 1) ∷ []; last_used = 5 },
    )
    ∷ []

decide_pair_member-prompt :
    decide_pair_member push (codes "sql-push") [] [] entries true ≡ need_prompt conn_mode_local
unfolding decide_pair_member decide_read flag_mode decide_by_name decide_by_flag decide_unflagged
    infer_mode_from_config seed_mode_from_last_used seed_of value_of mode_for_member equal
decide_pair_member-prompt = refl

decide_pair_member-conflict :
    decide_pair_member push (codes "sql-push-local") (codes " Direct ") [] entries false
    ≡ conflicting
unfolding decide_pair_member decide_read flag_mode parse_connection_mode decide_by_name disagrees
    same_mode mode_for_member equal to_lower trim_func trim_left is_space
decide_pair_member-conflict = refl

decide_pair_member-Sound_example :
    Sound push
      (flag_mode (codes "agent"))
      false
      (decide_pair_member push (codes "sql-push") (codes "agent") [] entries false)
decide_pair_member-Sound_example =
    decide_pair_member-Sound push (codes "sql-push") (codes "agent") [] entries false

pair_for_identifier-push : pair_for_identifier (codes "sql-push-local") ≡ some push
unfolding pair_for_identifier pair_among mode_for_member equal
pair_for_identifier-push = refl

filter_config_to_fields-agent :
    filter_config_to_fields {V = ℕ}
      ((codes "mode", 1) ∷ (codes "local_agent", 2) ∷ [])
      (codes "mode" ∷ [])
    ≡ ((codes "mode", 1) ∷ [])
unfolding filter_config_to_fields equal
filter_config_to_fields-agent = refl
