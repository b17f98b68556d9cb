-- ===== src/App/Args.antt =====
-- app/command_args.go: the error for positional arguments that a command does not take. How fmt quotes
-- a text is an argument of the model, and no error is an empty text.
pub mod Before
use nuzur_cli.Base.{
  ℕ, Bool, true, false, not, ◌&&◌, ◌||◌, List, [], ◌∷◌, ◌++◌, if◌then◌else◌, is_nil, length, leb,
  select, map, ◌==◌,
}
use nuzur_cli.Text.{Text, codes, equal, has_prefix, to_lower, join}
use nuzur_cli.Text.Decimal.{show}

abbrev is_one_of : Text → List Text → Bool
is_one_of t [] = false
is_one_of t (u ∷ us) = equal t u || is_one_of t us

unfoldable pub is_bool_flag_value : Text → Bool
unfolding equal
is_bool_flag_value v =
    is_one_of v (codes "true" ∷ codes "false" ∷ codes "1" ∷ codes "0" ∷ codes "t" ∷ codes "f" ∷ [])

-- A leftover that was meant to be a flag.
unfoldable pub is_flag_like : Text → Bool
unfolding has_prefix equal
is_flag_like a = has_prefix a (codes "-") && not (equal a (codes "-"))

unfoldable pub flags_among : List Text → List Text
unfolding is_flag_like
flags_among args = select is_flag_like args

-- `strings.Contains a "="`
unfoldable pub has_equals : Text → Bool
has_equals [] = false
has_equals (c ∷ s) = c == b'=' || has_equals s

-- The flag before the value: it begins with a dash and has no value of its own.
unfoldable pub is_bare_flag : Text → Bool
unfolding has_prefix has_equals
is_bare_flag a = has_prefix a (codes "-") && not (has_equals a)

-- From an argument, through those behind it.
unfoldable pub flag_from : Text → Text → List Text → Text
unfolding equal is_bare_flag
flag_from value prev [] = []
flag_from value prev (a ∷ argv) =
    let rest = flag_from value a argv in if equal a value && is_bare_flag prev then prev else rest

unfoldable pub flag_before : Text → List Text → Text
unfolding flag_from
flag_before value [] = []
flag_before value (program ∷ argv) = flag_from value program argv

module _ (quote : Text → Text) where
  unfoldable pub quoted_list : List Text → Text
  unfolding join
  quoted_list args = join (map quote args) (codes ", ")

  unfoldable pub hint_for : Text → Text → Text
  hint_for value [] =
      quote value
      ++ (codes
            " looks like the value of a boolean flag. Boolean flags only take a value in the `=` form — `--flag="
          ++ (value ++ (codes "`, never `--flag " ++ (value ++ codes "`."))))
  hint_for value (c ∷ flag) =
      let f = c ∷ flag in
      codes "Did you mean `"
      ++ (f
          ++ (b'='
              ∷ (value
                  ++ (codes "`? Boolean flags need the `=` form: `"
                      ++ (f
                          ++ (b' '
                              ∷ (value
                                  ++ (codes "` sets "
                                      ++ (f
                                          ++ (codes " to TRUE and leaves "
                                              ++ (quote value
                                                  ++ codes
                                                      " behind as a positional argument.")))))))))))

  unfoldable pub bool_flag_hint : Text → List Text → Text
  unfolding is_bool_flag_value hint_for flag_before
  bool_flag_hint value argv =
      if not (is_bool_flag_value (to_lower value))
      then []
      else hint_for value (flag_before value argv)

  -- What is said of the flags behind the first argument.
  unfoldable pub dropped_flags : List Text → Text
  unfolding quoted_list
  dropped_flags [] = codes ", so any flag after it would not have been applied."
  dropped_flags (f ∷ fs) =
      codes ", so these were NOT applied: " ++ (quoted_list (f ∷ fs) ++ codes ".")

  unfoldable pub stray_args_error : Text → Text → List Text → List Text → Text
  unfolding quoted_list bool_flag_hint dropped_flags flags_among show
  stray_args_error command takes [] argv = []
  stray_args_error command takes (first ∷ stray) argv =
      let hint = bool_flag_hint first argv in
      codes "`nuzur-cli "
      ++ (command
          ++ (codes "` "
              ++ (takes
                  ++ (codes ", but got "
                      ++ (show (length (first ∷ stray))
                          ++ (codes " — "
                              ++ (quoted_list (first ∷ stray)
                                  ++ (codes "."
                                      ++ ((if is_nil hint then [] else b'\n' ∷ hint)
                                          ++ (codes
                                                "\nFlag parsing stops at the first positional argument"
                                              ++ dropped_flags (flags_among stray)))))))))))

  unfoldable pub require_no_args : Text → List Text → List Text → Text
  unfolding stray_args_error
  require_no_args command args argv =
      stray_args_error command (codes "takes no positional arguments") args argv

  unfoldable pub require_one_arg : Text → Text → List Text → List Text → Text
  unfolding stray_args_error
  require_one_arg command arg_name args argv =
      if leb (length args) 1
      then []
      else stray_args_error command
          (codes "takes exactly one positional argument (" ++ (arg_name ++ codes ")")) args argv
