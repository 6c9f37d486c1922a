-- ===== src/Middleware/Options.antt =====
-- `_parse_options` of middleware/app.py: the arguments that are no options, if every option is
-- known, given once and has a value that its check accepts.
pub mod Items
pub mod Reads
pub mod Inverse
use open_devops_agent.Prelude.{
  Bool, true, false, ◌&&◌, ◌||◌, not, Option, none, some, List, [], ◌∷◌, ◌++◌, if◌then◌else◌,
}
use open_devops_agent.Text.{Text, codes, text_mem, starts_with, partition_on}
use open_devops_agent.Storage.Memory
use open_devops_agent.Storage.Memory.{Objects}

abbrev pub Check : Type 0
Check = Text → Bool

-- What a round of the loop makes of the token at the index.
pub data Reading : Type 0 where
  positional : Reading
  accepted : Text → Reading
  separate : Text → Check → Reading
  refused : Reading

-- An option that takes a value: after `=`, or the next argument.
abbrev pub read_valued : Text → Bool → Text → Bool → Option Check → Reading
read_valued option separator value seen none = refused
read_valued option separator value true (some validator) = refused
read_valued option true value false (some validator) =
    if validator value then accepted option else refused
read_valued option false value false (some validator) = separate option validator

abbrev pub read_option : List Text → Objects Check → List Text → Text × Bool × Text → Reading
read_option switches value_options seen (option, separator, value) =
    if text_mem option switches && not separator && not (text_mem option seen)
    then accepted option
    else read_valued option separator value (text_mem option seen) (Memory.get option value_options)

unfoldable pub read_token : List Text → Objects Check → List Text → Text → Reading
read_token switches value_options seen token =
    if not (starts_with token (codes "-"))
    then positional
    else read_option switches value_options seen (partition_on b'=' token)

-- The loop, and its step where the value stands in the next argument.
unfoldable mutual
  pub parse_from :
      List Text → Objects Check → List Text → List Text → List Text → Option (List Text)
  parse_from switches value_options seen positionals [] = some positionals
  parse_from switches value_options seen positionals (token ∷ arguments) =
      elim (read_token switches value_options seen token) [
        | positional ↦ parse_from switches value_options seen (positionals ++ token ∷ []) arguments
        | accepted option ↦ parse_from switches value_options (option ∷ seen) positionals arguments
        | separate option validator ↦
            parse_value switches value_options seen positionals option validator arguments
        | refused ↦ none
      ]

  pub parse_value :
      List Text
      → Objects Check
      → List Text
      → List Text
      → Text
      → Check
      → List Text
      → Option (List Text)
  parse_value switches value_options seen positionals option validator [] = none
  parse_value switches value_options seen positionals option validator (value ∷ arguments) =
      elim (validator value) [
        | true ↦ parse_from switches value_options (option ∷ seen) positionals arguments
        | false ↦ none
      ]

unfoldable pub parse_options : List Text → List Text → Objects Check → Option (List Text)
parse_options arguments switches value_options = parse_from switches value_options [] [] arguments
