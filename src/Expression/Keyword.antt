-- ===== src/Expression/Keyword.antt =====
-- The special forms of `build_expression`, by the keyword in front, and the value of a literal.
use l.Prelude.{
  ℕ, ◌+◌, ◌*◌, ◌%◌, ◌^◌, [], ◌∷◌, Chars, ◌==◌, if◌then◌else◌, codes, Option, none, some,
}
use l.Interface.{streq}

pub data Form : Type 0 where
  with_form if_form function_form continuation_form literal_form : Form
  invoke_form jump_form storage_form constrain_form meta_form : Form

-- The chain of `strcmp` tests.
unfoldable pub form_of : Chars → Form
unfolding streq
form_of s =
    if streq s (codes "with")
    then with_form
    else if streq s (codes "if")
    then if_form
    else if streq s (codes "function")
    then function_form
    else if streq s (codes "continuation")
    then continuation_form
    else if streq s (codes "literal")
    then literal_form
    else if streq s (codes "invoke")
    then invoke_form
    else if streq s (codes "jump")
    then jump_form
    else if streq s (codes "storage")
    then storage_form
    else if streq s (codes "constrain")
    then constrain_form
    else meta_form

-- The loop over the digits, from the value so far; `none` where a character is no binary digit.
unfoldable pub literal_value : ℕ → Chars → Option ℕ
literal_value value [] = some value
literal_value value (c ∷ cs) =
    let shifted = value * 2 % 2 ^ 64 in
    let one = literal_value (shifted + 1) cs in
    let zero_digit = literal_value shifted cs in
    if c == b'1' then one else if c == b'0' then zero_digit else none
