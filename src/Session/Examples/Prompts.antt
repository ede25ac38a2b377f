-- ===== src/Session/Examples/Prompts.antt =====
-- Answers to a permission prompt, and the name of a new buffer.
use drei.Base.{
  arith, ℕ, ◌≡◌, refl, Str, codes, Bool, true, false, not, List, [], ◌∷◌, Option, none, some,
  Result, ok, raise, lookup, Returns, Returns-ok, ◌>>=◌, contains, ◌≢◌, Assoc, pos,
}
use drei.Acp.Json.{JsonValue, str, arr, obj, cons, nil, field, end}
use drei.Acp.Effects.{PermissionRequested, selected, number}
use drei.Session.Names.{unique_name}
use drei.Session.Names.Fresh.{unique_name-unused}
use drei.Session.Choice.{choice_options, choice_key_to_decision}
use drei.Session.Choice.Consent.{kinds_of, IsOffered, choice_key-IsOffered}

-- A tool call that asks for a permission, with an option that allows it and one that rejects it.
abbrev permission_option : Str → Str → JsonValue
permission_option option_id kind =
    obj (field (codes "optionId") (str option_id) (field (codes "kind") (str kind) end))

abbrev request : PermissionRequested
request = record {
  request_id = number (pos 1);
  params = obj (
      field (codes "options")
        (arr (
          cons (permission_option (codes "yes") (codes "allow_once"))
            (cons (permission_option (codes "no") (codes "reject_once")) nil)))
        end);
}

y_selects : choice_key_to_decision request b'y' ≡ ok (some (selected (codes "yes")))
unfolding choice_key_to_decision drei.Acp.Json.as_list drei.Acp.Json.get drei.Acp.Json.as_dict
    drei.Base.str_eq drei.Acp.Json.as_str
y_selects = refl

n_selects : choice_key_to_decision request b'n' ≡ ok (some (selected (codes "no")))
unfolding choice_key_to_decision drei.Acp.Json.as_list drei.Acp.Json.get drei.Acp.Json.as_dict
    drei.Base.str_eq drei.Acp.Json.as_str
n_selects = refl

choice_key-IsOffered_example : IsOffered (kinds_of b'n') (codes "no") (choice_options request)
choice_key-IsOffered_example = choice_key-IsOffered request b'n' (codes "no") n_selects

abbrev names : Assoc ℕ
names = (codes "notes", 0) ∷ (codes "notes<2>", 1) ∷ []

third_name : unique_name (codes "notes") names ≡ some (codes "notes<3>")
unfolding unique_name contains drei.Base.str_eq drei.Base.show_nat
third_name = refl

unique_name-unused_example :
    (found : Str) × (unique_name (codes "notes") names ≡ some found)
    × (contains found names ≡ false)
    × (found ≢ [])
unique_name-unused_example = unique_name-unused (codes "notes") names (λ e. cc)
