-- ===== src/Acp/Format.antt =====
-- The formatting helpers of acp/transcript.py, total over malformed payloads.
use drei.Base.{
  Str, codes, str_eq, show_nat, is_empty, ℕ, ◌+◌, suc, ℤ, pos, negsuc, Bool, true, false, ◌||◌, not,
  List, [], ◌∷◌, ◌++◌, Option, none, some, ◌==◌, if◌then◌else◌,
}
use drei.Acp.Json.{
  JsonValue, null, bool, int, float, str, arr, obj, nil, cons, end, field, get, as_str, as_dict,
  as_list,
}

-- str(n) for a Python int.
unfoldable pub show_int : ℤ → Str
show_int (pos n) = show_nat n
show_int (negsuc n) = codes "-" ++ show_nat (suc n)

-- `_as_str(value) or _MISSING`: an empty text is missing too.
unfoldable pub or_missing : Option Str → Str
or_missing none = codes "?"
or_missing (some s) = if is_empty s then codes "?" else s

-- `_as_str(value) or other`
unfoldable pub first_text : Option Str → Option Str → Option Str
first_text none other = other
first_text (some s) other = if is_empty s then other else some s

unfoldable pub line_number : JsonValue → ℤ
line_number (int n) = n
line_number _ = pos 1

unfoldable pub join : List Str → Str
join [] = []
join (s ∷ ss) = s ++ join ss

-- ", ".join(parts)
unfoldable pub join_comma : List Str → Str
join_comma [] = []
join_comma (s ∷ []) = s
join_comma (s ∷ t ∷ ss) = s ++ codes ", " ++ join_comma (t ∷ ss)

unfoldable pub format_location : JsonValue → Str
unfolding or_missing line_number show_int
format_location entry =
    let loc = as_dict entry in
    codes "  "
    ++ (or_missing (as_str (get loc (codes "path")))
        ++ (codes ":" ++ (show_int (line_number (get loc (codes "line"))) ++ codes "\n")))

unfoldable pub format_locations_list : List JsonValue → Str
unfolding format_location
format_locations_list [] = []
format_locations_list (entry ∷ rest) = format_location entry ++ format_locations_list rest

unfoldable pub format_locations : JsonValue → Str
unfolding format_locations_list
format_locations locations = format_locations_list (as_list locations)

-- `block.get("type") == "diff"`
unfoldable pub is_diff : JsonValue → Bool
is_diff item = elim (as_str (get (as_dict item) (codes "type"))) [
  | none ↦ false
  | some t ↦ str_eq t (codes "diff")
]

unfoldable pub format_diff : JsonValue → Str
unfolding or_missing
format_diff item =
    let block = as_dict item in
    codes "  ── diff "
    ++ (or_missing (as_str (get block (codes "path")))
        ++ (codes " ──\n  - "
            ++ (or_missing (as_str (get block (codes "oldText")))
                ++ (codes "\n  + "
                    ++ (or_missing (as_str (get block (codes "newText"))) ++ codes "\n")))))

unfoldable pub format_diffs_list : List JsonValue → Str
unfolding is_diff format_diff
format_diffs_list [] = []
format_diffs_list (item ∷ rest) =
    (if is_diff item then format_diff item else []) ++ format_diffs_list rest

unfoldable pub format_diffs : JsonValue → Str
unfolding format_diffs_list
format_diffs content = format_diffs_list (as_list content)

unfoldable pub format_tool_call_started : JsonValue → Str
unfolding or_missing first_text format_locations format_diffs
format_tool_call_started update =
    let call = as_dict update in
    codes "\n[tool:"
    ++ (or_missing (as_str (get call (codes "kind")))
        ++ (codes "] "
            ++ (or_missing (
                  first_text (as_str (get call (codes "title")))
                    (as_str (get call (codes "toolCallId"))))
                ++ (codes " ("
                    ++ (or_missing (as_str (get call (codes "status")))
                        ++ (codes ")\n"
                            ++ (format_locations (get call (codes "locations"))
                                ++ format_diffs (get call (codes "content")))))))))

-- Python's truth value of a JSON value.
unfoldable pub truthy : JsonValue → Bool
truthy null = false
truthy (bool b) = b
truthy (int (pos n)) = not (n == 0)
truthy (int (negsuc n)) = true
truthy (float nonzero s) = nonzero
truthy (str s) = not (is_empty s)
truthy (arr nil) = false
truthy (arr (cons v vs)) = true
truthy (obj end) = false
truthy (obj (field k v fs)) = true

unfoldable pub any_diff : List JsonValue → Bool
unfolding is_diff
any_diff [] = false
any_diff (item ∷ rest) = is_diff item || any_diff rest

unfoldable pub named_part : Str → Option Str → List Str
named_part label none = []
named_part label (some value) = (label ++ value) ∷ []

unfoldable pub format_tool_call_updated : JsonValue → Str
unfolding or_missing named_part truthy any_diff join_comma format_locations format_diffs
format_tool_call_updated update =
    let call = as_dict update in
    let parts : List Str =
      named_part (codes "title=") (as_str (get call (codes "title")))
      ++ (named_part (codes "status=") (as_str (get call (codes "status")))
          ++ ((if truthy (get call (codes "locations")) then codes "locations" ∷ [] else [])
              ++ (if any_diff (as_list (get call (codes "content")))
                  then codes "diff" ∷ []
                  else []))) in
    let summary : Str = elim parts [ [] ↦ codes "update" | p ∷ ps ↦ join_comma (p ∷ ps) ] in
    codes "\n[tool-update] "
    ++ (or_missing (as_str (get call (codes "toolCallId")))
        ++ (codes ": "
            ++ (summary
                ++ (codes "\n"
                    ++ (format_locations (get call (codes "locations"))
                        ++ format_diffs (get call (codes "content")))))))

unfoldable pub format_entries : ℕ → List JsonValue → Str
unfolding or_missing
format_entries index [] = []
format_entries index (entry ∷ rest) =
    let item = as_dict entry in
    (codes "  "
      ++ (show_nat index
          ++ (codes ". ["
              ++ (or_missing (as_str (get item (codes "status")))
                  ++ (codes "] "
                      ++ (or_missing (as_str (get item (codes "content"))) ++ codes "\n"))))))
    ++ format_entries (index + 1) rest

unfoldable pub format_plan : JsonValue → Str
unfolding format_entries
format_plan update =
    let entries = as_list (get (as_dict update) (codes "entries")) in
    elim entries [
      | [] ↦ codes "\nPlan: (empty)\n"
      | e ∷ es ↦ codes "\nPlan:\n" ++ format_entries 1 (e ∷ es)
    ]
