-- ===== src/SettingsService/Templates.antt =====
-- The notification templates: their check, their text in the column, and the read of that text.
use table_queue.Common.{
  ℕ, ◌≡◌, refl, ◌+◌, ◌-◌, ◌/◌, ◌%◌, Bool, true, false, ◌&&◌, Option, none, some, List, [], ◌∷◌,
  ◌++◌, Text, codes, ltb, leb, ◌==◌, text_eq, length, all_of, any_of, if◌then◌else◌,
}
use table_queue.Errors.{Result, ok, err, app_error, internal_error, nothing}
use table_queue.Schemas.Settings.{Templates, TemplateValue, string, other}

abbrev pub template_keys : List Text
template_keys = codes "joined" ∷ codes "called" ∷ codes "no_show" ∷ []

-- The width of the column.
abbrev pub template_max_length : ℕ
template_max_length = 2000

abbrev hex_digit : ℕ → ℕ
hex_digit n = if ltb n 10 then b'0' + n else b'a' + (n - 10)

-- The escape of one character in a JSON string with `ensure_ascii=False`.
unfoldable pub escaped : ℕ → Text
escaped c =
    if c == 34
    then codes "\\\""
    else if c == 92
    then codes "\\\\"
    else if c == 10
    then codes "\\n"
    else if c == 13
    then codes "\\r"
    else if c == 9
    then codes "\\t"
    else if c == 12
    then codes "\\f"
    else if c == 8
    then codes "\\b"
    else if ltb c 32
    then codes "\\u00" ++ hex_digit (c / 16) ∷ hex_digit (c % 16) ∷ []
    else c ∷ []

escaped_text : Text → Text
unfolding escaped
escaped_text [] = []
escaped_text (c ∷ s) = escaped c ++ escaped_text s

quoted : Text → Text
unfolding escaped_text
quoted s = 34 ∷ (escaped_text s ++ 34 ∷ [])

dumped_value : TemplateValue → Text
unfolding quoted
dumped_value (string s) = quoted s
dumped_value (other json) = json

dumped_items : Templates → Text
unfolding quoted dumped_value
dumped_items [] = []
dumped_items ((key, value) ∷ []) = quoted key ++ (codes ": " ++ dumped_value value)
dumped_items ((key, value) ∷ next ∷ rest) =
    quoted key ++ (codes ": " ++ (dumped_value value ++ (codes ", " ++ dumped_items (next ∷ rest))))

-- `json.dumps(templates, ensure_ascii=False)`
unfoldable pub dumps : Templates → Text
unfolding dumped_items
dumps templates = b'{' ∷ (dumped_items templates ++ b'}' ∷ [])

abbrev is_string : Text × TemplateValue → Bool
is_string item = elim (item.1) [ string s ↦ true | other json ↦ false ]

abbrev has_key : Templates → Text → Bool
has_key templates key = any_of (λ item. text_eq item.0 key) templates

-- `set(templates) == set(TEMPLATE_KEYS)`
abbrev same_keys : Templates → Bool
same_keys templates =
    all_of (has_key templates) template_keys
    && all_of (λ item. any_of (text_eq item.0) template_keys) templates

-- `none` is a null, which is no object.
unfoldable pub templates_are_valid : Option Templates → Bool
templates_are_valid none = false
templates_are_valid (some templates) =
    same_keys templates
    && all_of is_string templates
    && leb (length (dumps templates)) template_max_length

-- `json.loads` of a column: an object, another JSON value, or text that is no JSON.
pub data Loaded : Type 0 where
  object : Templates → Loaded
  not_object malformed : Loaded

-- The column is not null.
unfoldable pub parse_templates : (Text → Loaded) → Text → Result Templates
parse_templates loads raw = elim (loads raw) [
  | object templates ↦ ok templates
  | not_object ↦ err (app_error internal_error none nothing)
  | malformed ↦ err (app_error internal_error none nothing)
]

dumped : dumps ((codes "a", string (codes "x\"y")) ∷ []) ≡ codes "{\"a\": \"x\\\"y\"}"
unfolding dumps
dumped = refl
