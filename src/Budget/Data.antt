-- ===== src/Budget/Data.antt =====
-- boundedCopy and the shape tests of model-budget.ts, over JSON data. Text is a list of UTF-16 code
-- units. `opaque` stands for every value that is no JSON data: undefined, a function, NaN, an accessor
-- or a missing element, an object of a class, or an object inside itself.
use commitment_workbench.Prelude.{
  ℕ, ◌+◌, Bool, true, false, ◌&&◌, ◌||◌, Option, none, some, [], ◌∷◌, Text, codes, text_eq, leb,
  ltb, if◌then◌else◌,
}
use commitment_workbench.Prelude.Units.{is_high, low_first, has_short_escape}

mutual
  -- `number n` is a finite number whose JSON text has n characters.
  pub data Json : Type 0 where
    null : Json
    boolean : Bool → Json
    number : ℕ → Json
    string : Text → Json
    array : Items → Json
    object : Fields → Json
    opaque : Json

  pub data Items : Type 0 where
    no_items : Items
    item : Json → Items → Items

  pub data Fields : Type 0 where
    no_fields : Fields
    field : Text → Json → Fields → Fields

-- The bytes counted so far, or the error thrown.
pub data Copy : Type 0 where
  counted : ℕ → Copy
  exceeded : ℕ → Copy
  invalid : Copy

unfoldable pub add : ℕ → ℕ → Copy → Copy
add limit n (counted b) = if ltb limit (b + n) then exceeded (b + n) else counted (b + n)
add limit n c = c

unfoldable pub unit_bytes : ℕ → Bool → ℕ
unit_bytes c paired =
    if has_short_escape c
    then 2
    else if ltb c 32
    then 6
    else if ltb c 128
    then 1
    else if ltb c 2048
    then 2
    else if paired
    then 4
    else if leb 55296 c && leb c 57343
    then 6
    else 3

-- The flag says that the next unit is the second of a pair and has been counted.
unfoldable pub count_units : ℕ → Bool → Text → Copy → Copy
unfolding add unit_bytes
count_units limit skip [] m = m
count_units limit true (c ∷ cs) m = count_units limit false cs m
count_units limit false (c ∷ cs) m =
    let paired = is_high c && low_first cs in
    count_units limit paired cs (add limit (unit_bytes c paired) m)

unfoldable pub count_string : ℕ → Text → Copy → Copy
unfolding count_units
count_string limit s m = count_units limit false s (add limit 2 m)

-- An error already thrown stays.
abbrev pub fail : Copy → Copy
fail (counted b) = invalid
fail c = c

-- A value at a depth over 32 is refused before it is read.
abbrev pub at_depth : ℕ → Copy → Copy → Copy
at_depth depth before after = if ltb 32 depth then fail before else after

unfoldable mutual
  unfolding add count_string

  pub visit : ℕ → ℕ → Json → Copy → Copy
  visit limit depth null m = at_depth depth m (add limit 4 m)
  visit limit depth (boolean b) m = at_depth depth m (add limit (if b then 4 else 5) m)
  visit limit depth (number n) m = at_depth depth m (add limit n m)
  visit limit depth (string s) m = at_depth depth m (count_string limit s m)
  visit limit depth (array xs) m =
      at_depth depth m (visit_items limit (depth + 1) true xs (add limit 2 m))
  visit limit depth (object fs) m =
      at_depth depth m (visit_fields limit (depth + 1) true fs (add limit 2 m))
  visit limit depth opaque m = fail m

  -- The flag says that the element is the first, which no comma precedes.
  pub visit_items : ℕ → ℕ → Bool → Items → Copy → Copy
  visit_items limit depth first no_items m = m
  visit_items limit depth first (item v xs) m =
      visit_items limit depth false xs (visit limit depth v (if first then m else add limit 1 m))

  pub visit_fields : ℕ → ℕ → Bool → Fields → Copy → Copy
  visit_fields limit depth first no_fields m = m
  visit_fields limit depth first (field k v fs) m = visit_fields limit depth false fs (
      visit limit depth v (add limit 1 (count_string limit k (if first then m else add limit 1 m))))

unfoldable pub bounded_copy : ℕ → Json → Copy
unfolding visit
bounded_copy limit v = visit limit 0 v (counted 0)

unfoldable pub get : Text → Fields → Option Json
get k no_fields = none
get k (field j v fs) = let rest = get k fs in if text_eq j k then some v else rest

abbrev pub is_string : Option Json → Bool
is_string (some (string _)) = true
is_string _ = false

abbrev pub is_object : Option Json → Bool
is_object (some (object _)) = true
is_object _ = false

abbrev pub is_absent : Option Json → Bool
is_absent none = true
is_absent (some _) = false

abbrev pub is_boolean : Option Json → Bool
is_boolean (some (boolean _)) = true
is_boolean _ = false

abbrev pub is_text : Text → Option Json → Bool
is_text s (some (string t)) = text_eq t s
is_text s _ = false

unfoldable pub valid_block : Json → Bool
unfolding get
valid_block (object b) =
    if is_text (codes "text") (get (codes "type") b)
    then is_string (get (codes "text") b)
    else if is_text (codes "tool_use") (get (codes "type") b)
    then is_string (get (codes "id") b)
      && is_string (get (codes "name") b)
      && is_object (get (codes "input") b)
    else is_text (codes "tool_result") (get (codes "type") b)
      && is_string (get (codes "tool_use_id") b)
      && is_string (get (codes "content") b)
      && (is_absent (get (codes "is_error") b) || is_boolean (get (codes "is_error") b))
valid_block _ = false

unfoldable pub every : (Json → Bool) → Items → Bool
every p no_items = true
every p (item v xs) = p v && every p xs

unfoldable pub valid_content : Option Json → Bool
unfolding every valid_block
valid_content (some (array xs)) = every valid_block xs
valid_content _ = false

unfoldable pub valid_message : Json → Bool
unfolding get valid_content
valid_message (object m) =
    (is_text (codes "user") (get (codes "role") m)
      || is_text (codes "assistant") (get (codes "role") m))
    && (is_string (get (codes "content") m) || valid_content (get (codes "content") m))
valid_message _ = false

unfoldable pub valid_tool : Json → Bool
unfolding get
valid_tool (object t) =
    is_string (get (codes "name") t)
    && is_string (get (codes "description") t)
    && is_object (get (codes "input_schema") t)
valid_tool _ = false

abbrev pub every_of : (Json → Bool) → Option Json → Bool
every_of p (some (array xs)) = every p xs
every_of p _ = false

unfoldable pub valid_request : Fields → Bool
unfolding get
valid_request r =
    (is_absent (get (codes "system") r) || is_string (get (codes "system") r))
    && every_of valid_message (get (codes "messages") r)
    && (is_absent (get (codes "tools") r) || every_of valid_tool (get (codes "tools") r))
