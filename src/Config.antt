-- ===== src/Config.antt =====
-- src/base/config.cpp: the configuration file. A text is the list of its character codes, and the file
-- is its lines; `std::stoi` and `std::stod` are a parameter.
pub mod Loading
mod Tests
use hc_tcp_im_server.Common.{
  ℕ, ◌≡◌, ◌↔◌, refl, Bool, true, false, not, ◌&&◌, ◌||◌, Option, none, some, List, [], ◌∷◌, arith,
  leb, ◌==◌, ==_iff, if◌then◌else◌,
}
use hc_tcp_im_server.Common.Dict.{Key, Dict, find, put}

abbrev pub Text : Type 0
Text = List ℕ

unfoldable pub same_text : Text → Text → Bool
same_text [] [] = true
same_text [] (b ∷ s) = false
same_text (a ∷ r) [] = false
same_text (a ∷ r) (b ∷ s) = let rest = same_text r s in a == b && rest

pub same_text_iff : (r s : Text) → (same_text r s ≡ true) ↔ (r ≡ s)
unfolding same_text
same_text_iff [] [] = (λ h. refl, λ h. refl)
same_text_iff [] (b ∷ s) = ground arith
same_text_iff (a ∷ r) [] = ground arith
same_text_iff (a ∷ r) (b ∷ s) = ground (arith, same_text_iff r s, ==_iff a b)

instance abbrev pub code_key : Key Text
code_key = record { same = same_text; same_iff = same_text_iff }

-- `std::isspace` in the C locale.
unfoldable pub is_space : ℕ → Bool
is_space c = c == 32 || (leb 9 c && leb c 13)

unfoldable pub is_empty : Text → Bool
is_empty [] = true
is_empty (c ∷ s) = false

-- The two erasures of `trim`, at the front and at the back.
unfoldable pub trim_front : Text → Text
trim_front [] = []
trim_front (c ∷ s) = let rest = trim_front s in if is_space c then rest else c ∷ s

unfoldable pub trim_back : Text → Text
trim_back [] = []
trim_back (c ∷ s) = let rest = trim_back s in if is_space c && is_empty rest then [] else c ∷ rest

unfoldable pub trim : Text → Text
trim s = trim_back (trim_front s)

-- `line.back() == ']'`
unfoldable pub ends_with : ℕ → Text → Bool
ends_with x [] = false
ends_with x (c ∷ []) = c == x
ends_with x (c ∷ d ∷ s) = ends_with x (d ∷ s)

unfoldable pub drop_last : Text → Text
drop_last [] = []
drop_last (c ∷ []) = []
drop_last (c ∷ d ∷ s) = c ∷ drop_last (d ∷ s)

-- The parts of a text before and behind the first `=`.
unfoldable pub split_at_equals : Text → Option (Text × Text)
split_at_equals [] = none
split_at_equals (c ∷ s) =
    let rest = split_at_equals s in
    if c == 61 then some ([], s) else elim rest [ none ↦ none | some p ↦ some (c ∷ p.0, p.1) ]

-- What a line is to `load`.
pub data Line : Type 0 where
  ignored : Line
  section : Text → Line
  entry : (key value : Text) → Line

unfoldable pub read_entry : Text → Line
read_entry line = elim (split_at_equals line) [
  | none ↦ ignored
  | some p ↦ entry (trim p.0) (trim p.1)
]

-- A line that is trimmed: 35 is `#`, 59 is `;`, 91 and 93 are the brackets.
unfoldable pub read_trimmed : Text → Line
read_trimmed [] = ignored
read_trimmed (c ∷ s) =
    if c == 35 || c == 59
    then ignored
    else if c == 91 && ends_with 93 (c ∷ s)
    then section (trim (drop_last s))
    else read_entry (c ∷ s)

unfoldable pub read_line : Text → Line
read_line line = read_trimmed (trim line)

abbrev pub Data : Type 0
Data = Dict Text (Dict Text Text)

-- `m_data[currentSection][key] = value`
unfoldable pub set_value : Data → (section key value : Text) → Data
set_value m name key value =
    let before : Dict Text Text = elim (find name m) [ none ↦ [] | some d ↦ d ] in
    put name (put key value before) m

-- One turn of the loop: the data and the current section.
unfoldable pub load_line : Data → Text → Line → Data × Text
load_line m current ignored = (m, current)
load_line m current (section name) = (m, name)
load_line m current (entry key value) = (
  if not (is_empty current) && not (is_empty key) then set_value m current key value else m,
  current,
)

unfoldable pub load_loop : Data → Text → List Text → Data
load_loop m current [] = m
load_loop m current (line ∷ lines) =
    let r = load_line m current (read_line line) in load_loop r.0 r.1 lines

-- The lines of the file, or none if it cannot be opened. The map is cleared first.
unfoldable pub load : Option (List Text) → Data × Bool
load none = ([], false)
load (some lines) = (load_loop [] [] lines, true)

unfoldable pub get_string : Data → (section key default : Text) → Text
get_string m name key default = elim (find name m) [
  | none ↦ default
  | some d ↦ elim (find key d) [ none ↦ default | some value ↦ value ]
]

-- `getInt` and `getDouble`, over `std::stoi` or `std::stod`, which throw for none.
unfoldable pub get_number : {A : Type 0} → (Text → Option A) → Data → (section key : Text) → A → A
get_number read m name key default =
    let value = get_string m name key [] in
    if is_empty value then default else elim (read value) [ none ↦ default | some n ↦ n ]

-- The texts of `getBool`: true, 1, yes, on; false, 0, no, off.
unfoldable pub get_bool : Data → (section key : Text) → Bool → Bool
get_bool m name key default =
    let value = get_string m name key [] in
    if same_text value (116 ∷ 114 ∷ 117 ∷ 101 ∷ [])
      || same_text value (49 ∷ [])
      || same_text value (121 ∷ 101 ∷ 115 ∷ [])
      || same_text value (111 ∷ 110 ∷ [])
    then true
    else if same_text value (102 ∷ 97 ∷ 108 ∷ 115 ∷ 101 ∷ [])
        || same_text value (48 ∷ [])
        || same_text value (110 ∷ 111 ∷ [])
        || same_text value (111 ∷ 102 ∷ 102 ∷ [])
    then false
    else default
