-- ===== src/Config/Loading.antt =====
-- What `load` of src/base/config.cpp leaves for `getString`.
use hc_tcp_im_server.Common.{
  ◌≡◌, ◌∙◌, refl, inl, inr, not, ◌&&◌, Option, none, some, List, [], ◌∷◌, arith, if◌then◌else◌,
  Option-cases,
}
use hc_tcp_im_server.Common.Dict.{find, put, find-put}
use hc_tcp_im_server.Config.{
  Text, same_text, same_text_iff, code_key, is_empty, Line, ignored, section, entry, read_line,
  Data, set_value, load_line, load_loop, load, get_string,
}

-- The section behind a line, and the value that it sets for a key of a section.
unfoldable pub section_after : Text → Line → Text
section_after current ignored = current
section_after current (section name) = name
section_after current (entry key value) = current

unfoldable pub value_of : Text → Line → (name key : Text) → Option Text
value_of current (entry k value) name key =
    if not (is_empty current) && not (is_empty k) && same_text current name && same_text k key
    then some value
    else none
value_of current _ name key = none

-- The value of the last line that sets a key of a section, where `current` is the section before the
-- first line.
unfoldable pub last_value : Text → List Text → (name key : Text) → Option Text
last_value current [] name key = none
last_value current (line ∷ lines) name key =
    elim (last_value (section_after current (read_line line)) lines name key) [
      | some later ↦ some later
      | none ↦ value_of current (read_line line) name key
    ]

unfoldable pub or_else : Option Text → Text → Text
or_else none default = default
or_else (some value) default = value

get-set_value :
    (m : Data) (current k value name key default : Text)
    → get_string (set_value m current k value) name key default
      ≡ (if same_text current name && same_text k key then value else get_string m name key default)
unfolding get_string set_value find
get-set_value m current k value name key default = elim (Option-cases (find current m)) [
  | inl n ↦ ground (
    arith,
    n,
    find-put current name (put k value []) m,
    find-put k key value [],
    same_text_iff current name,
  )
  | inr (d, n) ↦ ground (
    arith,
    n,
    find-put current name (put k value d) m,
    find-put k key value d,
    same_text_iff current name,
  )
]

load_line_lem :
    (m : Data) (current : Text) (line : Line) (name key default : Text)
    → get_string (load_line m current line).0 name key default
      ≡ or_else (value_of current line name key) (get_string m name key default)
unfolding load_line value_of or_else
load_line_lem m current ignored name key default = refl
load_line_lem m current (section next) name key default = refl
load_line_lem m current (entry k value) name key default =
    ground (arith, get-set_value m current k value name key default)

load_line-section :
    (m : Data) (current : Text) (line : Line)
    → (load_line m current line).1 ≡ section_after current line
unfolding load_line section_after
load_line-section m current ignored = refl
load_line-section m current (section next) = refl
load_line-section m current (entry k value) = refl

load_loop_lem :
    (lines : List Text) (m : Data) (current name key default : Text)
    → get_string (load_loop m current lines) name key default
      ≡ or_else (last_value current lines name key) (get_string m name key default)
unfolding load_loop last_value or_else
load_loop_lem [] m current name key default = refl
load_loop_lem (line ∷ lines) m current name key default =
    let l = read_line line in
    let r = load_line m current l in
    let rest : get_string (load_loop r.0 r.1 lines) name key default
        ≡ or_else (last_value (section_after current l) lines name key)
            (get_string r.0 name key default) =
      rw (← load_line-section m current l) (load_loop_lem lines r.0 r.1 name key default) in
    elim (Option-cases (last_value (section_after current l) lines name key)) [
      | inl n ↦ rest ∙ rw n (load_line_lem m current l name key default)
      | inr (v, n) ↦ rest ∙ rw n refl
    ]

-- After a file is loaded, `getString` gives the value of the last line that sets the key in the
-- section, and the default if no line does; a file that cannot be opened sets nothing.
pub load_lem :
    (file : Option (List Text)) (name key default : Text)
    → get_string (load file).0 name key default
      ≡ (elim file [ none ↦ default | some lines ↦ or_else (last_value [] lines name key) default ])
unfolding load get_string find
load_lem none name key default = refl
load_lem (some lines) name key default = load_loop_lem lines [] [] name key default
