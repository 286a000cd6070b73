-- ===== src/Config/Tests.antt =====
-- A small configuration file for src/base/config.cpp.
use hc_tcp_im_server.Common.{◌≡◌, refl, true, false, some, List, [], ◌∷◌}
use hc_tcp_im_server.Common.Dict.{find, put}
use hc_tcp_im_server.Config.{
  Text, is_space, is_empty, trim_front, trim_back, trim, ends_with, drop_last, split_at_equals,
  read_entry, read_trimmed, read_line, same_text, set_value, load_line, load_loop, load, get_string,
  get_bool,
}
use hc_tcp_im_server.Config.Loading.{last_value, or_else, load_lem}

-- The lines `[net]`, `nodelay = off`, ` # x=1`, `nodelay= yes `.
abbrev lines : List Text
lines =
    (91 ∷ 110 ∷ 101 ∷ 116 ∷ 93 ∷ [])
    ∷ (110 ∷ 111 ∷ 100 ∷ 101 ∷ 108 ∷ 97 ∷ 121 ∷ 32 ∷ 61 ∷ 32 ∷ 111 ∷ 102 ∷ 102 ∷ [])
    ∷ (32 ∷ 35 ∷ 32 ∷ 120 ∷ 61 ∷ 49 ∷ [])
    ∷ (110 ∷ 111 ∷ 100 ∷ 101 ∷ 108 ∷ 97 ∷ 121 ∷ 61 ∷ 32 ∷ 121 ∷ 101 ∷ 115 ∷ 32 ∷ [])
    ∷ []

abbrev net : Text
net = 110 ∷ 101 ∷ 116 ∷ []

abbrev nodelay : Text
nodelay = 110 ∷ 111 ∷ 100 ∷ 101 ∷ 108 ∷ 97 ∷ 121 ∷ []

nodelay_is_on : get_bool (load (some lines)).0 net nodelay false ≡ true
unfolding load load_loop load_line read_line read_trimmed read_entry split_at_equals drop_last
    ends_with trim trim_back trim_front is_empty is_space set_value get_bool get_string same_text
    find put
nodelay_is_on = refl

load_lem_example :
    get_string (load (some lines)).0 net nodelay [] ≡ or_else (last_value [] lines net nodelay) []
load_lem_example = load_lem (some lines) net nodelay []
