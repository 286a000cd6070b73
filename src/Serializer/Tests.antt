-- ===== src/Serializer/Tests.antt =====
-- A JSON library that keeps the tree as its text, and the messages of src/codec/messageSerializer.cpp
-- over it.
use hc_tcp_im_server.Common.{
  ℕ, ◌<◌, ◌^◌, ◌≡◌, refl, ap, Bool, true, false, Option, none, some, List, [], ◌∷◌, String, arith,
  u32, u64, ltb, lt→ltb, if◌then◌else◌,
}
use hc_tcp_im_server.Common.Dict.{Dict, find, text_key}
use hc_tcp_im_server.Protocol.{pull_offline_resp}
use hc_tcp_im_server.Protocol.Messages.{PullOfflineResp}
use hc_tcp_im_server.Serializer.{JsonLib}
use hc_tcp_im_server.Serializer.Overloads.{serialize, deserialize}
use hc_tcp_im_server.Serializer.RoundTrip.{deserialize-serialize}

mutual
  data Tree : Type 0 where
    number : ℕ → Tree
    text : String → Tree
    array : Trees → Tree
    object : Members → Tree

  data Trees : Type 0 where
    nil : Trees
    cons : Tree → Trees → Trees

  data Members : Type 0 where
    empty : Members
    member : String → Tree → Members → Members

trees : List Tree → Trees
trees [] = nil
trees (t ∷ ts) = cons t (trees ts)

list : Trees → List Tree
list nil = []
list (cons t ts) = t ∷ list ts

list-trees : (ts : List Tree) → list (trees ts) ≡ ts
unfolding list trees
list-trees [] = refl
list-trees (t ∷ ts) = ap (λ us. t ∷ us) (list-trees ts)

members : Dict String Tree → Members
members [] = empty
members ((k, t) ∷ d) = member k t (members d)

dict : Members → Dict String Tree
dict empty = []
dict (member k t ms) = (k, t) ∷ dict ms

dict-members : (d : Dict String Tree) → dict (members d) ≡ d
unfolding dict members
dict-members [] = refl
dict-members ((k, t) ∷ d) = ap (λ e. (k, t) ∷ e) (dict-members d)

tree_member : Tree → String → Option Tree
tree_member (object ms) k = find k (dict ms)
tree_member _ k = none

tree_items : Tree → List Tree
tree_items (array ts) = list ts
tree_items _ = []

tree_text : Tree → Option String
tree_text (text s) = some s
tree_text _ = none

tree_number : ℕ → Tree → Option ℕ
tree_number top (number n) = if ltb n top then some n else none
tree_number top _ = none

is_tree_object : Tree → Bool
is_tree_object (object ms) = true
is_tree_object _ = false

tree_number-number : (top n : ℕ) → n < top → tree_number top (number n) ≡ some n
unfolding tree_number
tree_number-number top n h = rw (lt→ltb n top h) refl

pub trees_lib : JsonLib
unfolding tree_member tree_items tree_text is_tree_object members
trees_lib = record {
  Json = Tree;
  Bytes = Tree;
  number = number;
  text = text;
  array = λ ts. array (trees ts);
  object = λ d. object (members d);
  dump = λ t. t;
  parse = λ t. some t;
  empty_object_text = object empty;
  is_object = is_tree_object;
  member = tree_member;
  items = tree_items;
  get_text = tree_text;
  get_uint32 = tree_number u32;
  get_uint64 = tree_number u64;
  get_int64 = tree_number (2 ^ 63);
  parse-dump = λ t. refl;
  parse-empty = refl;
  is_object-object = λ d. refl;
  member-object = λ d k. ap (find k) (dict-members d);
  items-array = list-trees;
  get_text-text = λ s. refl;
  get_uint32-number = tree_number-number u32;
  get_uint64-number = tree_number-number u64;
  get_int64-number = tree_number-number (2 ^ 63);
}

abbrev page : PullOfflineResp
page = record {
  result_code = 0;
  result_msg = "ok";
  next_begin_seq = 8;
  messages =
      record {
        msg_id = 3;
        server_seq = 7;
        from_user_id = "ann";
        to_user_id = "bob";
        client_msg_id = "c1";
        content = "hello";
        timestamp = 1700000000000;
      }
      ∷ [];
}

abbrev blank : PullOfflineResp
blank = record { result_code = 1; result_msg = ""; next_begin_seq = 0; messages = [] }

deserialize-serialize_example :
    deserialize trees_lib pull_offline_resp (serialize trees_lib pull_offline_resp page) blank
    ≡ some page
deserialize-serialize_example =
    deserialize-serialize trees_lib pull_offline_resp page blank (record {
      result_code = omega arith;
      next_begin_seq = omega arith;
      messages =
          (record { msg_id = omega arith; server_seq = omega arith; timestamp = omega arith }, tt);
    })
