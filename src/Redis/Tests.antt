-- ===== src/Redis/Tests.antt =====
-- A client of src/base/redisClient.cpp with a server that is a dictionary.
use hc_tcp_im_server.Common.{
  arith, ◌≡◌, refl, true, false, Option, none, some, List, [], ◌∷◌, String, str_eq, if◌then◌else◌,
}
use hc_tcp_im_server.Common.Dict.{Dict, find, put, erase, text_key, find-put, find-erase}
use hc_tcp_im_server.Redis.{
  Hiredis, RedisClient, Reply, status_reply, integer_reply, error_reply, pos,
}
use hc_tcp_im_server.Redis.Keys.{
  RedisServer, get_reply, Operation, puts, drops, looks, IsHolding, outputs, expected,
  outputs-expected,
}

abbrev Held : Type 0
Held = Dict String String

abbrev refused : Held → Held × Option Reply
refused d = (d, some (error_reply (some "ERR")))

abbrev answer_set : Held → String → List String → Held × Option Reply
answer_set d k (seconds ∷ v ∷ []) = (put k v d, some (status_reply "OK"))
answer_set d k _ = refused d

abbrev answer : Held → List String → Held × Option Reply
answer d [] = refused d
answer d (w ∷ []) = refused d
answer d (w ∷ k ∷ rest) =
    if str_eq w "GET"
    then (d, some (get_reply (find k d)))
    else if str_eq w "DEL"
    then (erase k d, some (integer_reply (pos (elim (find k d) [ none ↦ 0 | some v ↦ 1 ]))))
    else answer_set d k rest

instance abbrev held : Hiredis Held
held = record {
  redis_connect_with_timeout = λ host port seconds us. some [];
  err = λ x. false;
  errstr = λ x. "";
  redis_command = answer;
}

instance abbrev held_server : RedisServer Held
held_server = record {
  is_steady = λ left x. true;
  stored = λ x k. find k x;
  deleted = λ x k. elim (find k x) [ none ↦ 0 | some v ↦ 1 ];
  setex_reply = λ left x k v n b a. (refl, refl, λ j. find-put k j v x);
  del_reply = λ left x k a. (refl, refl, λ j. find-erase k j x);
  get_reply_law = λ left x k a. (refl, refl, λ j. refl);
}

abbrev client : RedisClient Held
client = record { context = some []; last_error = "" }

client-IsHolding : IsHolding 4 client []
client-IsHolding = record { server = []; here = refl; steady = refl; same = λ j. refl }

abbrev script : List Operation
script =
    puts "route:ann" "node-b" 30 ∷ looks "route:ann" ∷ drops "route:ann" ∷ looks "route:ann" ∷ []

outputs-expected_example : outputs client script ≡ some (expected [] script)
outputs-expected_example = outputs-expected client [] script client-IsHolding (omega arith)
