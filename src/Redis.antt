-- ===== src/Redis.antt =====
-- src/base/redisClient.cpp: `RedisClient` over the functions of hiredis, which are a parameter. A call
-- without a context, which hiredis does not survive, is a none. Keys and values hold no NUL.
pub mod Keys
mod Tests
use Prim.Native.String.{◌++◌ as str_append}
use hc_tcp_im_server.Common.{
  ℕ, suc, ◌+◌, ◌-◌, ◌*◌, ◌/◌, ◌%◌, ◌^◌, ltb, Bool, true, false, not, Option, none, some, List, [],
  ◌∷◌, String, ◌==◌, if◌then◌else◌,
}
use hc_tcp_im_server.Common.Dict.{Dict, put, text_key}
use hc_tcp_im_server.MySql.Text.{decimal}

-- `long long`
pub data ℤ : Type 0 where
  pos negsuc : ℕ → ℤ

-- `redisReply` by its type. The elements of an array are their texts.
pub data Reply : Type 0 where
  string_reply status_reply : String → Reply
  integer_reply : ℤ → Reply
  array_reply : List String → Reply
  nil_reply : Reply
  error_reply : Option String → Reply

-- The functions of hiredis by their names. A command is its words: `%s` is one word, whatever it
-- holds. `err` is whether the context has an error, `errstr` its text.
pub record Hiredis (X : Type 0) : Type 0 where
  pub redis_connect_with_timeout : String → ℕ → ℕ → ℕ → Option X
  pub err : X → Bool
  pub errstr : X → String
  pub redis_command : X → List String → X × Option Reply

pub record RedisClient (X : Type 0) : Type 0 where
  pub context : Option X
  pub last_error : String

unfoldable pub new_redis : {X : Type 0} → RedisClient X
new_redis = record { context = none; last_error = "" }

-- `%d` and `%lld`
unfoldable pub signed : ℤ → String
signed (pos n) = decimal n
signed (negsuc n) = str_append "-" (decimal (suc n))

-- `checkReply`: the reply, if it passes, and the text of the error otherwise.
unfoldable pub check_reply :
    {X : Type 0} → RedisClient X → Option Reply → RedisClient X × Option Reply
check_reply c none = (record c { last_error = "Redis reply is null" }, none)
check_reply c (some (error_reply none)) = (record c { last_error = "Unknown error" }, none)
check_reply c (some (error_reply (some e))) = (record c { last_error = e }, none)
check_reply c (some r) = (c, some r)

-- What the calls make of a reply that has passed.
unfoldable pub is_reply : Option Reply → Bool
is_reply none = false
is_reply (some r) = true

unfoldable pub text_of : Option Reply → String
text_of (some (string_reply s)) = s
text_of _ = ""

unfoldable pub integer_or : ℤ → Option Reply → ℤ
integer_or n (some (integer_reply k)) = k
integer_or n _ = n

unfoldable pub is_one : Option Reply → Bool
is_one (some (integer_reply (pos n))) = n == 1
is_one _ = false

unfoldable pub elements_of : Option Reply → List String
elements_of (some (array_reply xs)) = xs
elements_of _ = []

-- The loop of `hgetall`: two elements at a time.
unfoldable pub fields_loop : List String → Dict String String → Dict String String
fields_loop [] m = m
fields_loop (f ∷ []) m = m
fields_loop (f ∷ v ∷ rest) m = fields_loop rest (put f v m)

-- `static_cast<int>`, of 32 bits with a sign.
unfoldable pub to_int : ℤ → ℤ
to_int (pos n) = let m = n % 2 ^ 32 in if ltb m (2 ^ 31) then pos m else negsuc (2 ^ 32 - 1 - m)
to_int (negsuc n) = let m = n % 2 ^ 32 in if ltb m (2 ^ 31) then negsuc m else pos (2 ^ 32 - 1 - m)

module _ {X : Type 0} ⦃h : Hiredis X⦄ where
  unfoldable pub connect_redis : RedisClient X → String → ℕ → ℕ → RedisClient X × Bool
  connect_redis c host port timeout_ms =
      elim (h.redis_connect_with_timeout host port (timeout_ms / 1000) (timeout_ms % 1000 * 1000)) [
        | none ↦ (record { context = none; last_error = "Failed to allocate redis context" }, false)
        | some x ↦
            if h.err x
            then (record { context = none; last_error = h.errstr x }, false)
            else (record c { context = some x }, true)
      ]

  unfoldable pub disconnect_redis : RedisClient X → RedisClient X
  disconnect_redis c = record c { context = none }

  unfoldable pub is_connected : RedisClient X → Bool
  is_connected c = elim c.context [ none ↦ false | some x ↦ not (h.err x) ]

  -- `redisCommand` and `checkReply`
  unfoldable pub command : RedisClient X → List String → Option (RedisClient X × Option Reply)
  command c words = elim c.context [
    | none ↦ none
    | some x ↦
        let r = h.redis_command x words in some (check_reply (record c { context = some r.0 }) r.1)
  ]

  -- A call: its command, and what it makes of the reply.
  unfoldable pub asked :
      {A : Type 0} → RedisClient X → List String → (Option Reply → A) → Option (RedisClient X × A)
  asked c words f = elim (command c words) [ none ↦ none | some q ↦ some (q.0, f q.1) ]

  module _ (c : RedisClient X) (key : String) where
    unfoldable pub set : String → Option (RedisClient X × Bool)
    set value = asked c ("SET" ∷ key ∷ value ∷ []) is_reply

    unfoldable pub setex : String → ℤ → Option (RedisClient X × Bool)
    setex value seconds = asked c ("SETEX" ∷ key ∷ signed seconds ∷ value ∷ []) is_reply

    unfoldable pub get : Option (RedisClient X × String)
    get = asked c ("GET" ∷ key ∷ []) text_of

    unfoldable pub del : Option (RedisClient X × Bool)
    del = asked c ("DEL" ∷ key ∷ []) is_reply

    unfoldable pub exists : Option (RedisClient X × Bool)
    exists = asked c ("EXISTS" ∷ key ∷ []) is_one

    unfoldable pub expire : ℤ → Option (RedisClient X × Bool)
    expire seconds = asked c ("EXPIRE" ∷ key ∷ signed seconds ∷ []) is_reply

    unfoldable pub ttl : Option (RedisClient X × ℤ)
    ttl = asked c ("TTL" ∷ key ∷ []) (λ r. to_int (integer_or (negsuc 0) r))

    unfoldable pub incr : Option (RedisClient X × ℤ)
    incr = asked c ("INCR" ∷ key ∷ []) (integer_or (pos 0))

    unfoldable pub decr : Option (RedisClient X × ℤ)
    decr = asked c ("DECR" ∷ key ∷ []) (integer_or (pos 0))

    unfoldable pub incr_by : ℤ → Option (RedisClient X × ℤ)
    incr_by increment = asked c ("INCRBY" ∷ key ∷ signed increment ∷ []) (integer_or (pos 0))

    unfoldable pub hset : String → String → Option (RedisClient X × Bool)
    hset field value = asked c ("HSET" ∷ key ∷ field ∷ value ∷ []) is_reply

    unfoldable pub hget : String → Option (RedisClient X × String)
    hget field = asked c ("HGET" ∷ key ∷ field ∷ []) text_of

    unfoldable pub hdel : String → Option (RedisClient X × Bool)
    hdel field = asked c ("HDEL" ∷ key ∷ field ∷ []) is_reply

    unfoldable pub hgetall : Option (RedisClient X × Dict String String)
    hgetall = asked c ("HGETALL" ∷ key ∷ []) (λ r. fields_loop (elements_of r) [])

    unfoldable pub lpush : String → Option (RedisClient X × ℤ)
    lpush value = asked c ("LPUSH" ∷ key ∷ value ∷ []) (integer_or (pos 0))

    unfoldable pub rpush : String → Option (RedisClient X × ℤ)
    rpush value = asked c ("RPUSH" ∷ key ∷ value ∷ []) (integer_or (pos 0))

    unfoldable pub lpop : Option (RedisClient X × String)
    lpop = asked c ("LPOP" ∷ key ∷ []) text_of

    unfoldable pub rpop : Option (RedisClient X × String)
    rpop = asked c ("RPOP" ∷ key ∷ []) text_of

    unfoldable pub lrange : ℤ → ℤ → Option (RedisClient X × List String)
    lrange first last = asked c ("LRANGE" ∷ key ∷ signed first ∷ signed last ∷ []) elements_of

    unfoldable pub sadd : String → Option (RedisClient X × Bool)
    sadd member = asked c ("SADD" ∷ key ∷ member ∷ []) is_reply

    unfoldable pub srem : String → Option (RedisClient X × Bool)
    srem member = asked c ("SREM" ∷ key ∷ member ∷ []) is_reply

    unfoldable pub sismember : String → Option (RedisClient X × Bool)
    sismember member = asked c ("SISMEMBER" ∷ key ∷ member ∷ []) is_one

    unfoldable pub smembers : Option (RedisClient X × List String)
    smembers = asked c ("SMEMBERS" ∷ key ∷ []) elements_of
