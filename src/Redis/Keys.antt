-- ===== src/Redis/Keys.antt =====
-- src/base/redisClient.cpp: `setex`, `del` and `get` against a server that holds texts under keys.
use hc_tcp_im_server.Common.{
  ℕ, suc, ◌≡◌, refl, sym, ◌∙◌, Bool, true, Option, none, some, List, [], ◌∷◌, String, str_eq, ◌<◌,
  ◌^◌, length, All, if◌then◌else◌,
}
use hc_tcp_im_server.Common.Dict.{Dict, find, put, erase, get_or, text_key, find-put, find-erase}
use hc_tcp_im_server.Redis.{
  Hiredis, RedisClient, Reply, string_reply, status_reply, integer_reply, nil_reply, pos, signed,
  check_reply, is_reply, text_of, command, asked, setex, get, del,
}

-- The reply to GET.
abbrev pub get_reply : Option String → Reply
get_reply none = nil_reply
get_reply (some s) = string_reply s

-- The three commands as redis.io documents them. SETEX with a positive time, here one that an `int`
-- holds, stores a text for as many seconds and answers OK, DEL removes it and answers how many keys
-- there were, GET answers it or nil. `is_steady n` says of a connection that the next n commands are
-- answered without an error, take together less than a second, the shortest time that SETEX gives a
-- key, and are over before a key that is there expires. So it says one command less of the connection
-- that a command leaves.
pub record RedisServer (X : Type 0) ⦃h : Hiredis X⦄ : Type 0 where
  pub is_steady : ℕ → X → Bool
  pub stored : X → String → Option String
  pub deleted : X → String → ℕ
  pub setex_reply :
      (left : ℕ) (x : X) (k v : String) (n : ℕ)
      → suc n < 2 ^ 31
      → is_steady (suc left) x ≡ true
      → let r = h.redis_command x ("SETEX" ∷ k ∷ signed (pos (suc n)) ∷ v ∷ []) in
        ((r.1 ≡ some (status_reply "OK"))
          × (is_steady left r.0 ≡ true)
          × ((j : String) → stored r.0 j ≡ (if str_eq k j then some v else stored x j)))
  pub del_reply :
      (left : ℕ) (x : X) (k : String)
      → is_steady (suc left) x ≡ true
      → let r = h.redis_command x ("DEL" ∷ k ∷ []) in
        ((r.1 ≡ some (integer_reply (pos (deleted x k))))
          × (is_steady left r.0 ≡ true)
          × ((j : String) → stored r.0 j ≡ (if str_eq k j then none else stored x j)))
  pub get_reply_law :
      (left : ℕ) (x : X) (k : String)
      → is_steady (suc left) x ≡ true
      → let r = h.redis_command x ("GET" ∷ k ∷ []) in
        ((r.1 ≡ some (get_reply (stored x k)))
          × (is_steady left r.0 ≡ true)
          × ((j : String) → stored r.0 j ≡ stored x j))

pub data Operation : Type 0 where
  puts : String → String → ℕ → Operation
  drops looks : String → Operation

pub data Output : Type 0 where
  told : Bool → Output
  text : String → Output

-- The time that an operation gives a key: `puts` gives one more second than its number.
abbrev pub seconds_of : Operation → ℕ
seconds_of (puts k v n) = suc n
seconds_of _ = 1

-- What a dictionary answers to the operations.
unfoldable pub expected : Dict String String → List Operation → List Output
expected d [] = []
expected d (puts k v n ∷ os) = told true ∷ expected (put k v d) os
expected d (drops k ∷ os) = told true ∷ expected (erase k d) os
expected d (looks k ∷ os) = text (get_or k d "") ∷ expected d os

module _ {X : Type 0} ⦃h : Hiredis X⦄ where
  unfoldable pub step : RedisClient X → Operation → Option (RedisClient X × Output)
  step c (puts k v n) = elim (setex c k v (pos (suc n))) [
    | none ↦ none
    | some q ↦ some (q.0, told q.1)
  ]
  step c (drops k) = elim (del c k) [ none ↦ none | some q ↦ some (q.0, told q.1) ]
  step c (looks k) = elim (get c k) [ none ↦ none | some q ↦ some (q.0, text q.1) ]

  unfoldable pub outputs : RedisClient X → List Operation → Option (List Output)
  outputs c [] = some []
  outputs c (o ∷ os) = elim (step c o) [
    | none ↦ none
    | some q ↦ elim (outputs q.0 os) [ none ↦ none | some ts ↦ some (q.1 ∷ ts) ]
  ]

  -- A client whose server holds what a dictionary holds, and is steady for some commands.
  pub record IsHolding ⦃s : RedisServer X⦄ (left : ℕ) (c : RedisClient X) (d : Dict String String)
      : Type 0 where
    pub server : X
    pub here : c.context ≡ some server
    pub steady : s.is_steady left server ≡ true
    pub same : (j : String) → s.stored server j ≡ find j d

  outputs_cons :
      (c : RedisClient X) (o : Operation) (os : List Operation) (q : RedisClient X × Output)
      → (ts : List Output) → step c o ≡ some q
      → outputs q.0 os ≡ some ts
      → outputs c (o ∷ os) ≡ some (q.1 ∷ ts)
  unfolding outputs
  outputs_cons c o os q ts e f = rw (outputs, e, f) refl

  -- A command whose reply passes.
  asked_passes :
      {A : Type 0} (c : RedisClient X) (words : List String) (f : Option Reply → A) (x : X)
      (r : Reply)
      → c.context ≡ some x
      → (h.redis_command x words).1 ≡ some r
      → check_reply (record c { context = some (h.redis_command x words).0 }) (some r)
        ≡ (record c { context = some (h.redis_command x words).0 }, some r)
      → asked c words f ≡ some (record c { context = some (h.redis_command x words).0 }, f (some r))
  unfolding asked command
  asked_passes c words f x r e g k = rw (command, e, g, k) refl

  -- After a command that passes, the client is the same but for its context.
  abbrev answered : RedisClient X → X → RedisClient X
  answered c x = record c { context = some x }

  step_puts :
      (c : RedisClient X) (x : X) (k v : String) (n : ℕ)
      → c.context ≡ some x
      → let r = h.redis_command x ("SETEX" ∷ k ∷ signed (pos (suc n)) ∷ v ∷ []) in
        (r.1 ≡ some (status_reply "OK") → step c (puts k v n) ≡ some (answered c r.0, told true))
  unfolding step setex check_reply is_reply
  step_puts c x k v n e g =
      rw
        (
          step,
          asked_passes c ("SETEX" ∷ k ∷ signed (pos (suc n)) ∷ v ∷ []) is_reply x
              (status_reply "OK") e g refl,
        )
        refl

  step_drops :
      (c : RedisClient X) (x : X) (k : String) (n : ℕ)
      → c.context ≡ some x
      → let r = h.redis_command x ("DEL" ∷ k ∷ []) in
        (r.1 ≡ some (integer_reply (pos n)) → step c (drops k) ≡ some (answered c r.0, told true))
  unfolding step del check_reply is_reply
  step_drops c x k n e g =
      rw (step, asked_passes c ("DEL" ∷ k ∷ []) is_reply x (integer_reply (pos n)) e g refl) refl

  step_looks :
      (c : RedisClient X) (x : X) (k : String) (o : Option String)
      → c.context ≡ some x
      → let r = h.redis_command x ("GET" ∷ k ∷ []) in
        (r.1 ≡ some (get_reply o)
          → step c (looks k) ≡ some (answered c r.0, text (elim o [ none ↦ "" | some v ↦ v ])))
  unfolding step get check_reply text_of
  step_looks c x k none e g =
      rw (step, asked_passes c ("GET" ∷ k ∷ []) text_of x nil_reply e g refl) refl
  step_looks c x k (some v) e g =
      rw (step, asked_passes c ("GET" ∷ k ∷ []) text_of x (string_reply v) e g refl) refl

  -- A client whose server holds what a dictionary holds. Any calls of setex with a positive time that
  -- an `int` holds, del and get, during which the server answers and no key expires, succeed; and get
  -- reads what the dictionary has, the empty text for a key that it does not have.
  pub outputs-expected :
      ⦃s : RedisServer X⦄ (c : RedisClient X) (d : Dict String String) (os : List Operation)
      → IsHolding (length os) c d
      → All (λ o. seconds_of o < 2 ^ 31) os
      → outputs c os ≡ some (expected d os)
  unfolding expected outputs
  outputs-expected c d [] i a = refl
  outputs-expected ⦃s⦄ c d (puts k v n ∷ os) i a =
      let (r, ok, there) = s.setex_reply (length os) i.server k v n a.0 i.steady in
      let x = (h.redis_command i.server ("SETEX" ∷ k ∷ signed (pos (suc n)) ∷ v ∷ [])).0 in
      outputs_cons c (puts k v n) os (answered c x, told true) (expected (put k v d) os)
        (step_puts c i.server k v n i.here r)
        (outputs-expected (answered c x) (put k v d) os
          (record {
            server = x;
            here = refl;
            steady = ok;
            same = λ j. there j ∙ rw (i.same j) (sym (find-put k j v d));
          })
          a.1)
  outputs-expected ⦃s⦄ c d (drops k ∷ os) i a =
      let (r, ok, there) = s.del_reply (length os) i.server k i.steady in
      let x = (h.redis_command i.server ("DEL" ∷ k ∷ [])).0 in
      outputs_cons c (drops k) os (answered c x, told true) (expected (erase k d) os)
        (step_drops c i.server k (s.deleted i.server k) i.here r)
        (outputs-expected (answered c x) (erase k d) os
          (record {
            server = x;
            here = refl;
            steady = ok;
            same = λ j. there j ∙ rw (i.same j) (sym (find-erase k j d));
          })
          a.1)
  outputs-expected ⦃s⦄ c d (looks k ∷ os) i a =
      let (r, ok, there) = s.get_reply_law (length os) i.server k i.steady in
      let x = (h.redis_command i.server ("GET" ∷ k ∷ [])).0 in
      outputs_cons c (looks k) os (answered c x, text (get_or k d "")) (expected d os)
        (step_looks c i.server k (find k d) i.here (rw (← i.same k) r))
        (outputs-expected (answered c x) d os
          (record { server = x; here = refl; steady = ok; same = λ j. there j ∙ i.same j }) a.1)
