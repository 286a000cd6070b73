-- ===== src/MySql/Logged.antt =====
-- A MySQL library that keeps the statements it was sent, the last one first, with what it answered.
-- It is used to state which statements the calls of src/storage/ send, over any library.
use Prim.Native.String.{len, ◌++◌ as str_append}
use Prim.Native.String.{[] as end, ◌∷◌ as char_and}
use Prim.Native.String.append
use Prim.Native.String.len
use hc_tcp_im_server.Common.{
  ◌+◌, ◌<◌, ◌≡◌, refl, Bool, true, false, not, ◌&&◌, ◌||◌, none, some, List, [], ◌∷◌, String, arith,
  str_eq, str_eq_iff, Option-cases, Bool-cases, if◌then◌else◌, inl, inr, ap, ◌≤◌, ◌∙◌, ◌==◌,
}
use hc_tcp_im_server.MySql.{Mysql, Client, execute, query, fetch, set_last_error}
use hc_tcp_im_server.MySql.Text.{stream}

abbrev pub Log : Type 0
Log = List (String × Bool)

abbrev pub Logged : Type 0 → Type 0
Logged H = H × Log

instance abbrev pub logged : {H : Type 0} ⦃m : Mysql H⦄ → Mysql (Logged H)
logged ⦃m⦄ = record {
  mysql_init = elim m.mysql_init [ none ↦ none | some h ↦ some (h, []) ];
  mysql_options = λ h n. (m.mysql_options h.0 n, h.1);
  mysql_real_connect = λ h host user password database port.
      let r = m.mysql_real_connect h.0 host user password database port in ((r.0, h.1), r.1);
  mysql_query = λ h sql. let r = m.mysql_query h.0 sql in ((r.0, (sql, r.1) ∷ h.1), r.1);
  mysql_store_result = λ h. let r = m.mysql_store_result h.0 in ((r.0, h.1), r.1);
  mysql_field_count = λ h. m.mysql_field_count h.0;
  mysql_error = λ h. m.mysql_error h.0;
  mysql_real_escape_string = λ h s. m.mysql_real_escape_string h.0 s;
}

-- The statements sent over the client's connection.
unfoldable pub log_of : {H : Type 0} → Client (Logged H) → Log
log_of c = elim c.impl [ none ↦ [] | some h ↦ h.1 ]

-- Whether a transaction is open after a statement, from whether one was open. A connection that
-- cannot roll back is lost, and the server then ends its transaction.
unfoldable pub open_after : String → Bool → Bool → Bool
open_after sql ok was_open =
    if str_eq sql "BEGIN"
    then ok || was_open
    else if str_eq sql "ROLLBACK"
    then false
    else if str_eq sql "COMMIT"
    then not ok && was_open
    else was_open

unfoldable pub is_in_transaction : Log → Bool
is_in_transaction [] = false
is_in_transaction ((sql, ok) ∷ log) = open_after sql ok (is_in_transaction log)

pub len-append : (s t : String) → len (str_append s t) ≡ len s + len t
len-append end t = rw (append.nil t) (omega arith)
len-append (char_and c s) t =
    rw (append.cons c s t, len.cons c (str_append s t), len.cons c s)
      (omega (arith, len-append s t))

pub stream-IsLong : (s : String) (ss : List String) → 8 < len s → 8 < len (stream (s ∷ ss))
unfolding stream
stream-IsLong s ss h = rw (len-append s (stream ss)) (omega arith)

str_eq_short : (s t : String) → len t ≤ 8 → 8 < len s → str_eq s t ≡ false
str_eq_short s t h l = elim (Bool-cases (str_eq s t)) [
  | inl e ↦ absurd (omega (arith, ap len ((str_eq_iff s t).0 e)))
  | inr e ↦ e
]

-- A long statement is none of the three that control a transaction.
pub open_after_long : (sql : String) (ok b : Bool) → 8 < len sql → open_after sql ok b ≡ b
unfolding open_after
open_after_long sql ok b h =
    rw
      (
        str_eq_short sql "BEGIN" (omega arith) h,
        str_eq_short sql "ROLLBACK" (omega arith) h,
        str_eq_short sql "COMMIT" (omega arith) h,
      )
      refl

module _ {H : Type 0} ⦃m : Mysql H⦄ where
  pub execute_log :
      (c : Client (Logged H)) (sql : String) (h : Logged H)
      → c.impl ≡ some h
      → log_of (execute c sql).0 ≡ (sql, (execute c sql).1) ∷ log_of c
  unfolding log_of execute
  execute_log c sql h e = elim (Bool-cases (m.mysql_query h.0 sql).1) [
    | inl q ↦ rw (e, q) refl
    | inr q ↦ rw (e, q) refl
  ]

  -- Without a connection nothing is open, and every statement fails.
  pub execute_open :
      (c : Client (Logged H)) (sql : String)
      → is_in_transaction (log_of (execute c sql).0)
        ≡ open_after sql (execute c sql).1 (is_in_transaction (log_of c))
  unfolding log_of execute is_in_transaction open_after set_last_error
  execute_open c sql = elim (Option-cases c.impl) [
    | inl e ↦ rw e (ground arith)
    | inr (h, e) ↦ elim (Bool-cases (m.mysql_query h.0 sql).1) [
      | inl q ↦ rw (e, q) refl
      | inr q ↦ rw (e, q) refl
    ]
  ]

  pub execute_long :
      (c : Client (Logged H)) (sql : String)
      → 8 < len sql
      → is_in_transaction (log_of (execute c sql).0) ≡ is_in_transaction (log_of c)
  execute_long c sql h =
      execute_open c sql ∙ open_after_long sql (execute c sql).1 (is_in_transaction (log_of c)) h

  fetch_log : (last : String) (h : Logged H) → log_of (fetch last h).0 ≡ h.1
  unfolding log_of fetch
  fetch_log last h = elim (Option-cases (m.mysql_store_result h.0).1) [
    | inl e ↦ elim (Bool-cases (m.mysql_field_count (m.mysql_store_result h.0).0 == 0)) [
      | inl z ↦ rw (e, z, fetch) refl
      | inr z ↦ rw (e, z, fetch) refl
    ]
    | inr (r, e) ↦ rw (e, fetch) refl
  ]

  pub query_log :
      (c : Client (Logged H)) (sql : String) (h : Logged H)
      → c.impl ≡ some h
      → log_of (query c sql).0 ≡ (sql, (m.mysql_query h.0 sql).1) ∷ log_of c
  unfolding log_of query
  query_log c sql h e = elim (Bool-cases (m.mysql_query h.0 sql).1) [
    | inl q ↦ rw (e, q) (fetch_log c.last_error ((m.mysql_query h.0 sql).0, (sql, true) ∷ h.1))
    | inr q ↦ rw (e, q) refl
  ]

  pub query_long :
      (c : Client (Logged H)) (sql : String)
      → 8 < len sql
      → is_in_transaction (log_of (query c sql).0) ≡ is_in_transaction (log_of c)
  unfolding is_in_transaction log_of query set_last_error
  query_long c sql l = elim (Option-cases c.impl) [
    | inl e ↦ rw e refl
    | inr (h, e) ↦
        rw (query_log c sql h e)
          (open_after_long sql (m.mysql_query h.0 sql).1 (is_in_transaction (log_of c)) l)
  ]
