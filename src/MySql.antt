-- ===== src/MySql.antt =====
-- src/storage/mysqlClient.cpp, as built with HAVE_MYSQL_CLIENT: `MySqlClient` over the functions of
-- the MySQL library, which are a parameter. `m_impl` is the handle of an open connection.
pub mod Text
pub mod Messages
pub mod Deliveries
pub mod Sessions
pub mod MessageStore
pub mod Marks
pub mod Pending
pub mod Logged
pub mod Statements
pub mod Transactions
pub mod Calls
pub mod Written
pub mod Cursors
pub mod Numbers
pub mod RoundTrip
mod Tests
use hc_tcp_im_server.Common.{
  ℕ, ◌/◌, Bool, true, false, Option, none, some, List, [], ◌∷◌, map, String, ltb, if◌then◌else◌,
  ◌==◌,
}
use hc_tcp_im_server.Common.Dict.{Dict, put, text_key}

-- `MYSQL_RES`: the names of the fields, and the rows.
pub record Result : Type 0 where
  pub fields : List (Option String)
  pub rows : List (List (Option String))

-- The functions of the library that the client calls, by their names. `mysql_query` returns whether
-- it answered 0; `mysql_close` leaves nothing to model.
pub record Mysql (H : Type 0) : Type 0 where
  pub mysql_init : Option H
  pub mysql_options : H → ℕ → H
  pub mysql_real_connect : H → String → String → String → String → ℕ → H × Bool
  pub mysql_query : H → String → H × Bool
  pub mysql_store_result : H → H × Option Result
  pub mysql_field_count : H → ℕ
  pub mysql_error : H → String
  pub mysql_real_escape_string : H → String → String

-- `MySqlClient::Row`
abbrev pub Row : Type 0
Row = Dict String String

pub record Client (H : Type 0) : Type 0 where
  pub impl : Option H
  pub last_error : String

unfoldable pub new_client : {H : Type 0} → Client H
new_client = record { impl = none; last_error = "" }

unfoldable pub set_last_error : {H : Type 0} → Client H → String → Client H
set_last_error c e = record c { last_error = e }

unfoldable pub connected : {H : Type 0} → Client H → Bool
connected c = elim c.impl [ none ↦ false | some h ↦ true ]

-- A null name or value is an empty text.
unfoldable pub text_of : Option String → String
text_of none = ""
text_of (some s) = s

-- The loop over the fields of a row: `item[key] = value`.
unfoldable pub row_loop : List (Option String) → List (Option String) → Row → Row
row_loop [] vs item = item
row_loop (f ∷ fs) [] item = item
row_loop (f ∷ fs) (v ∷ vs) item = row_loop fs vs (put (text_of f) (text_of v) item)

module _ {H : Type 0} ⦃m : Mysql H⦄ where
  unfoldable pub disconnect : Client H → Client H
  disconnect c = record c { impl = none }

  unfoldable pub connect : Client H → String → ℕ → String → String → String → ℕ → Client H × Bool
  connect c host port user password database timeout_ms = elim m.mysql_init [
    | none ↦ (set_last_error (disconnect c) "mysql_init failed", false)
    | some h ↦
        let timeout = if ltb 0 timeout_ms then timeout_ms / 1000 else 2 in
        let r = m.mysql_real_connect (m.mysql_options h timeout) host user password database port in
        if r.1
        then (record { impl = some r.0; last_error = "" }, true)
        else (set_last_error (disconnect c) (m.mysql_error r.0), false)
  ]

  unfoldable pub execute : Client H → String → Client H × Bool
  execute c sql = elim c.impl [
    | none ↦ (set_last_error c "MySQL connection is not ready", false)
    | some h ↦
        let r = m.mysql_query h sql in
        if r.1
        then (record { impl = some r.0; last_error = "" }, true)
        else (record { impl = some r.0; last_error = m.mysql_error r.0 }, false)
  ]

  unfoldable pub begin : Client H → Client H × Bool
  begin c = execute c "BEGIN"

  unfoldable pub commit : Client H → Client H × Bool
  commit c = execute c "COMMIT"

  unfoldable pub rollback : Client H → Client H × Bool
  rollback c = execute c "ROLLBACK"

  -- `query` after the statement is sent. A statement without fields has no rows, and leaves the
  -- text of the last error.
  unfoldable pub fetch : String → H → Client H × Option (List Row)
  fetch last h =
      let (h', result) = m.mysql_store_result h in
      elim result [
        | some r ↦ (
          record { impl = some h'; last_error = "" },
          some (map (λ v. row_loop r.fields v []) r.rows),
        )
        | none ↦
            if m.mysql_field_count h' == 0
            then (record { impl = some h'; last_error = last }, some [])
            else (record { impl = some h'; last_error = m.mysql_error h' }, none)
      ]

  -- The rows, or none on an error.
  unfoldable pub query : Client H → String → Client H × Option (List Row)
  query c sql = elim c.impl [
    | none ↦ (set_last_error c "MySQL connection is not ready", none)
    | some h ↦
        let r = m.mysql_query h sql in
        if r.1
        then fetch c.last_error r.0
        else (record { impl = some r.0; last_error = m.mysql_error r.0 }, none)
  ]

  -- The text, escaped. Without a connection it comes back as it is, and an error is left.
  unfoldable pub escape : Client H → String → Client H × String
  escape c value = elim c.impl [
    | none ↦ (set_last_error c "MySQL connection is not ready", value)
    | some h ↦ (c, m.mysql_real_escape_string h value)
  ]
